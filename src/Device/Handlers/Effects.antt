-- ===== src/Device/Handlers/Effects.antt =====
-- What the handlers can do to the device's state and to the record of the server's acceptance.
use libsupla.Prelude.{
  ℕ, ◌+◌, ◌≡◌, ◌⊎◌, refl, Option, none, some, Bool, true, false, List, [], ◌∷◌, arith, ◌==◌, ◌||◌,
  Bool-cases, inl, inr,
}
use libsupla.Prelude.Int.{ℤ, pos, negsuc, eqb_ℤ}
use libsupla.Channel.{Channel}
use libsupla.Wire.{
  Message, getversion_result, version_error, ping_server_result, register_device_result,
  channel_set_value, channelgroup_set_value, set_activity_timeout_result,
  firmware_update_url_result, registration_enabled_result, user_localtime_result, calcfg_request,
  get_channel_state, channel_functions_result, set_channel_config, get_channel_config_result,
  set_channel_config_result, channel_config_finished, set_device_config, set_device_config_result,
  set_channel_caption_result, unknown_call, NewValue, ChannelState, CalcfgRequest, WireConfig,
  StateRequest, LocalTime, RegisterResult,
}
use libsupla.Env.{
  Env, Trace, Input, failed, nothing, received, called, state_changed, disconnected, connecting,
  input_polled, clock_read, output_flushed, restart_requested, time_offered, channel_called_back,
  config, registered,
}
use libsupla.Device.{World, supla_dev_get_channel_by_num, supla_dev_set_state}
use libsupla.Device.Connection.{link_calls}
use libsupla.Device.Announcements.{told, Tells}
use libsupla.Device.Handlers.{
  resultcode_true, supla_connection_on_register_result, supla_dev_on_set_channel_value,
  supla_dev_on_set_channel_group_value, supla_dev_get_channel_state, set_value_on, channel_state_on,
  supla_dev_on_set_activity_timeout_result, supla_dev_on_get_user_localtime_result, calcfg_device,
  calcfg_channel, supla_dev_on_calcfg_request, supla_dev_on_get_channel_functions_result,
  set_functions, set_function, set_config_on, supla_dev_on_srv_set_channel_config,
  supla_dev_on_set_device_config,
}
use libsupla.Device.Handlers.Messages.{dispatch}

-- The server's message that it has registered the device.
unfoldable pub is_acceptance : Message → Bool
is_acceptance (register_device_result r) = r.result_code == resultcode_true
is_acceptance _ = false

-- Such a message came in.
unfoldable pub input_accepts : Input → Bool
input_accepts (received (some m)) = is_acceptance m
input_accepts (received none) = false
input_accepts failed = false
input_accepts nothing = false

module _ (env : Env) where
  -- The server has accepted the device since the last attempt to connect.
  unfoldable pub accepted : Trace → Bool
  accepted [] = false
  accepted (input_polled ∷ tr) = input_accepts (env.input tr) || accepted tr
  accepted (connecting host port ssl ∷ tr) = false
  accepted (called c ∷ tr) = accepted tr
  accepted (state_changed s ∷ tr) = accepted tr
  accepted (disconnected ∷ tr) = accepted tr
  accepted (output_flushed ∷ tr) = accepted tr
  accepted (clock_read ∷ tr) = accepted tr
  accepted (restart_requested ∷ tr) = accepted tr
  accepted (time_offered t ∷ tr) = accepted tr
  accepted (channel_called_back n ∷ tr) = accepted tr

  -- A handler leaves the acceptance as it is, and the state as it is or else the configuration mode.
  pub record Handled (w w' : World) : Type 0 where
    pub acceptance : accepted w'.trace ≡ accepted w.trace
    pub links : link_calls w'.trace ≡ link_calls w.trace
    pub tells : Tells w w'
    pub state : (w'.dev.state ≡ w.dev.state) ⊎ (w'.dev.state ≡ config)

  Handled-set_value :
      (w : World) (nv : NewValue) (found : Option (ℕ × Channel))
      → Handled w (set_value_on env w nv found)
  unfolding set_value_on accepted link_calls told
  Handled-set_value w nv none = record {
    acceptance = refl;
    links = refl;
    tells = (refl, inl (refl, refl));
    state = inl refl;
  }
  Handled-set_value w nv (some (i, ch)) = ground arith

  Handled-state :
      (w : World) (st : ChannelState) (found : Option (ℕ × Channel))
      → Handled w (channel_state_on env w st found)
  unfolding channel_state_on accepted link_calls told
  Handled-state w st none = record {
    acceptance = refl;
    links = refl;
    tells = (refl, inl (refl, refl));
    state = inl refl;
  }
  Handled-state w st (some (i, ch)) = ground arith

  Handled-calcfg_device : (w : World) (req : CalcfgRequest) → Handled w (calcfg_device env w req)
  unfolding calcfg_device accepted link_calls told supla_dev_set_state
  Handled-calcfg_device w req = ground arith

  Handled-calcfg_channel :
      (w : World) (req : CalcfgRequest) (found : Option (ℕ × Channel))
      → Handled w (calcfg_channel env w req found)
  unfolding calcfg_channel accepted link_calls told
  Handled-calcfg_channel w req none = record {
    acceptance = refl;
    links = refl;
    tells = (refl, inl (refl, refl));
    state = inl refl;
  }
  Handled-calcfg_channel w req (some (i, ch)) = ground arith

  Handled-calcfg :
      (w : World) (req : CalcfgRequest) → Handled w (supla_dev_on_calcfg_request env w req)
  unfolding supla_dev_on_calcfg_request accepted link_calls told
  Handled-calcfg w req = elim (Bool-cases (req.super_user_authorized == 1)) [
    | inr e ↦ simp e (record {
      acceptance = refl;
      links = refl;
      tells = (refl, inl (refl, refl));
      state = inl refl;
    })
    | inl e ↦ elim (Bool-cases (eqb_ℤ req.channel_number (negsuc 0))) [
      | inl d ↦ simp (e, d) (Handled-calcfg_device w req)
      | inr d ↦
          simp (e, d)
            (Handled-calcfg_channel w req (supla_dev_get_channel_by_num w.dev req.channel_number))
    ]
  ]

  Handled-get_state :
      (w : World) (req : StateRequest) → Handled w (supla_dev_get_channel_state env w req)
  unfolding supla_dev_get_channel_state
  Handled-get_state w req =
      Handled-state w _ (supla_dev_get_channel_by_num w.dev (pos req.channel_number))

  Handled-localtime :
      (w : World) (lt : LocalTime) → Handled w (supla_dev_on_get_user_localtime_result env w lt)
  unfolding supla_dev_on_get_user_localtime_result accepted link_calls told
  Handled-localtime w lt = ground arith

  Handled-set_config :
      (w : World) (cfg : WireConfig) (found : Option (ℕ × Channel))
      → Handled w (set_config_on env w cfg found)
  unfolding set_config_on accepted link_calls told
  Handled-set_config w cfg none = record {
    acceptance = refl;
    links = refl;
    tells = (refl, inl (refl, refl));
    state = inl refl;
  }
  Handled-set_config w cfg (some (i, ch)) = ground arith

  Handled-trans : (u v w : World) → Handled u v → Handled v w → Handled u w
  Handled-trans u v w h k = ground arith

  Handled-set_function :
      (w : World) (found : Option (ℕ × Channel)) (f : ℤ) → Handled w (set_function env w found f)
  unfolding set_function
  Handled-set_function w none f = record {
    acceptance = refl;
    links = refl;
    tells = (refl, inl (refl, refl));
    state = inl refl;
  }
  Handled-set_function w (some (i, ch)) f = record {
    acceptance = refl;
    links = refl;
    tells = (refl, inl (refl, refl));
    state = inl refl;
  }

  Handled-set_functions : (fs : List ℤ) (w : World) (i : ℕ) → Handled w (set_functions env w i fs)
  unfolding set_functions
  Handled-set_functions [] w i = record {
    acceptance = refl;
    links = refl;
    tells = (refl, inl (refl, refl));
    state = inl refl;
  }
  Handled-set_functions (f ∷ fs) w i =
      let found = supla_dev_get_channel_by_num w.dev (pos i) in
      Handled-trans w (set_function env w found f) _ (Handled-set_function w found f)
        (Handled-set_functions fs (set_function env w found f) (i + 1))

  -- What a message can do: as any handler, or register the device if it is the acceptance.
  pub record Dispatched (w : World) (m : Message) (w' : World) : Type 0 where
    pub acceptance : accepted w'.trace ≡ accepted w.trace
    pub links : link_calls w'.trace ≡ link_calls w.trace
    pub tells : Tells w w'
    pub state :
        (w'.dev.state ≡ w.dev.state)
        ⊎ ((w'.dev.state ≡ config) ⊎ ((w'.dev.state ≡ registered) × (is_acceptance m ≡ true)))

  Dispatched-of_Handled : (w : World) (m : Message) (w' : World) → Handled w w' → Dispatched w m w'
  Dispatched-of_Handled w m w' h = ground arith

  Dispatched-register :
      (w : World) (r : RegisterResult)
      → Dispatched w (register_device_result r) (supla_connection_on_register_result env w r)
  unfolding supla_connection_on_register_result accepted link_calls told supla_dev_set_state
      is_acceptance
  Dispatched-register w r = ground arith

  nothing_done : (w : World) (m : Message) → Dispatched w m w
  nothing_done w m = record {
    acceptance = refl;
    links = refl;
    tells = (refl, inl (refl, refl));
    state = inl refl;
  }

  -- Every message of the server leaves the connection and the record of its acceptance as they are; it
  -- leaves the device's state, or takes it to CONFIG, or, if it is the acceptance, to REGISTERED; and a
  -- callback on the state, which stays as it is, is told of a change.
  pub dispatch-Dispatched : (w : World) (m : Message) → Dispatched w m (dispatch env w m)
  unfolding dispatch
  dispatch-Dispatched w (register_device_result r) = Dispatched-register w r
  dispatch-Dispatched w (channel_set_value v) = Dispatched-of_Handled w _ _ (
      unfold supla_dev_on_set_channel_value in
      Handled-set_value w v (supla_dev_get_channel_by_num w.dev (pos v.channel_number)))
  dispatch-Dispatched w (channelgroup_set_value v) = Dispatched-of_Handled w _ _ (
      unfold supla_dev_on_set_channel_group_value in
      Handled-set_value w _ (supla_dev_get_channel_by_num w.dev (pos v.channel_number)))
  dispatch-Dispatched w (set_activity_timeout_result t) =
      unfold supla_dev_on_set_activity_timeout_result in
      record { acceptance = refl; links = refl; tells = (refl, inl (refl, refl)); state = inl refl }
  dispatch-Dispatched w (user_localtime_result lt) =
      Dispatched-of_Handled w _ _ (Handled-localtime w lt)
  dispatch-Dispatched w (calcfg_request r) = Dispatched-of_Handled w _ _ (Handled-calcfg w r)
  dispatch-Dispatched w (get_channel_state r) = Dispatched-of_Handled w _ _ (Handled-get_state w r)
  dispatch-Dispatched w (channel_functions_result fs) =
      Dispatched-of_Handled w _ _
        (unfold supla_dev_on_get_channel_functions_result in Handled-set_functions fs w 0)
  dispatch-Dispatched w (set_channel_config c) = Dispatched-of_Handled w _ _ (
      unfold supla_dev_on_srv_set_channel_config in
      Handled-set_config w c (supla_dev_get_channel_by_num w.dev (pos c.channel_number)))
  dispatch-Dispatched w set_device_config =
      unfold supla_dev_on_set_device_config accepted link_calls told in
      record { acceptance = refl; links = refl; tells = (refl, inl (refl, refl)); state = inl refl }
  dispatch-Dispatched w getversion_result = nothing_done w getversion_result
  dispatch-Dispatched w version_error = nothing_done w version_error
  dispatch-Dispatched w ping_server_result = nothing_done w ping_server_result
  dispatch-Dispatched w firmware_update_url_result = nothing_done w firmware_update_url_result
  dispatch-Dispatched w registration_enabled_result = nothing_done w registration_enabled_result
  dispatch-Dispatched w (get_channel_config_result c) = nothing_done w (get_channel_config_result c)
  dispatch-Dispatched w set_channel_config_result = nothing_done w set_channel_config_result
  dispatch-Dispatched w channel_config_finished = nothing_done w channel_config_finished
  dispatch-Dispatched w set_device_config_result = nothing_done w set_device_config_result
  dispatch-Dispatched w set_channel_caption_result = nothing_done w set_channel_caption_result
  dispatch-Dispatched w unknown_call = nothing_done w unknown_call
