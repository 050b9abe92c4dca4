-- ===== src/Device/Handlers/Keeping.antt =====
-- The handlers of src/device.c leave the list of channels as a list: a handler writes one channel
-- back at its place.
use libsupla.Prelude.{
  ℕ, ◌+◌, ◌≡◌, sym, subst, inl, inr, Option, none, some, List, [], ◌∷◌, arith, Bool-cases, ◌==◌,
}
use libsupla.Prelude.Int.{ℤ, pos, negsuc, eqb_ℤ}
use libsupla.Channel.{Channel}
use libsupla.Channel.Keeping.{Keeps-trans, Keeps-active_function}
use libsupla.Channel.Access.{supla_channel_set_active_function}
use libsupla.Wire.{
  RegisterResult, NewValue, ChannelState, CalcfgRequest, WireConfig, LocalTime, Message,
  getversion_result, version_error, ping_server_result, register_device_result, channel_set_value,
  channelgroup_set_value, set_activity_timeout_result, firmware_update_url_result,
  registration_enabled_result, user_localtime_result, calcfg_request, get_channel_state,
  channel_functions_result, set_channel_config, get_channel_config_result,
  set_channel_config_result, channel_config_finished, set_device_config, set_device_config_result,
  set_channel_caption_result, unknown_call,
}
use libsupla.Env.{Env, DevState}
use libsupla.Device.{World, supla_dev_set_state, supla_dev_get_channel_by_num}
use libsupla.Device.Channels.Keeping.{
  KeepsAll, KeepsChannels, KeepsAll-refl, KeepsAll-trans, KeepsAll-set, IsLocated,
  get_channel_by_num-IsLocated, CallbacksKeep,
}
use libsupla.Device.Handlers.{
  supla_connection_on_register_result, set_value_on, channel_state_on,
  supla_dev_on_set_channel_value, supla_dev_on_set_channel_group_value, supla_dev_get_channel_state,
  supla_dev_on_set_activity_timeout_result, supla_dev_on_get_user_localtime_result, calcfg_reply,
  calcfg_device, calcfg_channel, supla_dev_on_calcfg_request, set_function, set_functions,
  supla_dev_on_get_channel_functions_result, set_config_on, supla_dev_on_srv_set_channel_config,
  supla_dev_on_set_device_config,
}
use libsupla.Device.Handlers.Messages.{dispatch, supla_dev_on_remote_call_received}

pub KeepsChannels-refl : (w : World) → KeepsChannels w w
KeepsChannels-refl w = KeepsAll-refl w.dev.channels

-- a world with the same channels
pub KeepsChannels-same : (w w' : World) → w'.dev.channels ≡ w.dev.channels → KeepsChannels w w'
KeepsChannels-same w w' e = subst (KeepsAll w.dev.channels) (sym e) (KeepsAll-refl w.dev.channels)

pub channels-set_state :
    (w : World) (s : DevState) → (supla_dev_set_state w s).dev.channels ≡ w.dev.channels
unfolding supla_dev_set_state
channels-set_state w s = ground arith

module _ (env : Env) (keeps : CallbacksKeep env) where
  set_value_on-Keeps :
      (w : World) (nv : NewValue) (found : Option (ℕ × Channel))
      → IsLocated w found
      → KeepsChannels w (set_value_on env w nv found)
  unfolding set_value_on
  set_value_on-Keeps w nv none l = KeepsChannels-refl w
  set_value_on-Keeps w nv (some (i, c)) l = elim (Bool-cases c.config.on_set_value) [
    | inl e ↦ simp e (KeepsAll-set w.dev.channels i c _ l (keeps.set_value w.trace c nv))
    | inr e ↦ simp e (KeepsChannels-refl w)
  ]

  channel_state_on-Keeps :
      (w : World) (st : ChannelState) (found : Option (ℕ × Channel))
      → IsLocated w found
      → KeepsChannels w (channel_state_on env w st found)
  unfolding channel_state_on
  channel_state_on-Keeps w st none l = KeepsChannels-refl w
  channel_state_on-Keeps w st (some (i, c)) l = elim (Bool-cases c.config.on_get_state) [
    | inl e ↦ simp e (KeepsAll-set w.dev.channels i c _ l (keeps.get_state w.trace c st))
    | inr e ↦ simp e (KeepsChannels-refl w)
  ]

  calcfg_device-Keeps :
      (w : World) (req : CalcfgRequest) → KeepsChannels w (calcfg_device env w req)
  unfolding calcfg_device calcfg_reply
  calcfg_device-Keeps w req =
      KeepsChannels-same w (calcfg_device env w req) (unfold supla_dev_set_state in ground arith)

  calcfg_channel-Keeps :
      (w : World) (req : CalcfgRequest) (found : Option (ℕ × Channel))
      → IsLocated w found
      → KeepsChannels w (calcfg_channel env w req found)
  unfolding calcfg_channel calcfg_reply
  calcfg_channel-Keeps w req none l = KeepsChannels-refl w
  calcfg_channel-Keeps w req (some (i, c)) l = elim (Bool-cases c.config.on_calcfg_req) [
    | inl e ↦ simp e (KeepsAll-set w.dev.channels i c _ l (keeps.calcfg_req w.trace c req))
    | inr e ↦ simp e (KeepsChannels-refl w)
  ]

  calcfg_request-Keeps :
      (w : World) (req : CalcfgRequest) → KeepsChannels w (supla_dev_on_calcfg_request env w req)
  unfolding supla_dev_on_calcfg_request calcfg_reply
  calcfg_request-Keeps w req = elim (Bool-cases (req.super_user_authorized == 1)) [
    | inr e ↦ simp e (KeepsChannels-refl w)
    | inl e ↦ elim (Bool-cases (eqb_ℤ req.channel_number (negsuc 0))) [
      | inl d ↦ simp (e, d) (calcfg_device-Keeps w req)
      | inr d ↦
          simp (e, d)
            (calcfg_channel-Keeps w req _ (get_channel_by_num-IsLocated w req.channel_number))
    ]
  ]

  set_function-Keeps :
      (w : World) (found : Option (ℕ × Channel)) (f : ℤ)
      → IsLocated w found
      → KeepsChannels w (set_function env w found f)
  unfolding set_function
  set_function-Keeps w none f l = KeepsChannels-refl w
  set_function-Keeps w (some (i, c)) f l =
      KeepsAll-set w.dev.channels i c _ l (Keeps-active_function c f)

  set_functions-Keeps :
      (fs : List ℤ) (w : World) (i : ℕ) → KeepsChannels w (set_functions env w i fs)
  unfolding set_functions
  set_functions-Keeps [] w i = KeepsChannels-refl w
  set_functions-Keeps (f ∷ fs) w i =
      let w' = set_function env w (supla_dev_get_channel_by_num w.dev (pos i)) f in
      KeepsAll-trans w.dev.channels w'.dev.channels _
        (set_function-Keeps w _ f (get_channel_by_num-IsLocated w (pos i)))
        (set_functions-Keeps fs w' (i + 1))

  set_config_on-Keeps :
      (w : World) (cfg : WireConfig) (found : Option (ℕ × Channel))
      → IsLocated w found
      → KeepsChannels w (set_config_on env w cfg found)
  unfolding set_config_on
  set_config_on-Keeps w cfg none l = KeepsChannels-refl w
  set_config_on-Keeps w cfg (some (i, c)) l =
      let c' = (supla_channel_set_active_function c cfg.func).0 in
      elim (Bool-cases c'.config.on_config_recv) [
        | inl e ↦ simp e (
            KeepsAll-set w.dev.channels i c _ l (
              Keeps-trans c c' _ (Keeps-active_function c cfg.func)
                (keeps.config_recv w.trace c' cfg)))
        | inr e ↦ simp e (KeepsAll-set w.dev.channels i c _ l (Keeps-active_function c cfg.func))
      ]

  register_result-Keeps :
      (w : World) (r : RegisterResult)
      → KeepsChannels w (supla_connection_on_register_result env w r)
  unfolding supla_connection_on_register_result supla_dev_set_state
  register_result-Keeps w r =
      KeepsChannels-same w (supla_connection_on_register_result env w r) (ground arith)

  localtime-Keeps :
      (w : World) (lt : LocalTime)
      → KeepsChannels w (supla_dev_on_get_user_localtime_result env w lt)
  unfolding supla_dev_on_get_user_localtime_result
  localtime-Keeps w lt =
      KeepsChannels-same w (supla_dev_on_get_user_localtime_result env w lt) (ground arith)

  -- Whatever message is received, each channel keeps its number, its type and its place.
  pub dispatch-Keeps : (w : World) (m : Message) → KeepsChannels w (dispatch env w m)
  unfolding dispatch supla_dev_on_set_channel_value supla_dev_on_set_channel_group_value
      supla_dev_get_channel_state supla_dev_on_get_channel_functions_result
      supla_dev_on_srv_set_channel_config supla_dev_on_set_activity_timeout_result
      supla_dev_on_set_device_config
  dispatch-Keeps w (register_device_result r) = register_result-Keeps w r
  dispatch-Keeps w (channel_set_value v) =
      set_value_on-Keeps w v _ (get_channel_by_num-IsLocated w (pos v.channel_number))
  dispatch-Keeps w (channelgroup_set_value v) =
      set_value_on-Keeps w _ _ (get_channel_by_num-IsLocated w (pos v.channel_number))
  dispatch-Keeps w (set_activity_timeout_result t) = KeepsChannels-refl w
  dispatch-Keeps w (user_localtime_result lt) = localtime-Keeps w lt
  dispatch-Keeps w (calcfg_request r) = calcfg_request-Keeps w r
  dispatch-Keeps w (get_channel_state r) =
      channel_state_on-Keeps w _ _ (get_channel_by_num-IsLocated w (pos r.channel_number))
  dispatch-Keeps w (channel_functions_result fs) = set_functions-Keeps fs w 0
  dispatch-Keeps w (set_channel_config c) =
      set_config_on-Keeps w c _ (get_channel_by_num-IsLocated w (pos c.channel_number))
  dispatch-Keeps w set_device_config = KeepsChannels-refl w
  dispatch-Keeps w getversion_result = KeepsChannels-refl w
  dispatch-Keeps w version_error = KeepsChannels-refl w
  dispatch-Keeps w ping_server_result = KeepsChannels-refl w
  dispatch-Keeps w firmware_update_url_result = KeepsChannels-refl w
  dispatch-Keeps w registration_enabled_result = KeepsChannels-refl w
  dispatch-Keeps w (get_channel_config_result c) = KeepsChannels-refl w
  dispatch-Keeps w set_channel_config_result = KeepsChannels-refl w
  dispatch-Keeps w channel_config_finished = KeepsChannels-refl w
  dispatch-Keeps w set_device_config_result = KeepsChannels-refl w
  dispatch-Keeps w set_channel_caption_result = KeepsChannels-refl w
  dispatch-Keeps w unknown_call = KeepsChannels-refl w

  pub received-Keeps :
      (w : World) (m : Option Message) → KeepsChannels w (supla_dev_on_remote_call_received env w m)
  unfolding supla_dev_on_remote_call_received
  received-Keeps w none = KeepsChannels-refl w
  received-Keeps w (some m) =
      dispatch-Keeps (record w { dev = record w.dev { last_resp = env.now w.trace } }) m
