-- ===== src/Device/Handlers/Replies.antt =====
-- For every request of the server that wants an answer, one call for the answer, addressed to its sender.
use libsupla.Prelude.{
  ℕ, ◌≡◌, ◌≢◌, refl, Option, none, some, false, List, [], ◌∷◌, arith, ◌==◌, if◌then◌else◌,
  Bool-cases, not, inl, inr,
}
use libsupla.Prelude.Int.{ℤ, pos, negsuc, u8, wrap, eqb_ℤ}
use libsupla.Channel.{Channel}
use libsupla.Wire.{
  Call, NewValue, CalcfgRequest, StateRequest, ChannelState, set_channel_result, calcfg_result,
  channel_state_result,
}
use libsupla.Env.{
  Env, Trace, called, state_changed, disconnected, connecting, input_polled, output_flushed,
  clock_read, restart_requested, time_offered, channel_called_back, config,
}
use libsupla.Device.{World, supla_dev_get_channel_by_num, supla_dev_set_state}
use libsupla.Device.Handlers.{
  supla_dev_on_set_channel_value, supla_dev_get_channel_state, supla_dev_on_calcfg_request,
  calcfg_unauthorized, calcfg_id_not_exists, set_value_on, channel_state_on, calcfg_device,
  calcfg_channel, device_state, calcfg_not_supported, cmd_enter_cfg_mode, cmd_restart_device,
}

-- The calls of a trace, the latest first.
unfoldable pub calls_of : Trace → List Call
calls_of [] = []
calls_of (called c ∷ tr) = c ∷ calls_of tr
calls_of (state_changed s ∷ tr) = calls_of tr
calls_of (disconnected ∷ tr) = calls_of tr
calls_of (connecting h p s ∷ tr) = calls_of tr
calls_of (input_polled ∷ tr) = calls_of tr
calls_of (output_flushed ∷ tr) = calls_of tr
calls_of (clock_read ∷ tr) = calls_of tr
calls_of (restart_requested ∷ tr) = calls_of tr
calls_of (time_offered t ∷ tr) = calls_of tr
calls_of (channel_called_back n ∷ tr) = calls_of tr

module _ (env : Env) (w : World) where
  -- what the sender of a value hears
  success_of : NewValue → Option (ℕ × Channel) → ℕ
  success_of nv none = 0
  success_of nv (some (i, ch)) =
      if ch.config.on_set_value then u8 (env.on_set_value w.trace ch nv).1 else 0

  answer_set_value :
      (nv : NewValue) (found : Option (ℕ × Channel))
      → calls_of (set_value_on env w nv found).trace
        ≡ set_channel_result nv.channel_number nv.sender_id (success_of nv found) ∷ calls_of w.trace
  unfolding set_value_on calls_of success_of
  answer_set_value nv none = refl
  answer_set_value nv (some (i, ch)) = ground arith

  success_of-none :
      (nv : NewValue) (found : Option (ℕ × Channel)) → found ≡ none → success_of nv found ≡ 0
  unfolding success_of
  success_of-none nv none e = refl
  success_of-none nv (some f) e = cc

  -- A value for a channel is answered with one result, to its sender and for its channel; the result
  -- is 0 if there is no such channel.
  pub supla_dev_on_set_channel_value-answers :
      (nv : NewValue)
      → (success : ℕ) × (calls_of (supla_dev_on_set_channel_value env w nv).trace
          ≡ set_channel_result nv.channel_number nv.sender_id success ∷ calls_of w.trace)
        × (supla_dev_get_channel_by_num w.dev (pos nv.channel_number) ≡ none → success ≡ 0)
  unfolding supla_dev_on_set_channel_value
  supla_dev_on_set_channel_value-answers nv =
      let found = supla_dev_get_channel_by_num w.dev (pos nv.channel_number) in
      (success_of nv found, answer_set_value nv found, success_of-none nv found)

  answer_state :
      (st : ChannelState) (found : Option (ℕ × Channel))
      → (out : ChannelState) × (calls_of (channel_state_on env w st found).trace
          ≡ channel_state_result out ∷ calls_of w.trace)
        × (found ≡ none → out ≡ st)
  unfolding channel_state_on calls_of
  answer_state st none = (st, refl, λ _. refl)
  answer_state st (some (i, ch)) = (
    if ch.config.on_get_state then (env.on_get_state w.trace ch st).1 else st,
    ground arith,
    λ e. cc,
  )

  -- A request for a channel's state is answered with one state. Where no callback of the device and
  -- no channel has a say, it is addressed to the sender and its channel, with the uptimes and the cause
  -- of the last reset.
  supla_dev_get_channel_state-answers :
      (req : StateRequest)
      → (out : ChannelState) × (calls_of (supla_dev_get_channel_state env w req).trace
          ≡ channel_state_result out ∷ calls_of w.trace)
        × (w.dev.on_get_channel_state ≡ false
            → supla_dev_get_channel_by_num w.dev (pos req.channel_number) ≡ none
            → (out.receiver_id ≡ req.sender_id)
              × (out.channel_number ≡ req.channel_number)
              × (out.uptime ≡ wrap 4294967296 w.dev.uptime)
              × (out.connection_uptime ≡ wrap 4294967296 w.dev.connection_uptime)
              × (out.last_connection_reset_cause ≡ w.dev.connection_reset_cause))
  unfolding supla_dev_get_channel_state
  supla_dev_get_channel_state-answers req =
      let own = device_state env w.dev req in
      let st = if w.dev.on_get_channel_state then env.on_get_channel_state w.trace own else own in
      let (out, answered, kept) =
        answer_state st (supla_dev_get_channel_by_num w.dev (pos req.channel_number)) in
      (out, answered, λ quiet missing. rw (kept missing, quiet) (refl, refl, refl, refl, refl))

  -- The parts of the calcfg handler.
  abbrev Answers : CalcfgRequest → ℤ → World → Type 0
  Answers req r w' =
      calls_of w'.trace
      ≡ calcfg_result (record {
        receiver_id = req.sender_id;
        channel_number = req.channel_number;
        command = req.command;
        result = r;
        data_size = env.stack_size w.trace;
        payload = env.stack_bytes w.trace;
      })
        ∷ calls_of w.trace

  device_answer : CalcfgRequest → ℤ
  device_answer req =
      if eqb_ℤ req.command cmd_enter_cfg_mode
      then env.stack w.trace
      else if eqb_ℤ req.command cmd_restart_device
      then env.stack w.trace
      else calcfg_not_supported

  answer_device : (req : CalcfgRequest) → Answers req (device_answer req) (calcfg_device env w req)
  unfolding calcfg_device device_answer supla_dev_set_state calls_of
  answer_device req = ground arith

  channel_answer : CalcfgRequest → Option (ℕ × Channel) → ℤ
  channel_answer req none = calcfg_id_not_exists
  channel_answer req (some (i, ch)) =
      if ch.config.on_calcfg_req then (env.on_calcfg_req w.trace ch req).1 else calcfg_not_supported

  answer_channel :
      (req : CalcfgRequest) (found : Option (ℕ × Channel))
      → Answers req (channel_answer req found) (calcfg_channel env w req found)
  unfolding calcfg_channel channel_answer calls_of
  answer_channel req none = refl
  answer_channel req (some (i, ch)) = ground arith

  calcfg_answer : CalcfgRequest → ℤ
  calcfg_answer req =
      if not (req.super_user_authorized == 1)
      then calcfg_unauthorized
      else if eqb_ℤ req.channel_number (negsuc 0)
      then device_answer req
      else channel_answer req (supla_dev_get_channel_by_num w.dev req.channel_number)

  answer_calcfg :
      (req : CalcfgRequest)
      → Answers req (calcfg_answer req) (supla_dev_on_calcfg_request env w req)
  unfolding supla_dev_on_calcfg_request calcfg_answer calls_of
  answer_calcfg req = elim (Bool-cases (req.super_user_authorized == 1)) [
    | inr e ↦ simp e
    | inl e ↦ elim (Bool-cases (eqb_ℤ req.channel_number (negsuc 0))) [
      | inl d ↦ simp (e, d) (answer_device req)
      | inr d ↦
          simp (e, d) (answer_channel req (supla_dev_get_channel_by_num w.dev req.channel_number))
    ]
  ]

  -- For a configuration request the handler makes one call on the protocol library, for a result that
  -- is addressed by the request's sender, channel and command; the size of the result's data and the
  -- data are what an uninitialised variable holds. Without the super user's authorisation the result is UNAUTHORIZED and the device stays
  -- as it is. With it, a channel that does not exist gives ID_NOT_EXISTS, and the command to enter the
  -- configuration mode takes the device there, with a result that nothing has set.
  pub supla_dev_on_calcfg_request-answers :
      (req : CalcfgRequest)
      → (r : ℤ) × (calls_of (supla_dev_on_calcfg_request env w req).trace
          ≡ calcfg_result (record {
            receiver_id = req.sender_id;
            channel_number = req.channel_number;
            command = req.command;
            result = r;
            data_size = env.stack_size w.trace;
            payload = env.stack_bytes w.trace;
          })
            ∷ calls_of w.trace)
        × (req.super_user_authorized ≢ 1
            → (r ≡ calcfg_unauthorized) × ((supla_dev_on_calcfg_request env w req).dev ≡ w.dev))
        × (req.super_user_authorized ≡ 1
            → req.channel_number ≢ negsuc 0
            → supla_dev_get_channel_by_num w.dev req.channel_number ≡ none
            → r ≡ calcfg_id_not_exists)
        × (req.super_user_authorized ≡ 1
            → req.channel_number ≡ negsuc 0
            → req.command ≡ cmd_enter_cfg_mode
            → (r ≡ env.stack w.trace)
              × ((supla_dev_on_calcfg_request env w req).dev.state ≡ config))
  supla_dev_on_calcfg_request-answers req =
      (calcfg_answer req, answer_calcfg req, unauthorized, missing, enters)
    where
      unauthorized :
          req.super_user_authorized ≢ 1
          → (calcfg_answer req ≡ calcfg_unauthorized)
            × ((supla_dev_on_calcfg_request env w req).dev ≡ w.dev)
      unauthorized h = unfold supla_dev_on_calcfg_request calcfg_answer in ground arith

      missing :
          req.super_user_authorized ≡ 1
          → req.channel_number ≢ negsuc 0
          → supla_dev_get_channel_by_num w.dev req.channel_number ≡ none
          → calcfg_answer req ≡ calcfg_id_not_exists
      missing a c e = unfold calcfg_answer channel_answer in ground arith

      enters :
          req.super_user_authorized ≡ 1
          → req.channel_number ≡ negsuc 0
          → req.command ≡ cmd_enter_cfg_mode
          → (calcfg_answer req ≡ env.stack w.trace)
            × ((supla_dev_on_calcfg_request env w req).dev.state ≡ config)
      enters a c m =
          unfold supla_dev_on_calcfg_request calcfg_answer device_answer supla_dev_set_state in
          ground arith
