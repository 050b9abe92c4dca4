-- ===== src/Device/Handlers.antt =====
-- The handlers of src/device.c for the calls that the server makes, and their dispatch.
pub mod Messages
pub mod Replies
pub mod Clock
pub mod Effects
pub mod Keeping
use Prim.Native.Nat.{bit_or}
use libsupla.Prelude.{
  ℕ, suc, ◌+◌, Option, none, some, List, [], ◌∷◌, Bytes, ◌==◌, if◌then◌else◌, not,
}
use libsupla.Prelude.Int.{ℤ, pos, negsuc, ◌-ℤ◌, eqb_ℤ, u8, wrap}
use libsupla.Channel.{Channel}
use libsupla.Channel.Access.{supla_channel_set_active_function}
use libsupla.Wire.{
  RegisterResult, NewValue, GroupNewValue, StateRequest, ChannelState, CalcfgRequest, WireConfig,
  LocalTime, set_activity_timeout, set_channel_result, channel_state_result, calcfg_result,
  device_config_result,
}
use libsupla.Env.{
  Env, Trace, channel_called_back, restart_requested, time_offered, registered, config,
}
use libsupla.Device.{
  Device, World, supla_dev_set_state, srpc_send, emit, put_channel, supla_dev_get_channel_by_num,
}

-- SUPLA_RESULTCODE_TRUE
abbrev pub resultcode_true : ℕ
resultcode_true = 3

-- SUPLA_CALCFG_RESULT_NOT_SUPPORTED, _ID_NOT_EXISTS, _UNAUTHORIZED
abbrev pub calcfg_not_supported : ℤ
calcfg_not_supported = pos 102

abbrev pub calcfg_id_not_exists : ℤ
calcfg_id_not_exists = pos 103

abbrev pub calcfg_unauthorized : ℤ
calcfg_unauthorized = pos 104

-- SUPLA_CALCFG_CMD_ENTER_CFG_MODE, SUPLA_CALCFG_CMD_RESTART_DEVICE
abbrev pub cmd_enter_cfg_mode : ℤ
cmd_enter_cfg_mode = pos 9000

abbrev pub cmd_restart_device : ℤ
cmd_restart_device = pos 9400

module _ (env : Env) where
  -- `supla_connection_on_register_result`: every result but SUPLA_RESULTCODE_TRUE is only logged.
  unfoldable pub supla_connection_on_register_result : World → RegisterResult → World
  supla_connection_on_register_result w res =
      if res.result_code == resultcode_true
      then (let w' =
            if eqb_ℤ w.dev.activity_timeout (pos res.activity_timeout)
            then w
            else srpc_send env w (set_activity_timeout (u8 w.dev.activity_timeout)) in
          supla_dev_set_state
            (record w' { dev = record w'.dev { register_time = env.now w'.trace } }) registered)
      else w

  -- The part that the two set-value handlers share: the callback of the channel, if any, and the
  -- reply to the sender.
  set_value_on : World → NewValue → Option (ℕ × Channel) → World
  set_value_on w nv none = srpc_send env w (set_channel_result nv.channel_number nv.sender_id 0)
  set_value_on w nv (some (i, ch)) =
      if ch.config.on_set_value
      then (let (ch', success) = env.on_set_value w.trace ch nv in
          srpc_send env (put_channel (emit w (channel_called_back ch.number)) i ch')
            (set_channel_result nv.channel_number nv.sender_id (u8 success)))
      else srpc_send env w (set_channel_result nv.channel_number nv.sender_id 0)

  -- `supla_dev_on_set_channel_value`
  unfoldable pub supla_dev_on_set_channel_value : World → NewValue → World
  unfolding set_value_on
  supla_dev_on_set_channel_value w nv =
      set_value_on w nv (supla_dev_get_channel_by_num w.dev (pos nv.channel_number))

  -- `supla_dev_on_set_channel_group_value`: the value of one channel, with no sender.
  unfoldable pub supla_dev_on_set_channel_group_value : World → GroupNewValue → World
  unfolding set_value_on
  supla_dev_on_set_channel_group_value w gr =
      let nv : NewValue = record {
        sender_id = pos 0;
        channel_number = gr.channel_number;
        duration_ms = gr.duration_ms;
        value = gr.value;
      } in
      set_value_on w nv (supla_dev_get_channel_by_num w.dev (pos nv.channel_number))

  -- The device's part of a state: UPTIME, CONNECTIONUPTIME, LASTCONNECTIONRESETCAUSE.
  device_state : Device → StateRequest → ChannelState
  device_state dev req = record {
    receiver_id = req.sender_id;
    channel_number = req.channel_number;
    fields = bit_or (bit_or (bit_or 0 0x0080) 0x0100) 0x0800;
    uptime = wrap 4294967296 dev.uptime;
    connection_uptime = wrap 4294967296 dev.connection_uptime;
    last_connection_reset_cause = dev.connection_reset_cause;
    others = [];
  }

  -- The channel's part, and the reply.
  channel_state_on : World → ChannelState → Option (ℕ × Channel) → World
  channel_state_on w st none = srpc_send env w (channel_state_result st)
  channel_state_on w st (some (i, ch)) =
      if ch.config.on_get_state
      then (let (ch', st') = env.on_get_state w.trace ch st in
          srpc_send env (put_channel (emit w (channel_called_back ch.number)) i ch')
            (channel_state_result st'))
      else srpc_send env w (channel_state_result st)

  -- `supla_dev_get_channel_state`
  unfoldable pub supla_dev_get_channel_state : World → StateRequest → World
  unfolding device_state channel_state_on
  supla_dev_get_channel_state w req =
      let st = device_state w.dev req in
      let st' = if w.dev.on_get_channel_state then env.on_get_channel_state w.trace st else st in
      channel_state_on w st' (supla_dev_get_channel_by_num w.dev (pos req.channel_number))

  -- `supla_dev_on_set_activity_timeout_result`
  unfoldable pub supla_dev_on_set_activity_timeout_result : World → ℕ → World
  supla_dev_on_set_activity_timeout_result w timeout = record w {
    dev = record w.dev { activity_timeout = pos timeout };
  }

  -- `supla_dev_on_get_user_localtime_result`: after the program has set the clock, the times on
  -- record move with it.
  unfoldable pub supla_dev_on_get_user_localtime_result : World → LocalTime → World
  supla_dev_on_get_user_localtime_result w lt =
      if w.dev.on_server_time_sync
      then (let w' = emit w (time_offered lt) in
          if eqb_ℤ (env.on_server_time_sync w.trace lt) (pos 0)
          then (let local = env.now w'.trace in
              record w' {
                dev = record w'.dev {
                  init_time = local -ℤ w'.dev.uptime;
                  register_time = local -ℤ w'.dev.connection_uptime;
                  last_ping = local;
                  last_resp = local;
                };
              })
          else w')
      else w

  -- The reply to a configuration request. Nothing sets the size of the data or the data: they are what
  -- the local variable held when the handler was entered, after the given trace.
  calcfg_reply : Trace → World → CalcfgRequest → ℤ → World
  calcfg_reply entered w req result = srpc_send env w (
      calcfg_result (record {
        receiver_id = req.sender_id;
        channel_number = req.channel_number;
        command = req.command;
        result = result;
        data_size = env.stack_size entered;
        payload = env.stack_bytes entered;
      }))

  -- A request for the device: only the default case of the switch sets the result; otherwise the
  -- local variable goes out as it is.
  calcfg_device : World → CalcfgRequest → World
  unfolding calcfg_reply
  calcfg_device w req =
      if eqb_ℤ req.command cmd_enter_cfg_mode
      then calcfg_reply w.trace (supla_dev_set_state w config) req (env.stack w.trace)
      else if eqb_ℤ req.command cmd_restart_device
      then (calcfg_reply w.trace
          (if w.dev.on_restart_from_server then emit w restart_requested else w) req
          (env.stack w.trace))
      else calcfg_reply w.trace w req calcfg_not_supported

  calcfg_channel : World → CalcfgRequest → Option (ℕ × Channel) → World
  unfolding calcfg_reply
  calcfg_channel w req none = calcfg_reply w.trace w req calcfg_id_not_exists
  calcfg_channel w req (some (i, ch)) =
      if ch.config.on_calcfg_req
      then (let (ch', result) = env.on_calcfg_req w.trace ch req in
          calcfg_reply w.trace (put_channel (emit w (channel_called_back ch.number)) i ch') req
            result)
      else calcfg_reply w.trace w req calcfg_not_supported

  -- `supla_dev_on_calcfg_request`
  unfoldable pub supla_dev_on_calcfg_request : World → CalcfgRequest → World
  unfolding calcfg_reply calcfg_device calcfg_channel
  supla_dev_on_calcfg_request w req =
      if not (req.super_user_authorized == 1)
      then calcfg_reply w.trace w req calcfg_unauthorized
      else if eqb_ℤ req.channel_number (negsuc 0)
      then calcfg_device w req
      else calcfg_channel w req (supla_dev_get_channel_by_num w.dev req.channel_number)

  -- one round of the loop over the functions
  set_function : World → Option (ℕ × Channel) → ℤ → World
  set_function w none function = w
  set_function w (some (i, ch)) function =
      put_channel w i (supla_channel_set_active_function ch function).0

  set_functions : World → ℕ → List ℤ → World
  unfolding set_function
  set_functions w i [] = w
  set_functions w i (f ∷ fs) =
      set_functions (set_function w (supla_dev_get_channel_by_num w.dev (pos i)) f) (i + 1) fs

  -- `supla_dev_on_get_channel_functions_result`; the list has `ChannelCount` entries.
  unfoldable pub supla_dev_on_get_channel_functions_result : World → List ℤ → World
  unfolding set_functions
  supla_dev_on_get_channel_functions_result w functions = set_functions w 0 functions

  set_config_on : World → WireConfig → Option (ℕ × Channel) → World
  set_config_on w cfg none = w
  set_config_on w cfg (some (i, ch)) =
      let ch' = (supla_channel_set_active_function ch cfg.func).0 in
      if ch'.config.on_config_recv
      then (put_channel (emit w (channel_called_back ch'.number)) i
          (env.on_config_recv w.trace ch' cfg))
      else put_channel w i ch'

  -- `supla_dev_on_srv_set_channel_config`
  unfoldable pub supla_dev_on_srv_set_channel_config : World → WireConfig → World
  unfolding set_config_on
  supla_dev_on_srv_set_channel_config w cfg =
      set_config_on w cfg (supla_dev_get_channel_by_num w.dev (pos cfg.channel_number))

  -- `supla_dev_on_set_device_config`: the reply is a local variable that nothing sets.
  unfoldable pub supla_dev_on_set_device_config : World → World
  supla_dev_on_set_device_config w = srpc_send env w (device_config_result (u8 (env.stack w.trace)))
