-- ===== src/Device/Handlers/Messages.antt =====
-- `supla_dev_on_remote_call_received` of src/device.c: what is done with a call from the server.
use libsupla.Prelude.{Option, none, some}
use libsupla.Wire.{
  WireConfig, Message, getversion_result, version_error, ping_server_result, register_device_result,
  channel_set_value, channelgroup_set_value, set_activity_timeout_result,
  firmware_update_url_result, registration_enabled_result, user_localtime_result, calcfg_request,
  get_channel_state, channel_functions_result, set_channel_config, get_channel_config_result,
  set_channel_config_result, channel_config_finished, set_device_config, set_device_config_result,
  set_channel_caption_result, unknown_call,
}
use libsupla.Env.{Env}
use libsupla.Device.{World}
use libsupla.Device.Handlers.{
  supla_connection_on_register_result, supla_dev_on_set_channel_value,
  supla_dev_on_set_channel_group_value, supla_dev_get_channel_state,
  supla_dev_on_set_activity_timeout_result, supla_dev_on_get_user_localtime_result,
  supla_dev_on_calcfg_request, supla_dev_on_get_channel_functions_result,
  supla_dev_on_srv_set_channel_config, supla_dev_on_set_device_config,
}

-- The handlers that do nothing but write to the log.
-- `supla_connection_on_version_error`
abbrev supla_connection_on_version_error : World → World
supla_connection_on_version_error w = w

-- `supla_dev_on_get_channel_config_result`
abbrev supla_dev_on_get_channel_config_result : World → WireConfig → World
supla_dev_on_get_channel_config_result w ch_cfg = w

-- `supla_dev_on_set_channel_config_result`
abbrev supla_dev_on_set_channel_config_result : World → World
supla_dev_on_set_channel_config_result w = w

-- `supla_dev_on_channel_config_finished`
abbrev supla_dev_on_channel_config_finished : World → World
supla_dev_on_channel_config_finished w = w

-- `supla_dev_on_set_device_config_result`
abbrev supla_dev_on_set_device_config_result : World → World
supla_dev_on_set_device_config_result w = w

-- `supla_dev_on_set_channel_caption_result`
abbrev supla_dev_on_set_channel_caption_result : World → World
supla_dev_on_set_channel_caption_result w = w

module _ (env : Env) where
  -- the switch on the call's id; the calls that are only logged leave all as it is
  unfoldable pub dispatch : World → Message → World
  dispatch w getversion_result = w
  dispatch w version_error = supla_connection_on_version_error w
  dispatch w ping_server_result = w
  dispatch w (register_device_result r) = supla_connection_on_register_result env w r
  dispatch w (channel_set_value v) = supla_dev_on_set_channel_value env w v
  dispatch w (channelgroup_set_value v) = supla_dev_on_set_channel_group_value env w v
  dispatch w (set_activity_timeout_result t) = supla_dev_on_set_activity_timeout_result env w t
  dispatch w firmware_update_url_result = w
  dispatch w registration_enabled_result = w
  dispatch w (user_localtime_result lt) = supla_dev_on_get_user_localtime_result env w lt
  dispatch w (calcfg_request r) = supla_dev_on_calcfg_request env w r
  dispatch w (get_channel_state r) = supla_dev_get_channel_state env w r
  dispatch w (channel_functions_result fs) = supla_dev_on_get_channel_functions_result env w fs
  dispatch w (set_channel_config c) = supla_dev_on_srv_set_channel_config env w c
  dispatch w (get_channel_config_result c) = supla_dev_on_get_channel_config_result w c
  dispatch w set_channel_config_result = supla_dev_on_set_channel_config_result w
  dispatch w channel_config_finished = supla_dev_on_channel_config_finished w
  dispatch w set_device_config = supla_dev_on_set_device_config env w
  dispatch w set_device_config_result = supla_dev_on_set_device_config_result w
  dispatch w set_channel_caption_result = supla_dev_on_set_channel_caption_result w
  dispatch w unknown_call = w

  -- `supla_dev_on_remote_call_received`; `none` is a call that `srpc_getdata` cannot decode.
  unfoldable pub supla_dev_on_remote_call_received : World → Option Message → World
  supla_dev_on_remote_call_received w none = w
  supla_dev_on_remote_call_received w (some m) =
      dispatch (record w { dev = record w.dev { last_resp = env.now w.trace } }) m
