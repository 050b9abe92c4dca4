-- ===== src/Wire.antt =====
-- The structs and calls of the protocol library that src/device.c and src/channel.c exchange with
-- it, with the fields that they use. The library itself (src/supla-common) is not modelled.
use libsupla.Prelude.{ℕ, Bytes, List}
use libsupla.Prelude.Int.{ℤ}
use libsupla.ExtValue.{ChannelExtendedValue}
use libsupla.ActionTrigger.{DsActionTrigger}
use libsupla.Channel.Register.{DeviceChannel}

-- `TSD_SuplaRegisterDeviceResult_B`
pub record RegisterResult : Type 0 where
  pub result_code : ℕ
  pub activity_timeout : ℕ
  pub version : ℕ
  pub version_min : ℕ

-- `TSD_SuplaChannelNewValue`
pub record NewValue : Type 0 where
  pub sender_id : ℤ
  pub channel_number : ℕ
  pub duration_ms : ℕ
  pub value : Bytes

-- `TSD_SuplaChannelGroupNewValue`
pub record GroupNewValue : Type 0 where
  pub sender_id : ℤ
  pub group_id : ℤ
  pub channel_number : ℕ
  pub duration_ms : ℕ
  pub value : Bytes

-- `TCSD_ChannelStateRequest`
pub record StateRequest : Type 0 where
  pub sender_id : ℤ
  pub channel_number : ℕ

-- `TDSC_ChannelState`; `others` are the fields that only callbacks write.
pub record ChannelState : Type 0 where
  pub receiver_id : ℤ
  pub channel_number : ℕ
  pub fields : ℕ
  pub uptime : ℕ
  pub connection_uptime : ℕ
  pub last_connection_reset_cause : ℕ
  pub others : Bytes

-- `TSD_DeviceCalCfgRequest`
pub record CalcfgRequest : Type 0 where
  pub sender_id : ℤ
  pub channel_number : ℤ
  pub command : ℤ
  pub super_user_authorized : ℕ
  pub payload : Bytes

-- `TDS_DeviceCalCfgResult`; `payload` is the array `Data`, of which `data_size` bytes are to be sent.
pub record CalcfgResult : Type 0 where
  pub receiver_id : ℤ
  pub channel_number : ℤ
  pub command : ℤ
  pub result : ℤ
  pub data_size : ℕ
  pub payload : Bytes

-- `TSD_ChannelConfig`, which is also `TSDS_SetChannelConfig`
pub record WireConfig : Type 0 where
  pub channel_number : ℕ
  pub func : ℤ
  pub config_type : ℕ
  pub config : Bytes

-- `TSDC_UserLocalTimeResult`
pub record LocalTime : Type 0 where
  pub year : ℕ
  pub month : ℕ
  pub day : ℕ
  pub hour : ℕ
  pub min : ℕ
  pub sec : ℕ

-- `TDS_SuplaRegisterDeviceHeader`
pub record RegisterHeader : Type 0 where
  pub email : Bytes
  pub auth_key : Bytes
  pub guid : Bytes
  pub name : Bytes
  pub soft_ver : Bytes
  pub server_name : Bytes
  pub flags : ℕ
  pub manufacturer_id : ℤ
  pub product_id : ℤ
  pub channel_count : ℕ

-- `TDS_PushNotification`
pub record PushNotification : Type 0 where
  pub context : ℤ
  pub sound_id : ℤ
  pub title_size : ℕ
  pub body_size : ℕ
  pub title_and_body : Bytes

-- A message that `srpc_getdata` hands over, by its call id.
pub data Message : Type 0 where
  getversion_result version_error ping_server_result : Message
  register_device_result : RegisterResult → Message
  channel_set_value : NewValue → Message
  channelgroup_set_value : GroupNewValue → Message
  set_activity_timeout_result : ℕ → Message
  firmware_update_url_result registration_enabled_result : Message
  user_localtime_result : LocalTime → Message
  calcfg_request : CalcfgRequest → Message
  get_channel_state : StateRequest → Message
  channel_functions_result : List ℤ → Message
  set_channel_config : WireConfig → Message
  get_channel_config_result : WireConfig → Message
  set_channel_config_result channel_config_finished : Message
  set_device_config set_device_config_result set_channel_caption_result : Message
  unknown_call : Message

-- A call of an `srpc_…_async_…` function with what it is given.
pub data Call : Type 0 where
  set_activity_timeout : ℕ → Call
  set_channel_result : ℕ → ℤ → ℕ → Call
  channel_state_result : ChannelState → Call
  calcfg_result : CalcfgResult → Call
  device_config_result : ℕ → Call
  ping_server : Call
  send_push_notification : PushNotification → Call
  register_device : RegisterHeader → List DeviceChannel → Call
  get_user_localtime : Call
  set_channel_caption : ℕ → Bytes → ℕ → Call
  get_channel_functions : Call
  get_channel_config : ℕ → ℕ → Call
  push_channel_config : WireConfig → Call
  register_push_notification : ℤ → ℕ → Call
  channel_value_changed : ℕ → Bytes → ℕ → ℕ → Call
  channel_extendedvalue_changed : ℕ → ChannelExtendedValue → Call
  action_trigger : DsActionTrigger → Call
