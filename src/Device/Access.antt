-- ===== src/Device/Access.antt =====
-- The functions of src/device.c that create a device and read or set its fields.
pub mod Names
pub mod Fields
use Prim.Native.Nat.{bit_or}
use libsupla.Prelude.{
  ℕ, ◌-◌, Bool, true, false, Option, none, some, List, [], ◌∷◌, Bytes, ◌==◌, if◌then◌else◌,
  replicate, strncpy, memcmp_eq, not,
}
use libsupla.Prelude.Int.{ℤ, pos, eqb_ℤ}
use libsupla.Value.{result_true, result_false}
use libsupla.Channel.{PushConfig, Channel}
use libsupla.Channel.Create.{Block}
use libsupla.Env.{Env, Trace, DevState, config, idle, init, connected, registered, online}
use libsupla.Device.{Device, SuplaConfig, World, state_code, supla_dev_set_state}

-- SUPLA_DEVICE_NAME_MAXSIZE, SUPLA_SOFTVER_MAXSIZE, SUPLA_AUTHKEY_SIZE, SUPLA_GUID_SIZE
abbrev pub device_name_maxsize : ℕ
device_name_maxsize = 201

abbrev pub softver_maxsize : ℕ
softver_maxsize = 21

abbrev pub authkey_size : ℕ
authkey_size = 16

abbrev pub guid_size : ℕ
guid_size = 16

-- SUPLA_RESULTCODE_GUID_ERROR, SUPLA_RESULTCODE_AUTHKEY_ERROR
abbrev pub guid_error : ℕ
guid_error = 14

abbrev pub authkey_error : ℕ
authkey_error = 19

-- "SUPLA device" and "libsupla " with the version of include/libsupla/version.h
abbrev pub default_name : Bytes
default_name = 83 ∷ 85 ∷ 80 ∷ 76 ∷ 65 ∷ 32 ∷ 100 ∷ 101 ∷ 118 ∷ 105 ∷ 99 ∷ 101 ∷ []

-- the string that the caller gives, or else the default
or_default : Option Bytes → Bytes → Bytes
or_default none d = d
or_default (some s) d = s

-- The device that `supla_dev_create` fills in, at the address of the block that `calloc` cleared.
-- `now` is the clock, `default_soft_ver` the text "libsupla " with the version.
unfoldable pub new_device : ℕ → Option Bytes → Option Bytes → Bytes → ℤ → Device
unfolding or_default
new_device self dev_name soft_ver default_soft_ver now = record {
  self = self;
  name =
      strncpy (replicate device_name_maxsize 0) (or_default dev_name default_name)
        (device_name_maxsize - 1);
  soft_ver =
      strncpy (replicate softver_maxsize 0) (or_default soft_ver default_soft_ver)
        (softver_maxsize - 1);
  manufacturer_id = pos 0;
  product_id = pos 0;
  flags = 0;
  state = idle;
  supla_config = record {
    guid = replicate guid_size 0;
    auth_key = replicate authkey_size 0;
    email = replicate 256 0;
    server = replicate 65 0;
    port = pos 0;
    ssl = 0;
  };
  activity_timeout = pos 120;
  on_state_change = false;
  on_get_channel_state = false;
  on_server_time_sync = false;
  on_restart_from_server = false;
  push_notification = record { enabled = 0; srv_managed_fields = 0 };
  iterate_time_msec = 0;
  wait_iterate_msec = 0;
  init_time = now;
  register_time = pos 0;
  last_ping = pos 0;
  last_resp = pos 0;
  uptime = pos 0;
  connection_uptime = pos 0;
  connection_reset_cause = 0;
  channels = [];
}

-- `supla_dev_create`; the first argument is the block's address, or `none` if `calloc` fails.
unfoldable pub supla_dev_create : Option ℕ → Option Bytes → Option Bytes → Bytes → ℤ → Option Device
unfolding new_device
supla_dev_create none dev_name soft_ver default_soft_ver now = none
supla_dev_create (some self) dev_name soft_ver default_soft_ver now =
    some (new_device self dev_name soft_ver default_soft_ver now)

-- `supla_dev_set_name`
unfoldable pub supla_dev_set_name : Device → Bytes → Device × ℕ
supla_dev_set_name dev name =
    (record dev { name = strncpy dev.name name (device_name_maxsize - 1) }, result_true)

-- `supla_dev_get_name`, into the caller's buffer
unfoldable pub supla_dev_get_name : Device → Bytes → ℕ → Bytes × ℕ
supla_dev_get_name dev name len = (strncpy name dev.name len, result_true)

-- `supla_dev_get_software_version`
pub supla_dev_get_software_version : Device → Bytes → ℕ → Bytes × ℕ
supla_dev_get_software_version dev version len = (strncpy version dev.soft_ver len, result_true)

-- `supla_dev_get_state`
pub supla_dev_get_state : Device → DevState × ℕ
supla_dev_get_state dev = (dev.state, result_true)

-- `supla_dev_set_activity_timeout`: 0 stands for the default.
unfoldable pub supla_dev_set_activity_timeout : Device → ℤ → Device × ℕ
supla_dev_set_activity_timeout dev sec =
    (record dev { activity_timeout = if eqb_ℤ sec (pos 0) then pos 120 else sec }, result_true)

-- `supla_dev_get_activity_timeout`
pub supla_dev_get_activity_timeout : Device → ℤ × ℕ
supla_dev_get_activity_timeout dev = (dev.activity_timeout, result_true)

-- `supla_dev_set_flags`
pub supla_dev_set_flags : Device → ℕ → Device × ℕ
supla_dev_set_flags dev flags = (record dev { flags = flags }, result_true)

-- `supla_dev_get_flags`
pub supla_dev_get_flags : Device → ℕ × ℕ
supla_dev_get_flags dev = (dev.flags, result_true)

-- `supla_dev_set_manufacturer_data`
pub supla_dev_set_manufacturer_data : Device → ℤ → ℤ → Device × ℕ
supla_dev_set_manufacturer_data dev manufacturer product =
    (record dev { manufacturer_id = manufacturer; product_id = product }, result_true)

-- `supla_dev_get_manufacturer_data`
pub supla_dev_get_manufacturer_data : Device → (ℤ × ℤ) × ℕ
supla_dev_get_manufacturer_data dev = ((dev.manufacturer_id, dev.product_id), result_true)

-- `supla_dev_get_uptime`
pub supla_dev_get_uptime : Device → ℤ × ℕ
supla_dev_get_uptime dev = (dev.uptime, result_true)

-- `supla_dev_get_connection_uptime`
pub supla_dev_get_connection_uptime : Device → ℤ × ℕ
supla_dev_get_connection_uptime dev = (dev.connection_uptime, result_true)

-- `supla_dev_set_state_changed_callback`; a callback is whether the pointer is set.
unfoldable pub supla_dev_set_state_changed_callback : Device → Bool → Device × ℕ
supla_dev_set_state_changed_callback dev callback =
    (record dev { on_state_change = callback }, result_true)

-- `supla_dev_set_common_channel_state_callback`
pub supla_dev_set_common_channel_state_callback : Device → Bool → Device × ℕ
supla_dev_set_common_channel_state_callback dev callback =
    (record dev { on_get_channel_state = callback }, result_true)

-- `supla_dev_set_server_time_sync_callback`
pub supla_dev_set_server_time_sync_callback : Device → Bool → Device × ℕ
supla_dev_set_server_time_sync_callback dev callback =
    (record dev { on_server_time_sync = callback }, result_true)

-- `supla_dev_set_server_req_restart_callback`, with SUPLA_DEVICE_FLAG_CALCFG_RESTART_DEVICE
pub supla_dev_set_server_req_restart_callback : Device → Bool → Device × ℕ
supla_dev_set_server_req_restart_callback dev callback =
    (record dev { flags = bit_or dev.flags 0x0800; on_restart_from_server = callback }, result_true)

-- `supla_dev_set_config`
unfoldable pub supla_dev_set_config : Device → SuplaConfig → Device × ℕ
supla_dev_set_config dev c =
    if memcmp_eq c.auth_key (replicate authkey_size 0) authkey_size
    then (dev, authkey_error)
    else if memcmp_eq c.guid (replicate guid_size 0) guid_size
    then (dev, guid_error)
    else (record dev { supla_config = c }, result_true)

-- `supla_dev_get_config`
pub supla_dev_get_config : Device → SuplaConfig × ℕ
supla_dev_get_config dev = (dev.supla_config, result_true)

-- `supla_dev_enable_notifications`
pub supla_dev_enable_notifications : Device → ℕ → Device × ℕ
supla_dev_enable_notifications dev server_managed_fields = (
  record dev {
    push_notification = record { enabled = 1; srv_managed_fields = server_managed_fields };
  },
  result_true,
)

-- `supla_dev_disable_notifications`
pub supla_dev_disable_notifications : Device → Device × ℕ
supla_dev_disable_notifications dev =
    (record dev { push_notification = record dev.push_notification { enabled = 0 } }, result_true)

-- `supla_dev_start`
unfoldable pub supla_dev_start : World → World × ℕ
supla_dev_start w =
    if not (state_code w.dev.state == state_code idle)
    then (w, result_false)
    else (supla_dev_set_state w init, result_true)

-- `supla_dev_stop`
unfoldable pub supla_dev_stop : World → World × ℕ
supla_dev_stop w = (supla_dev_set_state w idle, result_true)

-- `supla_dev_enter_config_mode`
unfoldable pub supla_dev_enter_config_mode : World → World × ℕ
supla_dev_enter_config_mode w = (supla_dev_set_state w config, result_true)

-- `supla_dev_exit_config_mode`
unfoldable pub supla_dev_exit_config_mode : World → World × ℕ
supla_dev_exit_config_mode w =
    if not (state_code w.dev.state == state_code config)
    then (w, result_false)
    else (supla_dev_set_state w idle, result_true)

-- `supla_dev_state_str`
pub supla_dev_state_str : DevState → Bytes
supla_dev_state_str config = 67 ∷ 79 ∷ 78 ∷ 70 ∷ 73 ∷ 71 ∷ []
supla_dev_state_str idle = 73 ∷ 68 ∷ 76 ∷ 69 ∷ []
supla_dev_state_str init = 73 ∷ 78 ∷ 73 ∷ 84 ∷ []
supla_dev_state_str connected = 67 ∷ 79 ∷ 78 ∷ 78 ∷ 69 ∷ 67 ∷ 84 ∷ 69 ∷ 68 ∷ []
supla_dev_state_str registered = 82 ∷ 69 ∷ 71 ∷ 73 ∷ 83 ∷ 84 ∷ 69 ∷ 82 ∷ 69 ∷ 68 ∷ []
supla_dev_state_str online = 79 ∷ 78 ∷ 76 ∷ 73 ∷ 78 ∷ 69 ∷ []
