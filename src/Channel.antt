-- ===== src/Channel.antt =====
-- src/channel-priv.h and include/libsupla/channel.h: the state of a channel. A callback of the
-- configuration is a flag that says whether its pointer is set; what the callback does is the
-- environment's (Env). Types and flags are the bits of C's `int`s.
pub mod Create
pub mod Values
pub mod Access
pub mod Keeping
pub mod Register
pub mod Sync
mod Tests
use libsupla.Prelude.{ℕ, ◌%◌, Bool, Option, Bytes}
use libsupla.Prelude.Int.{ℤ}
use libsupla.Value.{SuplaValue}
use libsupla.ExtValue.{SuplaExtendedValue}
use libsupla.ActionTrigger.{SuplaActionTrigger}

-- `supla_push_notification_config_t`
pub record PushConfig : Type 0 where
  pub enabled : ℕ
  pub srv_managed_fields : ℕ

-- `supla_channel_config_t`. The union is its two words and its pointer: `supported_functions` is
-- also `action_trigger_caps`, and the low byte of `action_trigger_conflicts` is
-- `sync_values_onchange`. The pointer, to the user's pointer to a channel, is an address.
pub record ChannelConfig : Type 0 where
  pub type : ℕ
  pub supported_functions : ℕ
  pub action_trigger_conflicts : ℕ
  pub action_trigger_related_channel : Option ℕ
  pub default_function : ℤ
  pub flags : ℕ
  pub offline : ℕ
  pub value_validity_time : ℕ
  pub default_icon : ℕ
  pub subdevice_id : ℕ
  pub default_caption : Option Bytes
  pub push_notification : PushConfig
  pub on_channel_init : Bool
  pub on_set_value : Bool
  pub on_get_state : Bool
  pub on_calcfg_req : Bool
  pub on_config_set : Bool
  pub on_config_recv : Bool
  pub on_sched_recv : Bool
  pub user_data : ℕ

abbrev pub sync_values_onchange : ChannelConfig → ℕ
sync_values_onchange c = c.action_trigger_conflicts % 256

-- `struct supla_channel`. The queue link is the place in the device's list; the lock makes each
-- call one step, and `lock` says whether there is one: `lck` may be null, and then the calls on it do
-- nothing. `dev` is the address of the device, 0 for none.
pub record Channel : Type 0 where
  pub config : ChannelConfig
  pub lock : Bool
  pub dev : ℕ
  pub number : ℤ
  pub active_function : ℤ
  pub supla_val : Option SuplaValue
  pub supla_extval : Option SuplaExtendedValue
  pub action_trigger : Option SuplaActionTrigger
