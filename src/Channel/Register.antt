-- ===== src/Channel/Register.antt =====
-- `supla_channel_to_register_struct` of src/channel.c: what the server is told of a channel.
pub mod Faults
pub mod Reported
pub mod Keeping
use libsupla.Prelude.{ℕ, suc, Bool, Option, none, some, Bytes, ◌==◌, ltb, ◌+◌, if◌then◌else◌}
use libsupla.Prelude.Int.{ℤ, pos, u8, ◌+ℤ◌}
use libsupla.Value.{SuplaValue}
use libsupla.ActionTrigger.{ActionTriggerProperties, SuplaActionTrigger}
use libsupla.Channel.{Channel}
use libsupla.Channel.Create.{type_actiontrigger}
use libsupla.Channel.Access.{supla_channel_get_assigned_number}

-- The two unions of the struct: functions and value, or the trigger's capabilities and properties.
pub data RegisterBody : Type 0 where
  values : ℕ → Bytes → RegisterBody
  triggers : ℕ → ActionTriggerProperties → RegisterBody

-- `TDS_SuplaDeviceChannel_E`
pub record DeviceChannel : Type 0 where
  pub number : ℕ
  pub type : ℕ
  pub default_function : ℤ
  pub flags : ℕ
  pub offline : ℕ
  pub value_validity_time : ℕ
  pub default_icon : ℕ
  pub subdevice_id : ℕ
  pub body : RegisterBody

module _ (holds : ℕ → Option Channel) where
  -- The number that the server is told of the related channel, in a byte; `holds` gives the channel
  -- that the user's pointer variable at an address points to, if it is not null. It is the same
  -- throughout a run, with the number that it has in `holds`: it is not looked up in the device's list.
  relate : Option ℕ → ActionTriggerProperties → ActionTriggerProperties
  relate none p = p
  relate (some address) p = record p {
    related_channel_number = u8 (supla_channel_get_assigned_number (holds address) +ℤ pos 1);
  }

  -- The branch of an action trigger. `none` is a read through a null pointer.
  trigger_body : Channel → Option SuplaActionTrigger → Option (RegisterBody × Channel)
  unfolding relate
  trigger_body ch none = none
  trigger_body ch (some t) =
      let p = relate ch.config.action_trigger_related_channel t.properties in
      some (
        triggers ch.config.supported_functions p,
        record ch { action_trigger = some (record t { properties = p }) },
      )

  -- The branch of any other channel.
  value_body : Channel → Option SuplaValue → Option (RegisterBody × Channel)
  value_body ch none = none
  value_body ch (some sv) = some (values ch.config.supported_functions sv.value, ch)

  -- An `int` of 32 bits as 64 bits: the sign bit is copied upwards.
  widened : ℕ → ℕ
  widened flags = if ltb flags 2147483648 then flags else flags + 18446744069414584320

  -- The struct around the two unions; its `Flags` have 64 bits, those of the channel 32.
  with_head : Channel → RegisterBody × Channel → DeviceChannel × Channel
  unfolding widened
  with_head ch (body, ch') = (
    record {
      number = u8 ch.number;
      type = ch.config.type;
      default_function = ch.config.default_function;
      flags = widened ch.config.flags;
      offline = ch.config.offline;
      value_validity_time = ch.config.value_validity_time;
      default_icon = ch.config.default_icon;
      subdevice_id = ch.config.subdevice_id;
      body = body;
    },
    ch',
  )

  map_head : Channel → Option (RegisterBody × Channel) → Option (DeviceChannel × Channel)
  unfolding with_head
  map_head ch none = none
  map_head ch (some b) = some (with_head ch b)

  -- `supla_channel_to_register_struct`: the struct and the channel after the call, or a fault.
  unfoldable pub supla_channel_to_register_struct : Channel → Option (DeviceChannel × Channel)
  unfolding trigger_body value_body map_head
  supla_channel_to_register_struct ch = map_head ch (
      if ch.config.type == type_actiontrigger
      then trigger_body ch ch.action_trigger
      else value_body ch ch.supla_val)
