-- ===== src/Channel/Values.antt =====
-- The functions of src/channel.c that set values, extended values and actions. A struct or a
-- number that is passed by pointer is its bytes in memory, so `sizeof` is their count. Floating
-- point stays outside: a double comes with its bytes, and with the 32-bit integer that a thousand
-- times it converts to.
pub mod Kept
pub mod Updates
use libsupla.Prelude.{ℕ, Option, some, Bytes, length, memcpy, ◌==◌, if◌then◌else◌, [], ◌∷◌, ◌++◌}
use libsupla.Prelude.Int.{ℤ}
use libsupla.Value.{supla_val_set}
use libsupla.ExtValue.{ChannelExtendedValue, supla_extval_set}
use libsupla.ActionTrigger.{supla_action_trigger_emit}
use libsupla.Channel.{Channel}
use libsupla.Channel.Create.{
  type_relay, type_electricity_meter, type_impulse_counter, type_thermostat, type_actiontrigger,
}

-- SUPLA_RESULTCODE_CHANNEL_CONFLICT
abbrev pub channel_conflict : ℕ
channel_conflict = 7

-- `supla_channel_set_value`
unfoldable pub supla_channel_set_value : Channel → Bytes → ℕ → Channel × ℕ
supla_channel_set_value ch value len =
    let (v, rc) = supla_val_set ch.supla_val value len in (record ch { supla_val = v }, rc)

-- `supla_channel_set_binary_value`
pub supla_channel_set_binary_value : Channel → ℕ → Channel × ℕ
supla_channel_set_binary_value ch value = supla_channel_set_value ch (value ∷ []) 1

module _ {Double : Type 0} (double_bytes milli_bytes : Double → Bytes) where
  -- `supla_channel_set_double_value`
  pub supla_channel_set_double_value : Channel → Double → Channel × ℕ
  supla_channel_set_double_value ch value = supla_channel_set_value ch (double_bytes value) 8

  -- `supla_channel_set_humidtemp_value`: the temperature's four bytes stand first.
  pub supla_channel_set_humidtemp_value : Channel → Double → Double → Channel × ℕ
  supla_channel_set_humidtemp_value ch humid temp =
      supla_channel_set_value ch (milli_bytes temp ++ milli_bytes humid) 8

-- `supla_channel_set_relay_value`
pub supla_channel_set_relay_value : Channel → Bytes → Channel × ℕ
supla_channel_set_relay_value ch relay = supla_channel_set_value ch relay (length relay)

-- `supla_channel_set_rgbw_value`
pub supla_channel_set_rgbw_value : Channel → Bytes → Channel × ℕ
supla_channel_set_rgbw_value ch rgbw = supla_channel_set_value ch rgbw (length rgbw)

-- The guard on the type that the next functions begin with.
abbrev for_type : ℕ → Channel → Channel × ℕ → Channel × ℕ
for_type type ch go = if ch.config.type == type then go else (ch, channel_conflict)

-- `supla_channel_set_impulse_counter_value`
pub supla_channel_set_impulse_counter_value : Channel → Bytes → Channel × ℕ
supla_channel_set_impulse_counter_value ch ic =
    for_type type_impulse_counter ch (supla_channel_set_value ch ic (length ic))

-- `supla_channel_set_roller_shutter_value`
pub supla_channel_set_roller_shutter_value : Channel → Bytes → Channel × ℕ
supla_channel_set_roller_shutter_value ch rs =
    for_type type_relay ch (supla_channel_set_value ch rs (length rs))

-- `supla_channel_set_facadeblind_value`
pub supla_channel_set_facadeblind_value : Channel → Bytes → Channel × ℕ
supla_channel_set_facadeblind_value ch fb =
    for_type type_relay ch (supla_channel_set_value ch fb (length fb))

-- `supla_channel_set_electricity_meter_value`
pub supla_channel_set_electricity_meter_value : Channel → Bytes → Channel × ℕ
supla_channel_set_electricity_meter_value ch em =
    for_type type_electricity_meter ch (supla_channel_set_value ch em (length em))

-- `supla_channel_set_thermostat_value`
pub supla_channel_set_thermostat_value : Channel → Bytes → Channel × ℕ
supla_channel_set_thermostat_value ch th =
    for_type type_thermostat ch (supla_channel_set_value ch th (length th))

-- `supla_channel_set_extval`
unfoldable pub supla_channel_set_extval : Channel → Option ChannelExtendedValue → Channel × ℕ
supla_channel_set_extval ch extval =
    let (v, rc) = supla_extval_set ch.supla_extval extval in (record ch { supla_extval = v }, rc)

-- EV_TYPE_TIMER_STATE_V1
abbrev ev_type_timer_state_v1 : ℕ
ev_type_timer_state_v1 = 50

-- `supla_channel_set_timer_state_extvalue`: `stack` is what the local variable's array holds.
pub supla_channel_set_timer_state_extvalue : Bytes → Channel → Bytes → Channel × ℕ
supla_channel_set_timer_state_extvalue stack ch tsev = for_type type_relay ch (
    supla_channel_set_extval ch (
      some (record {
        type = ev_type_timer_state_v1;
        size = length tsev;
        value = memcpy stack tsev (length tsev);
      })))

-- The conversions of the protocol library into an extended value are parameters.
module _ {A : Type 0} (to_extended : A → ChannelExtendedValue) where
  -- `supla_channel_set_electricity_meter_extvalue`
  pub supla_channel_set_electricity_meter_extvalue : Channel → A → Channel × ℕ
  supla_channel_set_electricity_meter_extvalue ch emev =
      for_type type_electricity_meter ch (supla_channel_set_extval ch (some (to_extended emev)))

  -- `supla_channel_set_thermostat_extvalue`
  pub supla_channel_set_thermostat_extvalue : Channel → A → Channel × ℕ
  supla_channel_set_thermostat_extvalue ch thev =
      for_type type_thermostat ch (supla_channel_set_extval ch (some (to_extended thev)))

-- `supla_channel_emit_action`
unfoldable pub supla_channel_emit_action : Channel → ℤ → Channel × ℕ
supla_channel_emit_action ch action = for_type type_actiontrigger ch (
    let (t, rc) = supla_action_trigger_emit ch.action_trigger ch.number action in
    (record ch { action_trigger = t }, rc))
