-- ===== src/Channel/Sync.antt =====
-- `supla_channel_sync` of src/channel.c: what of a channel waits is handed to the protocol library.
-- The flag is a `char` that takes the call's result, the request's id.
pub mod Delivery
pub mod Keeping
pub mod View
pub mod Actions
use libsupla.Prelude.{ℕ, Option, none, some, ◌∷◌, ◌==◌, if◌then◌else◌}
use libsupla.Prelude.Int.{ℤ, u8}
use libsupla.Value.{SuplaValue}
use libsupla.ExtValue.{SuplaExtendedValue}
use libsupla.ActionTrigger.{SuplaActionTrigger}
use libsupla.Channel.{Channel}
use libsupla.Wire.{Call, channel_value_changed, channel_extendedvalue_changed, action_trigger}
use libsupla.Env.{Env, Trace, Event, called}

module _ (env : Env) where
  -- the first `if`
  sync_value : Channel → Option SuplaValue → Trace → Channel × Trace
  sync_value ch none tr = (ch, tr)
  sync_value ch (some sv) tr =
      if sv.sync == 0
      then (let c =
            channel_value_changed (u8 ch.number) sv.value ch.config.offline
              ch.config.value_validity_time in
          (
            record ch { supla_val = some (record sv { sync = u8 (env.call_result tr c) }) },
            called c ∷ tr,
          ))
      else (ch, tr)

  -- the second
  sync_extvalue : Channel → Option SuplaExtendedValue → Trace → Channel × Trace
  sync_extvalue ch none tr = (ch, tr)
  sync_extvalue ch (some sv) tr =
      if sv.sync == 0
      then (let c = channel_extendedvalue_changed (u8 ch.number) sv.extval in
          (
            record ch { supla_extval = some (record sv { sync = u8 (env.call_result tr c) }) },
            called c ∷ tr,
          ))
      else (ch, tr)

  -- the third
  sync_trigger : Channel → Option SuplaActionTrigger → Trace → Channel × Trace
  sync_trigger ch none tr = (ch, tr)
  sync_trigger ch (some t) tr =
      if t.sync == 0
      then (let c = action_trigger t.at in
          (
            record ch { action_trigger = some (record t { sync = u8 (env.call_result tr c) }) },
            called c ∷ tr,
          ))
      else (ch, tr)

  -- `supla_channel_sync`
  unfoldable pub supla_channel_sync : Channel → Trace → Channel × Trace
  unfolding sync_value sync_extvalue sync_trigger
  supla_channel_sync ch tr =
      let (ch1, tr1) = sync_value ch ch.supla_val tr in
      let (ch2, tr2) = sync_extvalue ch1 ch1.supla_extval tr1 in
      sync_trigger ch2 ch2.action_trigger tr2
