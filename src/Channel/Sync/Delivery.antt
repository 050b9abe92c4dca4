-- ===== src/Channel/Sync/Delivery.antt =====
-- What `supla_channel_sync` sends, and when a sent part counts as delivered.
use libsupla.Prelude.{
  refl, Bytes, ◌≡◌, ◌≢◌, Option, none, some, List, [], ◌∷◌, ◌++◌, arith, ◌==◌, if◌then◌else◌,
}
use libsupla.Prelude.Int.{u8}
use libsupla.Value.{SuplaValue}
use libsupla.ExtValue.{SuplaExtendedValue}
use libsupla.ActionTrigger.{SuplaActionTrigger}
use libsupla.Channel.{Channel}
use libsupla.Wire.{Call, channel_value_changed, channel_extendedvalue_changed, action_trigger}
use libsupla.Env.{Env, Trace, called}
use libsupla.Channel.Sync.{supla_channel_sync}

-- The calls that a channel's parts wait for.
waiting_value : Channel → Option SuplaValue → List Call
waiting_value ch none = []
waiting_value ch (some sv) =
    if sv.sync == 0
    then channel_value_changed (u8 ch.number) sv.value ch.config.offline
        ch.config.value_validity_time
      ∷ []
    else []

waiting_extvalue : Channel → Option SuplaExtendedValue → List Call
waiting_extvalue ch none = []
waiting_extvalue ch (some sv) =
    if sv.sync == 0 then channel_extendedvalue_changed (u8 ch.number) sv.extval ∷ [] else []

waiting_trigger : Option SuplaActionTrigger → List Call
waiting_trigger none = []
waiting_trigger (some t) = if t.sync == 0 then action_trigger t.at ∷ [] else []

-- All of them, the value first, the action last.
unfoldable pub waiting : Channel → List Call
unfolding waiting_value waiting_extvalue waiting_trigger
waiting ch =
    waiting_value ch ch.supla_val
    ++ (waiting_extvalue ch ch.supla_extval ++ waiting_trigger ch.action_trigger)

-- The call that transmits a value of a channel.
abbrev pub value_call : Channel → Bytes → Call
value_call ch value =
    channel_value_changed (u8 ch.number) value ch.config.offline ch.config.value_validity_time

-- A value that waits is the first to be sent.
pub waiting-value :
    (ch : Channel) (sv : SuplaValue)
    → ch.supla_val ≡ some sv
    → sv.sync ≡ 0
    → (after : List Call) × (waiting ch ≡ value_call ch sv.value ∷ after)
unfolding waiting
waiting-value ch sv e z =
    (waiting_extvalue ch ch.supla_extval ++ waiting_trigger ch.action_trigger, rw (e, z) refl)

-- The trace after some calls.
unfoldable pub logged : List Call → Trace → Trace
logged [] tr = tr
logged (c ∷ cs) tr = logged cs (called c ∷ tr)

-- The library takes every call, with an id whose low byte is not 0.
abbrev pub Accepts : Env → Type 0
Accepts env = (tr : Trace) (c : Call) → u8 (env.call_result tr c) ≢ 0

module _ (env : Env) (ch : Channel) (tr : Trace) where
  -- A synchronisation makes exactly the calls that the parts wait for, in order. If the library takes
  -- every call, with an id whose low byte is not 0, nothing waits afterwards.
  pub supla_channel_sync_lem :
      ((supla_channel_sync env ch tr).1 ≡ logged (waiting ch) tr)
      × (Accepts env → waiting (supla_channel_sync env ch tr).0 ≡ [])
  unfolding supla_channel_sync waiting logged
  supla_channel_sync_lem = (ground arith, λ h. grind (arith, h))

-- A channel with a value alone, which waits: after a synchronisation the same call waits again if
-- the low byte of the call's result is 0, as for a refused call but also for every 256th id, and
-- nothing waits otherwise.
pub supla_channel_sync-again :
    (env : Env) (ch : Channel) (tr : Trace) (sv : SuplaValue)
    → ch.supla_val ≡ some sv
    → ch.supla_extval ≡ none
    → ch.action_trigger ≡ none
    → sv.sync ≡ 0
    → let c =
        channel_value_changed
          (u8 ch.number)
          sv.value
          ch.config.offline
          ch.config.value_validity_time in
      (waiting ch ≡ c ∷ [])
      × (u8 (env.call_result tr c) ≡ 0 → waiting (supla_channel_sync env ch tr).0 ≡ c ∷ [])
      × (u8 (env.call_result tr c) ≢ 0 → waiting (supla_channel_sync env ch tr).0 ≡ [])
unfolding supla_channel_sync waiting
supla_channel_sync-again env ch tr sv v e t z = (ground arith, λ h. ground arith, λ h. ground arith)
