-- ===== src/Channel/Sync/Actions.antt =====
-- Actions that a program emits on a trigger of src/channel.c between two synchronisations.
use libsupla.Prelude.{ℕ, ◌≡◌, ◌≢◌, ◌∙◌, ap, none, List, [], ◌∷◌, ◌++◌, arith, is_some, All, true}
use libsupla.Prelude.Int.{ℤ, pos, u8, eqb_ℤ_iff}
use libsupla.Value.{result_true}
use libsupla.ActionTrigger.{supla_action_trigger_emit}
use libsupla.Channel.{Channel}
use libsupla.Channel.Create.{type_actiontrigger}
use libsupla.Channel.Values.{supla_channel_emit_action}
use libsupla.Channel.Sync.{supla_channel_sync}
use libsupla.Channel.Sync.Delivery.{waiting, logged, supla_channel_sync_lem}
use libsupla.Wire.{action_trigger}
use libsupla.Env.{Env, Trace, called}

-- The program emits one action after the other.
pub emit_all : Channel → List ℤ → Channel
emit_all ch [] = ch
emit_all ch (a ∷ more) = emit_all (supla_channel_emit_action ch a).0 more

-- An action trigger as `supla_channel_create` makes it: no value, and a trigger.
pub record IsTrigger (ch : Channel) : Type 0 where
  pub type : ch.config.type ≡ type_actiontrigger
  pub value : ch.supla_val ≡ none
  pub extvalue : ch.supla_extval ≡ none
  pub at : is_some ch.action_trigger ≡ true

module _ (ch : Channel) (a : ℤ) (i : IsTrigger ch) where
  emit-IsTrigger : IsTrigger (supla_channel_emit_action ch a).0
  unfolding supla_channel_emit_action supla_action_trigger_emit
  emit-IsTrigger = record {
    type = ground arith;
    value = ground arith;
    extvalue = ground arith;
    at = ground arith;
  }

  emit-number : (supla_channel_emit_action ch a).0.number ≡ ch.number
  unfolding supla_channel_emit_action
  emit-number = ground arith

  emit-result : a ≢ pos 0 → (supla_channel_emit_action ch a).1 ≡ result_true
  unfolding supla_channel_emit_action supla_action_trigger_emit
  emit-result ne = ground (arith, eqb_ℤ_iff a (pos 0))

  emit-waiting :
      a ≢ pos 0
      → waiting (supla_channel_emit_action ch a).0
        ≡ action_trigger (record { channel_number = u8 ch.number; action_trigger = a }) ∷ []
  unfolding supla_channel_emit_action supla_action_trigger_emit waiting
  emit-waiting ne = ground (arith, eqb_ℤ_iff a (pos 0))

-- what the calls return
pub emit_results : Channel → List ℤ → List ℕ
emit_results ch [] = []
emit_results ch (a ∷ more) =
    (supla_channel_emit_action ch a).1 ∷ emit_results (supla_channel_emit_action ch a).0 more

waiting-emit_all :
    (ch : Channel) (actions : List ℤ) (last : ℤ)
    → IsTrigger ch
    → last ≢ pos 0
    → waiting (emit_all ch (actions ++ (last ∷ [])))
      ≡ action_trigger (record { channel_number = u8 ch.number; action_trigger = last }) ∷ []
unfolding emit_all
waiting-emit_all ch [] last i ne = emit-waiting ch last i ne
waiting-emit_all ch (a ∷ more) last i ne =
    waiting-emit_all (supla_channel_emit_action ch a).0 more last (emit-IsTrigger ch a i) ne
    ∙ ap (λ n. action_trigger (record { channel_number = u8 n; action_trigger = last }) ∷ [])
        (emit-number ch a i)

emit_results-taken :
    (ch : Channel) (actions : List ℤ)
    → IsTrigger ch
    → All (λ a. a ≢ pos 0) actions
    → All (λ rc. rc ≡ result_true) (emit_results ch actions)
unfolding emit_results
emit_results-taken ch [] i all = tt
emit_results-taken ch (a ∷ more) i all = (
  emit-result ch a i all.0,
  emit_results-taken (supla_channel_emit_action ch a).0 more (emit-IsTrigger ch a i) all.1,
)

-- Of the actions, none of them 0, that a program emits on an action trigger between two
-- synchronisations the second sends only the last, although the call for each of the others succeeds.
pub emit_all-last :
    (env : Env) (tr : Trace) (ch : Channel) (actions : List ℤ) (last : ℤ)
    → IsTrigger ch
    → All (λ a. a ≢ pos 0) actions
    → last ≢ pos 0
    → All (λ rc. rc ≡ result_true) (emit_results ch actions)
      × ((supla_channel_sync env (emit_all ch (actions ++ (last ∷ []))) tr).1
          ≡ called
              (action_trigger (record { channel_number = u8 ch.number; action_trigger = last }))
            ∷ tr)
unfolding logged
emit_all-last env tr ch actions last i all ne = (
  emit_results-taken ch actions i all,
  (supla_channel_sync_lem env (emit_all ch (actions ++ (last ∷ []))) tr).0
      ∙ ap (λ cs. logged cs tr) (waiting-emit_all ch actions last i ne),
)
