-- ===== src/Channel/Sync/Keeping.antt =====
-- `supla_channel_sync` of src/channel.c writes only the flags of a channel.
use libsupla.Prelude.{◌≡◌, refl, Option, none, some, Bool-cases, inl, inr, ◌==◌, subst}
use libsupla.Value.{SuplaValue}
use libsupla.ExtValue.{SuplaExtendedValue}
use libsupla.ActionTrigger.{SuplaActionTrigger}
use libsupla.Channel.{Channel}
use libsupla.Channel.Create.Blocks.{Sized}
use libsupla.Channel.Keeping.{Keeps, Keeps-refl, Keeps-trans}
use libsupla.Channel.Sync.{sync_value, sync_extvalue, sync_trigger, supla_channel_sync}
use libsupla.Env.{Env, Trace}

module _ (env : Env) where
  sync_value-Keeps :
      (c : Channel) (v : Option SuplaValue) (tr : Trace)
      → c.supla_val ≡ v
      → Keeps c (sync_value env c v tr).0
  unfolding sync_value
  sync_value-Keeps c none tr e = Keeps-refl c
  sync_value-Keeps c (some sv) tr e = elim (Bool-cases (sv.sync == 0)) [
    | inr b ↦ simp b (Keeps-refl c)
    | inl b ↦ simp b (record {
      number = refl;
      type = refl;
      formed = λ h. record {
        value = cc;
        extvalue = h.extvalue;
        at = h.at;
        sized = subst Sized e h.sized;
      };
    })
  ]

  sync_extvalue-Keeps :
      (c : Channel) (v : Option SuplaExtendedValue) (tr : Trace)
      → c.supla_extval ≡ v
      → Keeps c (sync_extvalue env c v tr).0
  unfolding sync_extvalue
  sync_extvalue-Keeps c none tr e = Keeps-refl c
  sync_extvalue-Keeps c (some sv) tr e = elim (Bool-cases (sv.sync == 0)) [
    | inr b ↦ simp b (Keeps-refl c)
    | inl b ↦ simp b (record {
      number = refl;
      type = refl;
      formed = λ h. record { value = h.value; extvalue = cc; at = h.at; sized = h.sized };
    })
  ]

  sync_trigger-Keeps :
      (c : Channel) (v : Option SuplaActionTrigger) (tr : Trace)
      → c.action_trigger ≡ v
      → Keeps c (sync_trigger env c v tr).0
  unfolding sync_trigger
  sync_trigger-Keeps c none tr e = Keeps-refl c
  sync_trigger-Keeps c (some t) tr e = elim (Bool-cases (t.sync == 0)) [
    | inr b ↦ simp b (Keeps-refl c)
    | inl b ↦ simp b (record {
      number = refl;
      type = refl;
      formed = λ h. record { value = h.value; extvalue = h.extvalue; at = cc; sized = h.sized };
    })
  ]

  pub supla_channel_sync-Keeps :
      (c : Channel) (tr : Trace) → Keeps c (supla_channel_sync env c tr).0
  unfolding supla_channel_sync
  supla_channel_sync-Keeps c tr =
      let (c1, tr1) = sync_value env c c.supla_val tr in
      let (c2, tr2) = sync_extvalue env c1 c1.supla_extval tr1 in
      Keeps-trans c c1 _ (sync_value-Keeps c c.supla_val tr refl) (
        Keeps-trans c1 c2 _ (sync_extvalue-Keeps c1 c1.supla_extval tr1 refl)
          (sync_trigger-Keeps c2 c2.action_trigger tr2 refl))
