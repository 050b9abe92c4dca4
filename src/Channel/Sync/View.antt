-- ===== src/Channel/Sync/View.antt =====
-- What the server knows of a channel's value, while the calls of src/channel.c on the channel come in
-- any order: those that set its data, from any thread, and the synchronisations of the device's
-- rounds. The channel's lock makes each call one step.
use libsupla.Prelude.{
  ℕ, ◌≡◌, ◌⊎◌, ◌∙◌, refl, sym, ap, subst, Option, none, some, [], ◌∷◌, arith, ◌==◌, if◌then◌else◌,
  Bytes, Bool-cases, inl, inr,
}
use libsupla.Prelude.Int.{pos, u8, eqb_ℤ, eqb_ℤ_iff}
use libsupla.Value.{SuplaValue}
use libsupla.ExtValue.{SuplaExtendedValue}
use libsupla.ActionTrigger.{SuplaActionTrigger}
use libsupla.Channel.{Channel}
use libsupla.Channel.Register.{DeviceChannel, values, supla_channel_to_register_struct}
use libsupla.Channel.Register.Reported.{to_register-value}
use libsupla.Channel.Sync.{sync_value, sync_extvalue, sync_trigger, supla_channel_sync}
use libsupla.Channel.Values.Kept.{Change}
use libsupla.Channel.Values.Updates.{WaitsOrSame, Change-Updates}
use libsupla.Wire.{Call, channel_value_changed}
use libsupla.Env.{
  Env, Trace, Event, called, state_changed, disconnected, connecting, input_polled, clock_read,
  output_flushed, restart_requested, time_offered, channel_called_back,
}

-- The value of a channel with a number that a call carries, or else an earlier one.
abbrev carried : ℕ → Call → Bytes → Bytes
carried n (channel_value_changed k value offline validity) old = if k == n then value else old
carried n _ old = old

module _ (env : Env) where
  -- The value of a channel that the server had last: that of its registration, or that of the latest
  -- call that the library took, whose result is not 0.
  pub server_value : ℕ → Bytes → Trace → Bytes
  server_value n registered [] = registered
  server_value n registered (called c ∷ tr) =
      let old = server_value n registered tr in
      if eqb_ℤ (env.call_result tr c) (pos 0) then old else carried n c old
  server_value n registered (_ ∷ tr) = server_value n registered tr

  -- The value waits to be sent, or the server had it last.
  IsCurrent : ℕ → Bytes → Trace → Option SuplaValue → Type 0
  IsCurrent n r tr none = Unit {0}
  IsCurrent n r tr (some sv) = (sv.sync ≡ 0) ⊎ (server_value n r tr ≡ sv.value)

  server_value-called :
      (n : ℕ) (r : Bytes) (tr : Trace) (c : Call)
      → ((old : Bytes) → carried n c old ≡ old)
      → server_value n r (called c ∷ tr) ≡ server_value n r tr
  unfolding server_value
  server_value-called n r tr c h = elim (Bool-cases (eqb_ℤ (env.call_result tr c) (pos 0))) [
    | inl b ↦ simp b refl
    | inr b ↦ simp b (h (server_value n r tr))
  ]

  -- A call that carries no value of the channel
  IsCurrent-called :
      (n : ℕ) (r : Bytes) (tr : Trace) (c : Call) (v : Option SuplaValue)
      → ((old : Bytes) → carried n c old ≡ old)
      → IsCurrent n r tr v
      → IsCurrent n r (called c ∷ tr) v
  unfolding IsCurrent
  IsCurrent-called n r tr c none h x = tt
  IsCurrent-called n r tr c (some sv) h x = ground (arith, server_value-called n r tr c h)

  -- The call that carries it, with its result as the flag
  IsCurrent-sent :
      (r : Bytes) (n offline validity : ℕ) (sv : SuplaValue) (tr : Trace)
      → let c = channel_value_changed n sv.value offline validity in
        IsCurrent n r (called c ∷ tr) (some (record sv { sync = u8 (env.call_result tr c) }))
  unfolding IsCurrent server_value
  IsCurrent-sent r n offline validity sv tr =
      let z = env.call_result tr (channel_value_changed n sv.value offline validity) in
      elim (Bool-cases (eqb_ℤ z (pos 0))) [
        | inl b ↦ inl (ap u8 ((eqb_ℤ_iff z (pos 0)).0 b))
        | inr b ↦ inr (simp b (ground arith))
      ]

  -- A part of the synchronisation keeps the number and leaves a current value.
  record Syncs (r : Bytes) (c : Channel) (tr : Trace) (out : Channel × Trace) : Type 0 where
    number : out.0.number ≡ c.number
    current :
        IsCurrent (u8 c.number) r tr c.supla_val → IsCurrent (u8 c.number) r out.1 out.0.supla_val

  Syncs-trans :
      (r : Bytes) (c d : Channel) (tr tr' : Trace) (out : Channel × Trace)
      → Syncs r c tr (d, tr')
      → Syncs r d tr' out
      → Syncs r c tr out
  Syncs-trans r c d tr tr' out h k = record {
    number = k.number ∙ h.number;
    current = λ x.
        subst (λ m. IsCurrent (u8 m) r out.1 out.0.supla_val) h.number
          (k.current
            (subst (λ m. IsCurrent (u8 m) r tr' d.supla_val) (sym h.number) (h.current x)));
  }

  Syncs-value :
      (r : Bytes) (c : Channel) (v : Option SuplaValue) (tr : Trace)
      → c.supla_val ≡ v
      → Syncs r c tr (sync_value env c v tr)
  unfolding sync_value IsCurrent server_value
  Syncs-value r c none tr e = record { number = refl; current = λ x. x }
  Syncs-value r c (some sv) tr e = elim (Bool-cases (sv.sync == 0)) [
    | inr b ↦ simp b (record { number = refl; current = λ x. x })
    | inl b ↦ simp b (record {
      number = refl;
      current =
          λ x. IsCurrent-sent r (u8 c.number) c.config.offline c.config.value_validity_time sv tr;
    })
  ]

  Syncs-extvalue :
      (r : Bytes) (c : Channel) (v : Option SuplaExtendedValue) (tr : Trace)
      → Syncs r c tr (sync_extvalue env c v tr)
  unfolding sync_extvalue IsCurrent server_value
  Syncs-extvalue r c none tr = record { number = refl; current = λ x. x }
  Syncs-extvalue r c (some sv) tr = elim (Bool-cases (sv.sync == 0)) [
    | inr b ↦ simp b (record { number = refl; current = λ x. x })
    | inl b ↦
        simp b
          (record { number = refl; current = IsCurrent-called _ r tr _ c.supla_val (λ old. refl) })
  ]

  Syncs-trigger :
      (r : Bytes) (c : Channel) (v : Option SuplaActionTrigger) (tr : Trace)
      → Syncs r c tr (sync_trigger env c v tr)
  unfolding sync_trigger IsCurrent server_value
  Syncs-trigger r c none tr = record { number = refl; current = λ x. x }
  Syncs-trigger r c (some t) tr = elim (Bool-cases (t.sync == 0)) [
    | inr b ↦ simp b (record { number = refl; current = λ x. x })
    | inl b ↦
        simp b
          (record { number = refl; current = IsCurrent-called _ r tr _ c.supla_val (λ old. refl) })
  ]

  sync-Syncs : (r : Bytes) (c : Channel) (tr : Trace) → Syncs r c tr (supla_channel_sync env c tr)
  unfolding supla_channel_sync
  sync-Syncs r c tr =
      let (c1, tr1) = sync_value env c c.supla_val tr in
      let (c2, tr2) = sync_extvalue env c1 c1.supla_extval tr1 in
      Syncs-trans r c c1 tr tr1 _ (Syncs-value r c c.supla_val tr refl) (
        Syncs-trans r c1 c2 tr1 tr2 _ (Syncs-extvalue r c1 c1.supla_extval tr1)
          (Syncs-trigger r c2 c2.action_trigger tr2))

  -- What happens beside the channel: no call that carries its value.
  pub IsOther : ℕ → Event → Type 0
  IsOther n (called c) = (old : Bytes) → carried n c old ≡ old
  IsOther n _ = Unit {0}

  -- What a channel can come to from its registration on, with the value that was registered and the
  -- trace since then: the program sets its data, the device synchronises it, and other things happen.
  pub data Deals (holds : ℕ → Option Channel) : Channel → Bytes → Trace → Type 1 where
    begins :
        (ch ch' : Channel) (d : DeviceChannel) (functions : ℕ) (r : Bytes)
        → supla_channel_to_register_struct holds ch ≡ some (d, ch')
        → d.body ≡ values functions r
        → Deals holds ch' r []
    changes :
        (ch ch' : Channel) (r : Bytes) (tr : Trace)
        → Deals holds ch r tr
        → Change ch ch'
        → Deals holds ch' r tr
    syncs :
        (ch : Channel) (r : Bytes) (tr : Trace)
        → Deals holds ch r tr
        → Deals holds (supla_channel_sync env ch tr).0 r (supla_channel_sync env ch tr).1
    goes_on :
        (ch : Channel) (r : Bytes) (tr : Trace) (e : Event)
        → Deals holds ch r tr
        → IsOther (u8 ch.number) e
        → Deals holds ch r (e ∷ tr)

  IsCurrent-begins :
      (n : ℕ) (r : Bytes) (v : Option SuplaValue)
      → ((sv : SuplaValue) → v ≡ some sv → sv.value ≡ r)
      → IsCurrent n r [] v
  unfolding IsCurrent server_value
  IsCurrent-begins n r none h = tt
  IsCurrent-begins n r (some sv) h = inr (sym (h sv refl))

  IsCurrent-WaitsOrSame :
      (n : ℕ) (r : Bytes) (tr : Trace) (v v' : Option SuplaValue)
      → WaitsOrSame v v'
      → IsCurrent n r tr v
      → IsCurrent n r tr v'
  unfolding IsCurrent
  IsCurrent-WaitsOrSame n r tr none none u x = tt
  IsCurrent-WaitsOrSame n r tr none (some out) u x = absurd u
  IsCurrent-WaitsOrSame n r tr (some sv) none u x = tt
  IsCurrent-WaitsOrSame n r tr (some sv) (some out) u x = ground arith

  IsCurrent-other :
      (n : ℕ) (r : Bytes) (tr : Trace) (e : Event) (v : Option SuplaValue)
      → IsOther n e
      → IsCurrent n r tr v
      → IsCurrent n r (e ∷ tr) v
  unfolding IsCurrent IsOther server_value
  IsCurrent-other n r tr e none o x = tt
  IsCurrent-other n r tr (called c) (some sv) o x = IsCurrent-called n r tr c (some sv) o x
  IsCurrent-other n r tr (state_changed s) (some sv) o x = x
  IsCurrent-other n r tr disconnected (some sv) o x = x
  IsCurrent-other n r tr (connecting host port ssl) (some sv) o x = x
  IsCurrent-other n r tr input_polled (some sv) o x = x
  IsCurrent-other n r tr clock_read (some sv) o x = x
  IsCurrent-other n r tr output_flushed (some sv) o x = x
  IsCurrent-other n r tr restart_requested (some sv) o x = x
  IsCurrent-other n r tr (time_offered t) (some sv) o x = x
  IsCurrent-other n r tr (channel_called_back k) (some sv) o x = x

  Deals-IsCurrent :
      (holds : ℕ → Option Channel) (ch : Channel) (r : Bytes) (tr : Trace)
      → Deals holds ch r tr
      → IsCurrent (u8 ch.number) r tr ch.supla_val
  Deals-IsCurrent holds _ r _ (begins ch ch' d functions _ e b) =
      IsCurrent-begins (u8 ch'.number) r ch'.supla_val
        (λ sv v. to_register-value holds ch (d, ch') e functions r sv b v)
  Deals-IsCurrent holds _ _ _ (changes ch ch' r tr x c) =
      let u = Change-Updates ch ch' c in
      IsCurrent-WaitsOrSame (u8 ch'.number) r tr ch.supla_val ch'.supla_val u.value (
        subst (λ m. IsCurrent (u8 m) r tr ch.supla_val) (sym u.number)
          (Deals-IsCurrent holds ch r tr x))
  Deals-IsCurrent holds _ _ _ (syncs ch r tr x) =
      let out = supla_channel_sync env ch tr in
      let k = sync-Syncs r ch tr in
      subst (λ m. IsCurrent (u8 m) r out.1 out.0.supla_val) (sym k.number)
        (k.current (Deals-IsCurrent holds ch r tr x))
  Deals-IsCurrent holds _ _ _ (goes_on ch r tr e x o) =
      IsCurrent-other (u8 ch.number) r tr e ch.supla_val o (Deals-IsCurrent holds ch r tr x)

  -- In whatever order, since a channel was registered, its data have been set and it has been
  -- synchronised: its value waits to be sent, or it is what the server had last.
  pub Deals-server_value :
      (holds : ℕ → Option Channel) (ch : Channel) (r : Bytes) (tr : Trace) (sv : SuplaValue)
      → Deals holds ch r tr
      → ch.supla_val ≡ some sv
      → (sv.sync ≡ 0) ⊎ (server_value (u8 ch.number) r tr ≡ sv.value)
  unfolding IsCurrent
  Deals-server_value holds ch r tr sv x e =
      subst (IsCurrent (u8 ch.number) r tr) e (Deals-IsCurrent holds ch r tr x)
