-- ===== src/Device/Tick/Transitions.antt =====
-- Which state can follow which over one round of `supla_dev_iterate`, as src/device.c has it.
use libsupla.Prelude.{
  ℕ, ◌≡◌, refl, Option, none, some, Bool, true, false, arith, Bool-cases, inl, inr, subst,
  some-injective,
}
use libsupla.Prelude.Int.{ℤ, pos, leb_ℤ, eqb_ℤ, ◌-ℤ◌}
use libsupla.Env.{
  Env, DevState, clock_read, disconnected, connecting, config, idle, init, connected, registered,
  online,
}
use libsupla.Device.{World, emit}
use libsupla.Device.Register.{supla_dev_register}
use libsupla.Device.Online.{supla_connection_ping}
use libsupla.Device.Online.Effects.{Quiet-ping, Quiet-sync}
use libsupla.Device.Tick.Serving.{set_state-state, Received, serve-state}
use libsupla.Device.Tick.{
  Switch, port_of, with_uptime, begin_round, is_waiting, returns, breaks, after_register, case_init,
  case_connected, case_registered, case_online, switch_state, serve, after_switch,
  supla_dev_iterate,
}

-- The states in which a round can end that starts in a given one.
unfoldable pub can_follow : DevState → DevState → Bool
can_follow config config = true
can_follow idle idle = true
can_follow init init = true
can_follow init connected = true
can_follow init registered = true
can_follow init config = true
can_follow connected connected = true
can_follow connected init = true
can_follow connected registered = true
can_follow connected config = true
can_follow registered online = true
can_follow registered init = true
can_follow registered registered = true
can_follow registered config = true
can_follow online online = true
can_follow online init = true
can_follow online registered = true
can_follow online config = true
can_follow _ _ = false

-- The states in which the switch can break off that starts in a given one.
can_break : DevState → DevState → Bool
can_break init connected = true
can_break connected connected = true
can_break connected init = true
can_break registered online = true
can_break online online = true
can_break _ _ = false

breaks_follow :
    (s t : DevState)
    → can_break s t ≡ true
    → ((can_follow s t ≡ true) × (can_follow s init ≡ true))
      × ((can_follow s registered ≡ true) × (can_follow s config ≡ true))
unfolding can_break can_follow
breaks_follow s t h = ground arith

module _ (env : Env) where
  -- The end of the switch, if it starts in a state s.
  Ends : DevState → Switch → Type 0
  Ends s (returns w rc) = can_follow s w.dev.state ≡ true
  Ends s (breaks w) = can_break s w.dev.state ≡ true

  Ends-init :
      (w : World) (sw : Switch) → w.dev.state ≡ init → case_init env w ≡ some sw → Ends init sw
  unfolding case_init after_register Ends can_follow can_break
  Ends-init w sw e =
      let w1 = record w {
        dev = record w.dev { register_time = pos 0; last_ping = pos 0; last_resp = pos 0 };
      } in
      let cfg = w1.dev.supla_config in
      let w2 = emit (emit w1 disconnected) (connecting cfg.server (port_of cfg) cfg.ssl) in
      elim (Bool-cases (eqb_ℤ (env.cloud_connect w2.trace) (pos 0))) [
        | inl b ↦ simp b (λ f. subst (Ends init) (some-injective _ _ f) (rw (e) refl))
        | inr b ↦ simp b (by_result (supla_dev_register env w2))
      ]
    where
      by_result : (o : Option (World × ℤ)) → after_register env o ≡ some sw → Ends init sw
      by_result none f = cc
      by_result (some (w', r)) f =
          subst (Ends init) (some-injective _ _ f) (rw (set_state-state _ connected) refl)

  Ends-connected :
      (w : World) (t : ℤ) → w.dev.state ≡ connected → Ends connected (case_connected env w t)
  unfolding case_connected Ends can_break
  Ends-connected w t e = elim (Bool-cases (leb_ℤ (t -ℤ w.dev.register_time) (pos 10))) [
    | inl b ↦ simp b (rw (e) refl)
    | inr b ↦ simp b (rw (set_state-state _ init) refl)
  ]

  Ends-registered : (w : World) → Ends registered (case_registered env w)
  unfolding case_registered Ends can_break
  Ends-registered w = rw (set_state-state _ online) refl

  Ends-online : (w : World) (t : ℤ) → w.dev.state ≡ online → Ends online (case_online env w t)
  unfolding case_online Ends can_follow can_break
  Ends-online w t e =
      let w1 = record w { dev = record w.dev { connection_uptime = t -ℤ w.dev.register_time } } in
      let w2 = (supla_connection_ping env w1).0 in
      elim (Bool-cases (supla_connection_ping env w1).1) [
        | inl b ↦ simp b (rw ((Quiet-sync env w2).state, (Quiet-ping env w1).state, e) refl)
        | inr b ↦ simp b (rw (set_state-state _ init) refl)
      ]

  Ends-switch :
      (w : World) (t : ℤ) (s : DevState) (sw : Switch)
      → w.dev.state ≡ s
      → switch_state env w t s ≡ some sw
      → Ends s sw
  unfolding switch_state Ends can_follow
  Ends-switch w t config sw e f = subst (Ends config) (some-injective _ _ f) (rw (e) refl)
  Ends-switch w t idle sw e f = subst (Ends idle) (some-injective _ _ f) (rw (e) refl)
  Ends-switch w t init sw e f = Ends-init w sw e f
  Ends-switch w t connected sw e f =
      subst (Ends connected) (some-injective _ _ f) (Ends-connected w t e)
  Ends-switch w t registered sw e f =
      subst (Ends registered) (some-injective _ _ f) (Ends-registered w)
  Ends-switch w t online sw e f = subst (Ends online) (some-injective _ _ f) (Ends-online w t e)

  follows_serve :
      (s : DevState) (w : World)
      → can_break s w.dev.state ≡ true
      → can_follow s (serve env w).0.dev.state ≡ true
  unfolding Received
  follows_serve s w h =
      let ((same, again), (reg, conf)) = breaks_follow s w.dev.state h in
      elim (serve-state env w) [
        | inl (inl e) ↦ rw (e) same
        | inl (inr (inl e)) ↦ rw (e) conf
        | inl (inr (inr e)) ↦ rw (e) reg
        | inr e ↦ rw (e) again
      ]

  follows_switch :
      (s : DevState) (o : Option Switch) (out : World × ℕ)
      → ((sw : Switch) → o ≡ some sw → Ends s sw)
      → after_switch env o ≡ some out
      → can_follow s out.0.dev.state ≡ true
  unfolding after_switch Ends
  follows_switch s none out h e = cc
  follows_switch s (some (returns w rc)) out h e =
      subst (λ x. can_follow s x.0.dev.state ≡ true) (some-injective _ _ e) (h (returns w rc) refl)
  follows_switch s (some (breaks w)) out h e =
      subst (λ x. can_follow s x.0.dev.state ≡ true) (some-injective _ _ e)
        (follows_serve s w (h (breaks w) refl))

  can_follow_refl : (s : DevState) → can_follow s s ≡ true
  unfolding can_follow
  can_follow_refl s = ground arith

  -- A round takes the device's state to one that `can_follow` lists for it.
  pub supla_dev_iterate-can_follow :
      (w : World) (out : World × ℕ)
      → supla_dev_iterate env w ≡ some out
      → can_follow w.dev.state out.0.dev.state ≡ true
  unfolding supla_dev_iterate
  supla_dev_iterate-can_follow w out =
      let w1 =
        begin_round (with_uptime (emit w clock_read) (env.now w.trace))
          (env.monotonic_ms w.trace) in
      elim (Bool-cases (is_waiting w.dev (env.monotonic_ms w.trace))) [
        | inl b ↦ simp b (λ e.
            subst (λ x. can_follow w.dev.state x.0.dev.state ≡ true) (some-injective _ _ e)
              (can_follow_refl w.dev.state))
        | inr b ↦ simp b (
            follows_switch w.dev.state _ out
              (λ sw. Ends-switch w1 (env.now w.trace) w.dev.state sw refl))
      ]
