-- ===== src/Device/Tick/Lifecycle.antt =====
-- The device's state over a round of `supla_dev_iterate`, as src/device.c has it.
use libsupla.Prelude.{
  ℕ, ◌≡◌, ◌∙◌, refl, Option, none, some, true, arith, Bool-cases, inl, inr, subst, some-injective,
}
use libsupla.Prelude.Int.{ℤ, pos, leb_ℤ, eqb_ℤ, ◌-ℤ◌}
use libsupla.Env.{
  Env, DevState, clock_read, disconnected, connecting, config, idle, init, connected, registered,
  online,
}
use libsupla.Device.{World, emit, supla_dev_set_state}
use libsupla.Device.Handlers.Effects.{accepted}
use libsupla.Device.Register.{supla_dev_register}
use libsupla.Device.Online.{supla_connection_ping}
use libsupla.Device.Online.Effects.{Quiet-requests, Quiet-ping, Quiet-sync}
use libsupla.Device.Tick.Serving.{
  set_state-state, is_up, IsAccepted, not_up, serve-IsAccepted, accepted-set_state,
}
use libsupla.Device.Tick.{
  ends, Switch, port_of, with_uptime, begin_round, is_waiting, returns, breaks, after_register,
  case_init, case_connected, case_registered, case_online, switch_state, after_switch,
  supla_dev_iterate,
}

module _ (env : Env) where
  IsAccepted-of_equal :
      (w w' : World)
      → w'.dev.state ≡ w.dev.state
      → accepted env w'.trace ≡ accepted env w.trace
      → IsAccepted env w
      → IsAccepted env w'
  unfolding IsAccepted
  IsAccepted-of_equal w w' e f h = rw (e, f) h

  connected-IsAccepted :
      (w : World) (t : ℤ) → w.dev.state ≡ connected → IsAccepted env (ends (case_connected env w t))
  unfolding case_connected is_up
  connected-IsAccepted w t e = elim (Bool-cases (leb_ℤ (t -ℤ w.dev.register_time) (pos 10))) [
    | inl b ↦ simp b (not_up env w connected refl e)
    | inr b ↦ simp b (not_up env _ init refl (set_state-state _ init))
  ]

  IsAccepted-set_up :
      (w : World) (s : DevState)
      → accepted env w.trace ≡ true
      → IsAccepted env (supla_dev_set_state w s)
  unfolding IsAccepted
  IsAccepted-set_up w s h = rw (accepted-set_state env w s, h) (ground arith)

  accepted_of_up :
      (w : World) → is_up w.dev.state ≡ true → IsAccepted env w → accepted env w.trace ≡ true
  unfolding IsAccepted
  accepted_of_up w u h = ground arith

  registered-IsAccepted :
      (w : World)
      → w.dev.state ≡ registered
      → IsAccepted env w
      → IsAccepted env (ends (case_registered env w))
  unfolding case_registered is_up
  registered-IsAccepted w e h =
      IsAccepted-set_up _ online
        ((Quiet-requests env w).acceptance ∙ accepted_of_up w (rw (e) refl) h)

  online-IsAccepted :
      (w : World) (t : ℤ) → IsAccepted env w → IsAccepted env (ends (case_online env w t))
  unfolding case_online is_up
  online-IsAccepted w t h =
      let w1 = record w { dev = record w.dev { connection_uptime = t -ℤ w.dev.register_time } } in
      let q = Quiet-ping env w1 in
      elim (Bool-cases (supla_connection_ping env w1).1) [
        | inl b ↦ simp b (
            let p = Quiet-sync env (supla_connection_ping env w1).0 in
            IsAccepted-of_equal w _ (p.state ∙ q.state) (p.acceptance ∙ q.acceptance) h)
        | inr b ↦ simp b (not_up env _ init refl (set_state-state _ init))
      ]

  registers-IsAccepted :
      (o : Option (World × ℤ)) (sw : Switch)
      → after_register env o ≡ some sw
      → IsAccepted env (ends sw)
  unfolding after_register is_up
  registers-IsAccepted none sw e = cc
  registers-IsAccepted (some (w, r)) sw e =
      subst (λ x. IsAccepted env (ends x)) (some-injective _ _ e)
        (not_up env _ connected refl (set_state-state _ connected))

  init-IsAccepted :
      (w : World) (sw : Switch)
      → w.dev.state ≡ init
      → case_init env w ≡ some sw
      → IsAccepted env (ends sw)
  unfolding case_init is_up
  init-IsAccepted w sw e =
      let w1 = record w {
        dev = record w.dev { register_time = pos 0; last_ping = pos 0; last_resp = pos 0 };
      } in
      let cfg = w1.dev.supla_config in
      let w2 = emit (emit w1 disconnected) (connecting cfg.server (port_of cfg) cfg.ssl) in
      elim (Bool-cases (eqb_ℤ (env.cloud_connect w2.trace) (pos 0))) [
        | inl b ↦ simp b (λ f.
            subst (λ x. IsAccepted env (ends x)) (some-injective _ _ f) (not_up env _ init refl e))
        | inr b ↦ simp b (λ f. registers-IsAccepted (supla_dev_register env w2) sw f)
      ]

  switch-IsAccepted :
      (w : World) (t : ℤ) (s : DevState) (sw : Switch)
      → w.dev.state ≡ s
      → IsAccepted env w
      → switch_state env w t s ≡ some sw
      → IsAccepted env (ends sw)
  unfolding switch_state
  switch-IsAccepted w t config sw e h f =
      subst (λ x. IsAccepted env (ends x)) (some-injective _ _ f) h
  switch-IsAccepted w t idle sw e h f =
      subst (λ x. IsAccepted env (ends x)) (some-injective _ _ f) h
  switch-IsAccepted w t init sw e h f = init-IsAccepted w sw e f
  switch-IsAccepted w t connected sw e h f =
      subst (λ x. IsAccepted env (ends x)) (some-injective _ _ f) (connected-IsAccepted w t e)
  switch-IsAccepted w t registered sw e h f =
      subst (λ x. IsAccepted env (ends x)) (some-injective _ _ f) (registered-IsAccepted w e h)
  switch-IsAccepted w t online sw e h f =
      subst (λ x. IsAccepted env (ends x)) (some-injective _ _ f) (online-IsAccepted w t h)

  finish-IsAccepted :
      (o : Option Switch) (out : World × ℕ)
      → ((sw : Switch) → o ≡ some sw → IsAccepted env (ends sw))
      → after_switch env o ≡ some out
      → IsAccepted env out.0
  unfolding after_switch
  finish-IsAccepted none out h e = cc
  finish-IsAccepted (some (returns w rc)) out h e =
      subst (λ x. IsAccepted env x.0) (some-injective _ _ e) (h (returns w rc) refl)
  finish-IsAccepted (some (breaks w)) out h e =
      subst (λ x. IsAccepted env x.0) (some-injective _ _ e)
        (serve-IsAccepted env w (h (breaks w) refl))

  -- A round keeps the invariant: a device that is in REGISTERED or ONLINE after it has been accepted
  -- by the server since the last attempt to connect, if that was so before the round.
  pub supla_dev_iterate-IsAccepted :
      (w : World) (out : World × ℕ)
      → IsAccepted env w
      → supla_dev_iterate env w ≡ some out
      → IsAccepted env out.0
  unfolding supla_dev_iterate accepted
  supla_dev_iterate-IsAccepted w out h =
      let w1 =
        begin_round (with_uptime (emit w clock_read) (env.now w.trace))
          (env.monotonic_ms w.trace) in
      elim (Bool-cases (is_waiting w.dev (env.monotonic_ms w.trace))) [
        | inl b ↦ simp b (λ e.
            subst (λ x. IsAccepted env x.0) (some-injective _ _ e)
              (IsAccepted-of_equal w _ refl refl h))
        | inr b ↦ simp b (
            finish-IsAccepted _ out (λ sw.
              switch-IsAccepted w1 (env.now w.trace) w.dev.state sw refl
                (IsAccepted-of_equal w w1 refl refl h)))
      ]
