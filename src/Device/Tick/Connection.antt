-- ===== src/Device/Tick/Connection.antt =====
-- The calls that `supla_dev_iterate` of src/device.c makes to open and to close the connection.
use libsupla.Prelude.{
  ℕ, ◌≡◌, ◌⊎◌, ◌∙◌, refl, sym, ap, Option, none, some, some-injective, ◌∷◌, Bytes, Bool-cases, inl,
  inr, arith,
}
use libsupla.Prelude.Int.{ℤ, pos, eqb_ℤ, leb_ℤ, ◌-ℤ◌}
use libsupla.Wire.{Message}
use libsupla.Env.{
  Env, Input, failed, nothing, received, DevState, config, idle, init, connected, registered,
  online, clock_read, input_polled, disconnected, connecting,
}
use libsupla.Device.{World, emit, supla_dev_set_state}
use libsupla.Device.Connection.{hangs_up, dials, link_calls}
use libsupla.Device.Handlers.Effects.{dispatch-Dispatched}
use libsupla.Device.Handlers.Messages.{supla_dev_on_remote_call_received}
use libsupla.Device.Register.{supla_dev_register}
use libsupla.Device.Register.Connection.{register-Registers}
use libsupla.Device.Online.{supla_connection_ping}
use libsupla.Device.Online.Effects.{Quiet-requests, Quiet-ping, Quiet-sync}
use libsupla.Device.Tick.{
  ends, Switch, port_of, with_uptime, begin_round, is_waiting, returns, breaks, after_input,
  srpc_iterate, after_register, case_init, case_connected, case_registered, case_online,
  switch_state, serve, after_switch, supla_dev_iterate,
}

-- The connection is left alone, or it is closed and then opened once.
abbrev pub Redials : World → World → Type 0
Redials w w' =
    (link_calls w'.trace ≡ link_calls w.trace)
    ⊎ ((host : Bytes) × (port : ℤ) × (ssl : ℕ) × (link_calls w'.trace
          ≡ dials host port ssl ∷ hangs_up ∷ link_calls w.trace))

pub links-set_state :
    (w : World) (s : DevState) → link_calls (supla_dev_set_state w s).trace ≡ link_calls w.trace
unfolding supla_dev_set_state link_calls
links-set_state w s = ground arith

Redials-then : (u v w : World) → Redials u v → link_calls w.trace ≡ link_calls v.trace → Redials u w
Redials-then u v w (inl e) f = inl (f ∙ e)
Redials-then u v w (inr (host, port, ssl, e)) f = inr (host, port, ssl, f ∙ e)

module _ (env : Env) where
  links-receive :
      (w : World) (m : Option Message)
      → link_calls (supla_dev_on_remote_call_received env w m).trace ≡ link_calls w.trace
  unfolding supla_dev_on_remote_call_received
  links-receive w none = refl
  links-receive w (some m) =
      (dispatch-Dispatched env (record w { dev = record w.dev { last_resp = env.now w.trace } })
        m).links

  links-after_input :
      (w : World) (i : Input) → link_calls (after_input env w i).0.trace ≡ link_calls w.trace
  unfolding after_input link_calls
  links-after_input w failed = refl
  links-after_input w nothing = refl
  links-after_input w (received m) = links-receive w m

  links-serve : (w : World) → link_calls (serve env w).0.trace ≡ link_calls w.trace
  unfolding serve srpc_iterate link_calls
  links-serve w =
      let e = links-after_input (emit w input_polled) (env.input w.trace) in
      elim (Bool-cases (after_input env (emit w input_polled) (env.input w.trace)).1) [
        | inl b ↦ simp b e
        | inr b ↦ simp b (links-set_state _ init ∙ e)
      ]

  links-after_register :
      (u : World) (o : Option (World × ℤ)) (sw : Switch)
      → ((out : World × ℤ) → o ≡ some out → link_calls out.0.trace ≡ link_calls u.trace)
      → after_register env o ≡ some sw
      → link_calls (ends sw).trace ≡ link_calls u.trace
  unfolding after_register
  links-after_register u none sw h e = cc
  links-after_register u (some (v, result)) sw h e =
      let k = h (v, result) refl in
      ap (λ x. link_calls (ends x).trace) (some-injective _ _ (sym e))
      ∙ links-set_state _ connected
      ∙ elim (Bool-cases (eqb_ℤ result (pos 0))) [
        | inl b ↦ simp b (links-set_state v init ∙ k)
        | inr b ↦ simp b k
      ]

  Redials-init : (w : World) (sw : Switch) → case_init env w ≡ some sw → Redials w (ends sw)
  unfolding case_init link_calls
  Redials-init w sw =
      let w1 = record w {
        dev = record w.dev { register_time = pos 0; last_ping = pos 0; last_resp = pos 0 };
      } in
      let cfg = w1.dev.supla_config in
      let w2 = emit (emit w1 disconnected) (connecting cfg.server (port_of cfg) cfg.ssl) in
      elim (Bool-cases (eqb_ℤ (env.cloud_connect w2.trace) (pos 0))) [
        | inl b ↦ simp b (λ e. inr (
          cfg.server,
          port_of cfg,
          cfg.ssl,
          ap (λ x. link_calls (ends x).trace) (some-injective _ _ (sym e)),
        ))
        | inr b ↦ simp b (λ e. inr (
          cfg.server,
          port_of cfg,
          cfg.ssl,
          links-after_register w2 (supla_dev_register env w2) sw
              (λ o f. (register-Registers env w2 o f).links) e,
        ))
      ]

  links-connected :
      (w : World) (t : ℤ) → link_calls (ends (case_connected env w t)).trace ≡ link_calls w.trace
  unfolding case_connected
  links-connected w t = elim (Bool-cases (leb_ℤ (t -ℤ w.dev.register_time) (pos 10))) [
    | inl b ↦ simp b refl
    | inr b ↦ simp b (links-set_state _ init)
  ]

  links-registered :
      (w : World) → link_calls (ends (case_registered env w)).trace ≡ link_calls w.trace
  unfolding case_registered
  links-registered w = links-set_state _ online ∙ (Quiet-requests env w).links

  links-online :
      (w : World) (t : ℤ) → link_calls (ends (case_online env w t)).trace ≡ link_calls w.trace
  unfolding case_online
  links-online w t =
      let w1 = record w { dev = record w.dev { connection_uptime = t -ℤ w.dev.register_time } } in
      elim (Bool-cases (supla_connection_ping env w1).1) [
        | inl b ↦
            simp b
              ((Quiet-sync env (supla_connection_ping env w1).0).links ∙ (Quiet-ping env w1).links)
        | inr b ↦ simp b (links-set_state _ init ∙ (Quiet-ping env w1).links)
      ]

  Redials-switch :
      (w : World) (t : ℤ) (s : DevState) (sw : Switch)
      → switch_state env w t s ≡ some sw
      → Redials w (ends sw)
  unfolding switch_state
  Redials-switch w t init sw e = Redials-init w sw e
  Redials-switch w t config sw e =
      inl (ap (λ x. link_calls (ends x).trace) (some-injective _ _ (sym e)))
  Redials-switch w t idle sw e =
      inl (ap (λ x. link_calls (ends x).trace) (some-injective _ _ (sym e)))
  Redials-switch w t connected sw e =
      inl (ap (λ x. link_calls (ends x).trace) (some-injective _ _ (sym e)) ∙ links-connected w t)
  Redials-switch w t registered sw e =
      inl (ap (λ x. link_calls (ends x).trace) (some-injective _ _ (sym e)) ∙ links-registered w)
  Redials-switch w t online sw e =
      inl (ap (λ x. link_calls (ends x).trace) (some-injective _ _ (sym e)) ∙ links-online w t)

  Redials-after_switch :
      (w : World) (o : Option Switch) (out : World × ℕ)
      → ((sw : Switch) → o ≡ some sw → Redials w (ends sw))
      → after_switch env o ≡ some out
      → Redials w out.0
  unfolding after_switch
  Redials-after_switch w none out h e = cc
  Redials-after_switch w (some (returns v rc)) out h e =
      Redials-then w v out.0 (h (returns v rc) refl)
        (ap (λ x. link_calls x.0.trace) (some-injective _ _ (sym e)))
  Redials-after_switch w (some (breaks v)) out h e =
      Redials-then w v out.0 (h (breaks v) refl)
        (ap (λ x. link_calls x.0.trace) (some-injective _ _ (sym e)) ∙ links-serve v)

  -- A round of `supla_dev_iterate` leaves the connection alone, or it closes it and then opens it once.
  pub supla_dev_iterate-Redials :
      (w : World) (out : World × ℕ) → supla_dev_iterate env w ≡ some out → Redials w out.0
  unfolding supla_dev_iterate link_calls
  supla_dev_iterate-Redials w out =
      let w1 =
        begin_round (with_uptime (emit w clock_read) (env.now w.trace))
          (env.monotonic_ms w.trace) in
      elim (Bool-cases (is_waiting w.dev (env.monotonic_ms w.trace))) [
        | inl b ↦ simp b (λ e. inl (ap (λ x. link_calls x.0.trace) (some-injective _ _ (sym e))))
        | inr b ↦ simp b (
            Redials-after_switch w _ out (λ sw. Redials-switch w1 (env.now w.trace) w.dev.state sw))
      ]
