-- ===== src/Device/Tick/Announcing.antt =====
-- What the callback `on_state_change` of src/device.c is told over rounds and other calls.
use libsupla.Prelude.{ℕ, ◌≡◌, refl, subst, Option, none, some, some-injective, Bool-cases, inl, inr}
use libsupla.Prelude.Int.{ℤ, pos, eqb_ℤ, leb_ℤ, ◌-ℤ◌}
use libsupla.Wire.{Message}
use libsupla.Env.{
  Env, Input, failed, nothing, received, DevState, config, idle, init, connected, registered,
  online, clock_read, input_polled, disconnected, connecting,
}
use libsupla.Device.{World, emit, supla_dev_set_state, supla_dev_set_connection_reset_cause}
use libsupla.Device.Announcements.{
  told, Tells, Tells-refl, Tells-trans, Tells-set_state, Tells-sets,
}
use libsupla.Device.Handlers.Effects.{dispatch-Dispatched}
use libsupla.Device.Handlers.Messages.{supla_dev_on_remote_call_received}
use libsupla.Device.Register.{supla_dev_register}
use libsupla.Device.Register.Connection.{register-Registers}
use libsupla.Device.Online.{supla_connection_ping, supla_dev_sync_channels_data}
use libsupla.Device.Online.Effects.{Quiet, Quiet-requests, Quiet-ping, Quiet-sync}
use libsupla.Device.Tick.{
  cause_connection_lost, cause_activity_timeout, ends, Switch, port_of, with_uptime, begin_round,
  is_waiting, returns, breaks, after_input, srpc_iterate, after_register, case_init, case_connected,
  case_registered, case_online, switch_state, serve, after_switch, supla_dev_iterate,
}

module _ (env : Env) where
  Tells-of_Quiet : (w w' : World) → Quiet env w w' → Tells w w'
  Tells-of_Quiet w w' q = (q.callback, inl (q.news, q.state))

  Tells-requested : (w v : World) → Quiet env w v → Tells w (supla_dev_set_state v online)
  Tells-requested w v q = Tells-sets w v online (Tells-of_Quiet w v q)

  Tells-receive :
      (w : World) (m : Option Message) → Tells w (supla_dev_on_remote_call_received env w m)
  unfolding supla_dev_on_remote_call_received
  Tells-receive w none = Tells-refl w
  Tells-receive w (some m) =
      (dispatch-Dispatched env (record w { dev = record w.dev { last_resp = env.now w.trace } })
        m).tells

  Tells-after_input : (w : World) (i : Input) → Tells w (after_input env w i).0
  unfolding after_input told
  Tells-after_input w failed = Tells-refl w
  Tells-after_input w nothing = Tells-refl w
  Tells-after_input w (received m) = Tells-receive w m

  Tells-serve : (w : World) → Tells w (serve env w).0
  unfolding serve srpc_iterate told
  Tells-serve w =
      let v = (after_input env (emit w input_polled) (env.input w.trace)).0 in
      let t : Tells w v = Tells-after_input (emit w input_polled) (env.input w.trace) in
      elim (Bool-cases (after_input env (emit w input_polled) (env.input w.trace)).1) [
        | inl b ↦ simp b t
        | inr b ↦
            simp b
              (Tells-sets w (supla_dev_set_connection_reset_cause v cause_connection_lost) init t)
      ]

  Tells-after_register :
      (u : World) (o : Option (World × ℤ)) (sw : Switch)
      → ((out : World × ℤ) → o ≡ some out → Tells u out.0)
      → after_register env o ≡ some sw
      → Tells u (ends sw)
  unfolding after_register
  Tells-after_register u none sw h e = cc
  Tells-after_register u (some (v, result)) sw h e =
      subst (λ x. Tells u (ends x)) (some-injective _ _ e)
        (elim (Bool-cases (eqb_ℤ result (pos 0))) [
          | inl b ↦ simp b (
              Tells-sets u (supla_dev_set_state v init) connected
                (Tells-sets u v init (h (v, result) refl)))
          | inr b ↦ simp b (Tells-sets u v connected (h (v, result) refl))
        ])

  Tells-init : (w : World) (sw : Switch) → case_init env w ≡ some sw → Tells w (ends sw)
  unfolding case_init told
  Tells-init w sw =
      let w1 = record w {
        dev = record w.dev { register_time = pos 0; last_ping = pos 0; last_resp = pos 0 };
      } in
      let cfg = w1.dev.supla_config in
      let w2 = emit (emit w1 disconnected) (connecting cfg.server (port_of cfg) cfg.ssl) in
      elim (Bool-cases (eqb_ℤ (env.cloud_connect w2.trace) (pos 0))) [
        | inl b ↦ simp b (λ e. subst (λ x. Tells w (ends x)) (some-injective _ _ e) (Tells-refl w))
        | inr b ↦ simp b (λ e.
            Tells-after_register w (supla_dev_register env w2) sw
              (λ out f. (register-Registers env w2 out f).tells) e)
      ]

  Tells-connected : (w : World) (t : ℤ) → Tells w (ends (case_connected env w t))
  unfolding case_connected
  Tells-connected w t = elim (Bool-cases (leb_ℤ (t -ℤ w.dev.register_time) (pos 10))) [
    | inl b ↦ simp b (Tells-refl w)
    | inr b ↦
        simp b (Tells-set_state (supla_dev_set_connection_reset_cause w cause_connection_lost) init)
  ]

  Tells-registered : (w : World) → Tells w (ends (case_registered env w))
  unfolding case_registered
  Tells-registered w = Tells-requested w _ (Quiet-requests env w)

  Tells-online : (w : World) (t : ℤ) → Tells w (ends (case_online env w t))
  unfolding case_online
  Tells-online w t =
      let w1 = record w { dev = record w.dev { connection_uptime = t -ℤ w.dev.register_time } } in
      let w2 = (supla_connection_ping env w1).0 in
      let pings : Tells w w2 = Tells-of_Quiet w1 w2 (Quiet-ping env w1) in
      elim (Bool-cases (supla_connection_ping env w1).1) [
        | inl b ↦ simp b (
            Tells-trans w w2 (supla_dev_sync_channels_data env w2) pings
              (Tells-of_Quiet w2 _ (Quiet-sync env w2)))
        | inr b ↦ simp b (
            Tells-sets w (supla_dev_set_connection_reset_cause w2 cause_activity_timeout) init
              pings)
      ]

  Tells-switch :
      (w : World) (t : ℤ) (s : DevState) (sw : Switch)
      → switch_state env w t s ≡ some sw
      → Tells w (ends sw)
  unfolding switch_state
  Tells-switch w t init sw e = Tells-init w sw e
  Tells-switch w t config sw e = subst (λ x. Tells w (ends x)) (some-injective _ _ e) (Tells-refl w)
  Tells-switch w t idle sw e = subst (λ x. Tells w (ends x)) (some-injective _ _ e) (Tells-refl w)
  Tells-switch w t connected sw e =
      subst (λ x. Tells w (ends x)) (some-injective _ _ e) (Tells-connected w t)
  Tells-switch w t registered sw e =
      subst (λ x. Tells w (ends x)) (some-injective _ _ e) (Tells-registered w)
  Tells-switch w t online sw e =
      subst (λ x. Tells w (ends x)) (some-injective _ _ e) (Tells-online w t)

  Tells-after_switch :
      (w : World) (o : Option Switch) (out : World × ℕ)
      → ((sw : Switch) → o ≡ some sw → Tells w (ends sw))
      → after_switch env o ≡ some out
      → Tells w out.0
  unfolding after_switch
  Tells-after_switch w none out h e = cc
  Tells-after_switch w (some (returns v rc)) out h e =
      subst (λ x. Tells w x.0) (some-injective _ _ e) (h (returns v rc) refl)
  Tells-after_switch w (some (breaks v)) out h e =
      subst (λ x. Tells w x.0) (some-injective _ _ e)
        (Tells-trans w v (serve env v).0 (h (breaks v) refl) (Tells-serve v))

  pub Tells-iterate :
      (w : World) (out : World × ℕ) → supla_dev_iterate env w ≡ some out → Tells w out.0
  unfolding supla_dev_iterate told
  Tells-iterate w out =
      let w1 =
        begin_round (with_uptime (emit w clock_read) (env.now w.trace))
          (env.monotonic_ms w.trace) in
      elim (Bool-cases (is_waiting w.dev (env.monotonic_ms w.trace))) [
        | inl b ↦ simp b (λ e. subst (λ x. Tells w x.0) (some-injective _ _ e) (Tells-refl w))
        | inr b ↦
            simp b
              (Tells-after_switch w _ out (λ sw. Tells-switch w1 (env.now w.trace) w.dev.state sw))
      ]
