-- ===== src/Device/Tick/Keeping.antt =====
-- A round of `supla_dev_iterate` in src/device.c leaves the channels of the device in their places.
use libsupla.Prelude.{ℕ, ◌≡◌, refl, Option, none, some, some-injective, subst, Bool-cases, inl, inr}
use libsupla.Prelude.Int.{ℤ, pos, eqb_ℤ, leb_ℤ, ◌-ℤ◌}
use libsupla.Env.{
  Env, Input, failed, nothing, received, DevState, config, idle, init, connected, registered,
  online, clock_read, input_polled, disconnected, connecting,
}
use libsupla.Device.{World, emit, supla_dev_set_state}
use libsupla.Device.Channels.Keeping.{KeepsChannels, KeepsAll-trans, CallbacksKeep}
use libsupla.Device.Handlers.Keeping.{
  KeepsChannels-refl, KeepsChannels-same, channels-set_state, received-Keeps,
}
use libsupla.Device.Register.{supla_dev_register}
use libsupla.Device.Register.Keeping.{register-Keeps}
use libsupla.Device.Online.{supla_connection_ping}
use libsupla.Device.Online.Keeping.{sync_data-Keeps, ping-Keeps, requests-Keeps}
use libsupla.Device.Tick.{
  ends, Switch, port_of, with_uptime, begin_round, is_waiting, returns, breaks, after_input,
  srpc_iterate, after_register, case_init, case_connected, case_registered, case_online,
  switch_state, serve, after_switch, supla_dev_iterate,
}

-- A change of the state keeps what was kept.
Keeps-set_state :
    (u w : World) (s : DevState) → KeepsChannels u w → KeepsChannels u (supla_dev_set_state w s)
Keeps-set_state u w s k =
    KeepsAll-trans u.dev.channels w.dev.channels _ k
      (KeepsChannels-same w (supla_dev_set_state w s) (channels-set_state w s))

module _ (env : Env) (keeps : CallbacksKeep env) where
  after_input-Keeps : (w : World) (i : Input) → KeepsChannels w (after_input env w i).0
  unfolding after_input
  after_input-Keeps w failed = KeepsChannels-refl w
  after_input-Keeps w nothing = KeepsChannels-refl w
  after_input-Keeps w (received m) = received-Keeps env keeps w m

  serve-Keeps : (w : World) → KeepsChannels w (serve env w).0
  unfolding serve srpc_iterate
  serve-Keeps w =
      let k = after_input-Keeps (emit w input_polled) (env.input w.trace) in
      elim (Bool-cases (after_input env (emit w input_polled) (env.input w.trace)).1) [
        | inl b ↦ simp b k
        | inr b ↦ simp b (Keeps-set_state w _ init k)
      ]

  after_register-Keeps :
      (w : World) (o : Option (World × ℤ)) (sw : Switch)
      → ((out : World × ℤ) → o ≡ some out → KeepsChannels w out.0)
      → after_register env o ≡ some sw
      → KeepsChannels w (ends sw)
  unfolding after_register
  after_register-Keeps w none sw h e = cc
  after_register-Keeps w (some (v, result)) sw h e =
      let k = h (v, result) refl in
      subst (λ x. KeepsChannels w (ends x)) (some-injective _ _ e)
        (Keeps-set_state w _ connected (elim (Bool-cases (eqb_ℤ result (pos 0))) [
          | inl b ↦ simp b (Keeps-set_state w v init k)
          | inr b ↦ simp b k
        ]))

  init-Keeps : (w : World) (sw : Switch) → case_init env w ≡ some sw → KeepsChannels w (ends sw)
  unfolding case_init
  init-Keeps w sw =
      let w1 = record w {
        dev = record w.dev { register_time = pos 0; last_ping = pos 0; last_resp = pos 0 };
      } in
      let cfg = w1.dev.supla_config in
      let w2 = emit (emit w1 disconnected) (connecting cfg.server (port_of cfg) cfg.ssl) in
      elim (Bool-cases (eqb_ℤ (env.cloud_connect w2.trace) (pos 0))) [
        | inl b ↦ simp b (λ e.
            subst (λ x. KeepsChannels w (ends x)) (some-injective _ _ e) (KeepsChannels-refl w))
        | inr b ↦
            simp b (after_register-Keeps w (supla_dev_register env w2) sw (register-Keeps env w2))
      ]

  connected-Keeps : (w : World) (t : ℤ) → KeepsChannels w (ends (case_connected env w t))
  unfolding case_connected
  connected-Keeps w t = elim (Bool-cases (leb_ℤ (t -ℤ w.dev.register_time) (pos 10))) [
    | inl b ↦ simp b (KeepsChannels-refl w)
    | inr b ↦ simp b (Keeps-set_state w _ init (KeepsChannels-refl w))
  ]

  registered-Keeps : (w : World) → KeepsChannels w (ends (case_registered env w))
  unfolding case_registered
  registered-Keeps w = Keeps-set_state w _ online (requests-Keeps env keeps w)

  online-Keeps : (w : World) (t : ℤ) → KeepsChannels w (ends (case_online env w t))
  unfolding case_online
  online-Keeps w t =
      let w1 = record w { dev = record w.dev { connection_uptime = t -ℤ w.dev.register_time } } in
      let w2 = (supla_connection_ping env w1).0 in
      elim (Bool-cases (supla_connection_ping env w1).1) [
        | inl b ↦ simp b (
            KeepsAll-trans w.dev.channels w2.dev.channels _ (ping-Keeps env w1)
              (sync_data-Keeps env w2))
        | inr b ↦ simp b (Keeps-set_state w _ init (ping-Keeps env w1))
      ]

  switch-Keeps :
      (w : World) (t : ℤ) (s : DevState) (sw : Switch)
      → switch_state env w t s ≡ some sw
      → KeepsChannels w (ends sw)
  unfolding switch_state
  switch-Keeps w t config sw e =
      subst (λ x. KeepsChannels w (ends x)) (some-injective _ _ e) (KeepsChannels-refl w)
  switch-Keeps w t idle sw e =
      subst (λ x. KeepsChannels w (ends x)) (some-injective _ _ e) (KeepsChannels-refl w)
  switch-Keeps w t init sw e = init-Keeps w sw e
  switch-Keeps w t connected sw e =
      subst (λ x. KeepsChannels w (ends x)) (some-injective _ _ e) (connected-Keeps w t)
  switch-Keeps w t registered sw e =
      subst (λ x. KeepsChannels w (ends x)) (some-injective _ _ e) (registered-Keeps w)
  switch-Keeps w t online sw e =
      subst (λ x. KeepsChannels w (ends x)) (some-injective _ _ e) (online-Keeps w t)

  after_switch-Keeps :
      (w : World) (o : Option Switch) (out : World × ℕ)
      → ((sw : Switch) → o ≡ some sw → KeepsChannels w (ends sw))
      → after_switch env o ≡ some out
      → KeepsChannels w out.0
  unfolding after_switch
  after_switch-Keeps w none out h e = cc
  after_switch-Keeps w (some (returns v rc)) out h e =
      subst (λ x. KeepsChannels w x.0) (some-injective _ _ e) (h (returns v rc) refl)
  after_switch-Keeps w (some (breaks v)) out h e =
      subst (λ x. KeepsChannels w x.0) (some-injective _ _ e)
        (KeepsAll-trans w.dev.channels v.dev.channels _ (h (breaks v) refl) (serve-Keeps v))

  -- If the program's callbacks leave the number, the type and the form of a channel alone, then so
  -- does a round of `supla_dev_iterate`, whatever is received in it, for every channel in the list,
  -- and it neither adds nor removes one.
  pub supla_dev_iterate-Keeps :
      (w : World) (out : World × ℕ) → supla_dev_iterate env w ≡ some out → KeepsChannels w out.0
  unfolding supla_dev_iterate
  supla_dev_iterate-Keeps w out =
      let w1 =
        begin_round (with_uptime (emit w clock_read) (env.now w.trace))
          (env.monotonic_ms w.trace) in
      elim (Bool-cases (is_waiting w.dev (env.monotonic_ms w.trace))) [
        | inl b ↦
            simp b
              (λ e. subst (λ x. KeepsChannels w x.0) (some-injective _ _ e) (KeepsChannels-refl w))
        | inr b ↦
            simp b
              (after_switch-Keeps w _ out (λ sw. switch-Keeps w1 (env.now w.trace) w.dev.state sw))
      ]
