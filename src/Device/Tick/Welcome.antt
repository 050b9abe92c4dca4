-- ===== src/Device/Tick/Welcome.antt =====
-- The polls of a server that lets the device in, in the rounds of `supla_dev_iterate` of src/device.c.
use libsupla.Prelude.{ℕ, suc, ◌<◌, ◌≡◌, ◌∙◌, refl, ap, some, true, false, ◌∷◌, ◌==◌, arith}
use libsupla.Prelude.Int.{pos, eqb_ℤ, leb_ℤ, ◌-ℤ◌}
use libsupla.Wire.{RegisterResult, register_device_result}
use libsupla.Env.{
  Env, Trace, Input, nothing, received, connected, registered, online, input_polled, disconnected,
  connecting,
}
use libsupla.Device.{World, emit, supla_dev_set_state}
use libsupla.Device.Channels.Keeping.{IsFit}
use libsupla.Device.Handlers.{resultcode_true, supla_connection_on_register_result}
use libsupla.Device.Handlers.Effects.{accepted, input_accepts, is_acceptance, dispatch-Dispatched}
use libsupla.Device.Handlers.Messages.{dispatch, supla_dev_on_remote_call_received}
use libsupla.Device.Online.Effects.{Quiet-requests}
use libsupla.Device.Tick.{
  breaks, port_of, after_input, after_register, case_init, case_registered, switch_state, serve,
  after_switch, supla_dev_iterate,
}
use libsupla.Device.Tick.Progress.{
  quiet, stays, started, in_state, serves, accepts, answered, asked, goes_online_if,
}
use libsupla.Device.Tick.Serving.{accepted-set_state}
use libsupla.Device.Tick.Asking.{IsNoted, polls, Asking-register, Asking-after_register}

-- The world outside lets the device in: connections succeed and all output is taken. After each
-- attempt to connect the first `late` polls bring nothing, and the next one brings the server's
-- acceptance; once the device is accepted, polls bring nothing.
pub record Welcomes (env : Env) (r : RegisterResult) (late : ℕ) : Type 0 where
  pub acceptance : (r.result_code == resultcode_true) ≡ true
  pub connects : (tr : Trace) → eqb_ℤ (env.cloud_connect tr) (pos 0) ≡ false
  pub output : (tr : Trace) → env.output tr ≡ true
  pub before : (tr : Trace) → polls tr < late → env.input tr ≡ nothing
  pub at_last :
      (tr : Trace) → polls tr ≡ late → env.input tr ≡ received (some (register_device_result r))
  pub afterwards : (tr : Trace) → accepted env tr ≡ true → env.input tr ≡ nothing

-- At most ten seconds have passed since the registration call.
abbrev pub IsSoon : Env → World → Type 0
IsSoon env u = leb_ℤ (env.now u.trace -ℤ u.dev.register_time) (pos 10) ≡ true

module _ (env : Env) where
  module _ (r : RegisterResult) (late : ℕ) (welcome : Welcomes env r late) where
    -- Registered over a connection that was polled j times, with no delay.
    pub record Connected (j : ℕ) (w : World) : Type 0 where
      pub state : w.dev.state ≡ connected
      pub wait : w.dev.wait_iterate_msec ≡ 0
      pub polled : polls w.trace ≡ j
      pub noted : IsNoted env w

    pub Connected-init :
        (w : World)
        → IsFit w
        → w.dev.wait_iterate_msec ≡ 0
        → (u : World) × (case_init env w ≡ some (breaks u)) × Connected 0 u
    unfolding case_init polls
    Connected-init w fit free =
        let w1 = record w {
          dev = record w.dev { register_time = pos 0; last_ping = pos 0; last_resp = pos 0 };
        } in
        let cfg = w1.dev.supla_config in
        let w2 = emit (emit w1 disconnected) (connecting cfg.server (port_of cfg) cfg.ssl) in
        let fit2 : IsFit w2 = record {
          numbered = fit.numbered;
          small = fit.small;
          good = fit.good;
        } in
        let (out, e, a, t) =
          Asking-register env w2 fit2 (record { wait = free; unpolled = refl }) in
        let (u, f, a', s, t') = Asking-after_register env out a t in
        (
          u,
          simp (welcome.connects w2.trace) (ap (after_register env) e ∙ f),
          record { state = s; wait = a'.wait; polled = a'.unpolled; noted = t' },
        )

    -- The server accepts: the device is registered, with no delay.
    pub record Accepted (w : World) : Type 0 where
      state : w.dev.state ≡ registered
      wait : w.dev.wait_iterate_msec ≡ 0
      answered : accepted env w.trace ≡ true

    answer : Input
    answer = received (some (register_device_result r))

    wait-answer :
        (w : World) → (after_input env w answer).0.dev.wait_iterate_msec ≡ w.dev.wait_iterate_msec
    unfolding answer after_input supla_dev_on_remote_call_received dispatch
        supla_connection_on_register_result supla_dev_set_state
    wait-answer w = ground arith

    accepted-answer :
        (w : World) → accepted env (after_input env w answer).0.trace ≡ accepted env w.trace
    unfolding answer after_input supla_dev_on_remote_call_received accepted
    accepted-answer w =
        (dispatch-Dispatched env (record w { dev = record w.dev { last_resp = env.now w.trace } })
          (register_device_result r)).acceptance

    accepted-polled : (tr : Trace) → env.input tr ≡ answer → accepted env (input_polled ∷ tr) ≡ true
    unfolding answer accepted input_accepts is_acceptance
    accepted-polled tr e = rw (e, welcome.acceptance) refl

    -- A poll that brings nothing.
    pub polls_nothing :
        (j : ℕ) (u : World)
        → j < late
        → Connected j u
        → (u' : World) × (serve env u ≡ (u', 0)) × Connected (suc j) u'
    unfolding after_input polls
    polls_nothing j u lt c = (
      (after_input env (emit u input_polled) nothing).0,
      serves env welcome.output u nothing (welcome.before u.trace (omega (arith, lt, c.polled)))
          (quiet env welcome.output (emit u input_polled)),
      record { state = c.state; wait = c.wait; polled = ap suc c.polled; noted = c.noted },
    )

    -- The poll that brings the acceptance.
    pub polls_answer :
        (j : ℕ) (u : World)
        → j ≡ late
        → Connected j u
        → (u' : World) × (serve env u ≡ (u', 0)) × Accepted u'
    unfolding answer
    polls_answer j u last c =
        let polled = emit u input_polled in
        let input = welcome.at_last u.trace (c.polled ∙ last) in
        (
          (after_input env polled answer).0,
          serves env welcome.output u answer input (answered env welcome.output polled r),
          record {
            state = accepts env welcome.output polled r welcome.acceptance;
            wait = wait-answer polled ∙ c.wait;
            answered = accepted-answer polled ∙ accepted-polled u.trace input;
          },
        )

    -- A round in CONNECTED comes to a poll.
    pub poll_round :
        (j : ℕ) (w : World)
        → Connected j w
        → IsSoon env w
        → (u : World) × (supla_dev_iterate env w ≡ some (serve env u)) × Connected j u
    unfolding switch_state after_switch started polls
    poll_round j w c soon = (
      started env w,
      in_state env w connected c.state (ground (arith, c.wait))
          ∙ ap (λ x. after_switch env (some x))
              (stays env welcome.output (started env w) (env.now w.trace) soon),
      record { state = c.state; wait = refl; polled = c.polled; noted = c.noted },
    )

    accepted-asked :
        (w : World)
        → accepted env w.trace ≡ true
        → accepted env (asked env welcome.output (started env w)).trace ≡ true
    unfolding asked case_registered started accepted
    accepted-asked w e =
        accepted-set_state env _ online ∙ (Quiet-requests env (started env w)).acceptance ∙ e

    -- the round in REGISTERED
    pub last_round :
        (w : World)
        → Accepted w
        → (w' : World) × (supla_dev_iterate env w ≡ some (w', 0)) × (w'.dev.state ≡ online)
    last_round w a =
        goes_online_if env welcome.output w a.state (ground (arith, a.wait))
          (welcome.afterwards _ (accepted-asked w a.answered))
