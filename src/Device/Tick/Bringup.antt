-- ===== src/Device/Tick/Bringup.antt =====
-- A device comes online by the rounds of `supla_dev_iterate` in src/device.c: from the start to ONLINE.
mod Tests
use libsupla.Prelude.{ℕ, zero, suc, ◌<◌, ◌≡◌, ◌∙◌, refl, ap, some, false, arith}
use libsupla.Wire.{RegisterResult}
use libsupla.Env.{Env, init, online}
use libsupla.Device.{World}
use libsupla.Device.Channels.Keeping.{IsFit}
use libsupla.Device.Tick.{is_waiting, switch_state, serve, after_switch, supla_dev_iterate}
use libsupla.Device.Tick.Progress.{started, in_state}
use libsupla.Device.Tick.Use.{rounds, rounds-suc}
use libsupla.Device.Tick.Welcome.{
  Welcomes, IsSoon, Connected, Accepted, Connected-init, polls_nothing, polls_answer, poll_round,
  last_round,
}

module _ (env : Env) (r : RegisterResult) (late : ℕ) (welcome : Welcomes env r late) where
  module _ (w : World) (s : w.dev.state ≡ init)
      (free : is_waiting w.dev (env.monotonic_ms w.trace) ≡ false) (fit : IsFit w) where
    -- the round in INIT comes to its poll
    first_round :
        (u : World) × (supla_dev_iterate env w ≡ some (serve env u))
        × Connected env r late welcome 0 u
    unfolding started switch_state after_switch
    first_round =
        let w1 = started env w in
        let fit1 : IsFit w1 = record {
          numbered = fit.numbered;
          small = fit.small;
          good = fit.good;
        } in
        let (u, e, c) = Connected-init env r late welcome w1 fit1 refl in
        (u, in_state env w init s free ∙ ap (after_switch env) e, c)

    -- The round in INIT, if the acceptance does not come yet.
    pub waiting_round :
        zero < late → (u : World) × (rounds env 1 w ≡ some u) × Connected env r late welcome 1 u
    unfolding rounds
    waiting_round lt =
        let (u, e, c) = first_round in
        let (v, f, c') = polls_nothing env r late welcome 0 u lt c in
        (v, rounds-suc env 0 w w v 0 refl (e ∙ ap some f), c')

    module _
        (soon : (i : ℕ) (u : World) → i < late → rounds env (suc i) w ≡ some u → IsSoon env u) where
      waiting_rounds :
          (i : ℕ)
          → i < late
          → (u : World) × (rounds env (suc i) w ≡ some u) × Connected env r late welcome (suc i) u
      unfolding rounds
      waiting_rounds zero lt = waiting_round lt
      waiting_rounds (suc i) lt =
          let (u, e, c) = waiting_rounds i (omega (arith, lt)) in
          let (u1, f, c1) =
            poll_round env r late welcome (suc i) u c (soon i u (omega (arith, lt)) e) in
          let (v, g, c') = polls_nothing env r late welcome (suc i) u1 lt c1 in
          (v, rounds-suc env (suc i) w u v 0 e (f ∙ ap some g), c')

      answered_rounds :
          (n : ℕ)
          → n ≡ late
          → (u : World) × (rounds env (suc n) w ≡ some u) × Accepted env r late welcome u
      unfolding rounds
      answered_rounds zero last =
          let (u, e, c) = first_round in
          let (v, f, a) = polls_answer env r late welcome 0 u last c in
          (v, rounds-suc env 0 w w v 0 refl (e ∙ ap some f), a)
      answered_rounds (suc i) last =
          let (u, e, c) = waiting_rounds i (omega (arith, last)) in
          let (u1, f, c1) =
            poll_round env r late welcome (suc i) u c (soon i u (omega (arith, last)) e) in
          let (v, g, a) = polls_answer env r late welcome (suc i) u1 last c1 in
          (v, rounds-suc env (suc i) w u v 0 e (f ∙ ap some g), a)

      -- Suppose that connections succeed, that all output is taken, and that after each attempt to
      -- connect the first `late` polls bring nothing and the next one brings the server's acceptance,
      -- after which polls bring nothing. Then `late` + 2 rounds bring a device from INIT to ONLINE
      -- that has no delay under way, and a numbered list of fewer than 256 channels as
      -- `supla_channel_create` makes them for the types that it knows, provided that each of the
      -- first `late` rounds is followed by the next within ten seconds of the registration call.
      pub comes_online :
          (w' : World) × (rounds env (suc (suc late)) w ≡ some w') × (w'.dev.state ≡ online)
      comes_online =
          let (u, e, a) = answered_rounds late refl in
          let (w', f, on) = last_round env r late welcome u a in
          (w', rounds-suc env (suc late) w u w' 0 e f, on)
