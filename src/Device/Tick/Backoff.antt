-- ===== src/Device/Tick/Backoff.antt =====
-- The delay after a failed attempt to connect, in `supla_dev_iterate` of src/device.c.
use libsupla.Prelude.{
  ℕ, zero, suc, ◌≡◌, ◌<◌, ◌≤◌, ◌+◌, ◌^◌, some, true, false, arith, refl, sym, ◌∙◌, subst,
  some-injective, ◌∷◌,
}
use libsupla.Prelude.Int.{pos}
use libsupla.Env.{Env, init, clock_read, disconnected, connecting, Trace}
use libsupla.Device.{World, emit}
use libsupla.Device.Tick.{
  port_of, is_waiting, with_uptime, begin_round, case_init, switch_state, after_switch,
  supla_dev_iterate,
}
use libsupla.Device.Tick.Use.{rounds, rounds-suc}

module _ (env : Env) where
  -- What has happened when a round asks for a connection.
  abbrev pub asking : World → Trace
  asking w =
      let c = w.dev.supla_config in
      connecting c.server (port_of c) c.ssl ∷ disconnected ∷ clock_read ∷ w.trace

  waits :
      (ms now : ℕ) (w : World)
      → w.dev.wait_iterate_msec ≡ 5000
      → w.dev.iterate_time_msec ≡ ms
      → ms ≤ now
      → now < ms + 5000
      → now < 2 ^ 64
      → is_waiting w.dev now ≡ true
  waits ms now w h k a b c = rw (h, k) (ground arith)

  -- the device as such a refusal leaves it
  refusal : World → World
  refusal w =
      let w0 = with_uptime w (env.now w.trace) in
      let w1 = begin_round w0 (env.monotonic_ms w.trace) in
      record {
        dev = record w1.dev {
          register_time = pos 0;
          last_ping = pos 0;
          last_resp = pos 0;
          wait_iterate_msec = 5000;
        };
        trace = asking w;
      }

  first :
      (w : World)
      → w.dev.state ≡ init
      → is_waiting w.dev (env.monotonic_ms w.trace) ≡ false
      → env.cloud_connect (asking w) ≡ pos 0
      → supla_dev_iterate env w ≡ some (refusal w, 0)
  unfolding supla_dev_iterate switch_state case_init after_switch refusal
  first w s free refused = rw (free, s, refused) refl

  second :
      (ms : ℕ) (u : World)
      → u.dev.wait_iterate_msec ≡ 5000
      → u.dev.iterate_time_msec ≡ ms
      → ms ≤ env.monotonic_ms u.trace
      → env.monotonic_ms u.trace < ms + 5000
      → env.monotonic_ms u.trace < 2 ^ 64
      → supla_dev_iterate env u ≡ some (with_uptime (emit u clock_read) (env.now u.trace), 0)
  unfolding supla_dev_iterate
  second ms u h k a b c = rw (waits ms (env.monotonic_ms u.trace) u h k a b c) refl

  -- The world after n rounds that do nothing but note the time.
  unfoldable pub times_noted : ℕ → World → World
  times_noted zero w = w
  times_noted (suc n) w =
      let u = times_noted n w in with_uptime (emit u clock_read) (env.now u.trace)

  -- what such rounds leave alone
  record Untouched (w u : World) : Type 0 where
    state : u.dev.state ≡ w.dev.state
    wait : u.dev.wait_iterate_msec ≡ w.dev.wait_iterate_msec
    since : u.dev.iterate_time_msec ≡ w.dev.iterate_time_msec

  times_noted-Untouched : (n : ℕ) (w : World) → Untouched w (times_noted n w)
  unfolding times_noted
  times_noted-Untouched zero w = record { state = refl; wait = refl; since = refl }
  times_noted-Untouched (suc n) w =
      let same = times_noted-Untouched n w in
      record { state = same.state; wait = same.wait; since = same.since }

  -- The first n readings of the clock after w are less than 5000 milliseconds after ms.
  abbrev pub AllSoon : ℕ → ℕ → World → Type 0
  AllSoon ms n w =
      (k : ℕ)
      → k < n
      → (ms ≤ env.monotonic_ms (times_noted k w).trace)
        × (env.monotonic_ms (times_noted k w).trace < ms + 5000)
        × (env.monotonic_ms (times_noted k w).trace < 2 ^ 64)

  rounds-noted :
      (ms n : ℕ) (w : World)
      → w.dev.wait_iterate_msec ≡ 5000
      → w.dev.iterate_time_msec ≡ ms
      → AllSoon ms n w
      → rounds env n w ≡ some (times_noted n w)
  unfolding times_noted rounds
  rounds-noted ms zero w h k soon = refl
  rounds-noted ms (suc n) w h k soon =
      let same = times_noted-Untouched n w in
      let (a, b, c) = soon n (omega arith) in
      rounds-suc env n w (times_noted n w) _ 0
        (rounds-noted ms n w h k (λ i lt. soon i (omega (arith, lt))))
        (second ms (times_noted n w) (same.wait ∙ h) (same.since ∙ k) a b c)

  -- A round in INIT, with no delay under way, that is refused a connection leaves the device in INIT.
  -- Any number of rounds after it, each less than 5000 milliseconds later by a clock that does not run
  -- backwards and counts in 64 bits, do nothing but note the time, and the device stays in INIT.
  pub supla_dev_iterate-backs_off :
      (w w' : World) (rc n : ℕ)
      → w.dev.state ≡ init
      → is_waiting w.dev (env.monotonic_ms w.trace) ≡ false
      → env.cloud_connect (asking w) ≡ pos 0
      → supla_dev_iterate env w ≡ some (w', rc)
      → AllSoon (env.monotonic_ms w.trace) n w'
      → (rounds env n w' ≡ some (times_noted n w')) × ((times_noted n w').dev.state ≡ init)
  supla_dev_iterate-backs_off w w' rc n s free refused e soon =
      let same = some-injective (refusal w, 0) (w', rc) (sym (first w s free refused) ∙ e) in
      (
        rounds-noted (env.monotonic_ms w.trace) n w'
            (subst (λ x. x.0.dev.wait_iterate_msec ≡ 5000) same (unfold refusal in refl))
            (subst (λ x. x.0.dev.iterate_time_msec ≡ env.monotonic_ms w.trace) same
              (unfold refusal in refl))
            soon,
        (times_noted-Untouched n w').state
            ∙ subst (λ x. x.0.dev.state ≡ init) same (unfold refusal in s),
      )
