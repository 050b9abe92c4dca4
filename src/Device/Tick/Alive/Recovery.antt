-- ===== src/Device/Tick/Alive/Recovery.antt =====
-- A device of src/device.c that lost its server comes back.
use libsupla.Prelude.{ℕ, suc, ◌≡◌, ◌∙◌, some, true, false, ◌∷◌, arith, subst, sym, length, ◌<◌, All}
use libsupla.Wire.{RegisterResult}
use libsupla.Env.{Env, init, online, clock_read}
use libsupla.Device.{World}
use libsupla.Device.Channels.Keeping.{IsFit}
use libsupla.Device.Channels.Numbering.{NumberedFrom}
use libsupla.Device.Register.Collect.{IsRegistrable}
use libsupla.Device.Online.Alive.{is_silent}
use libsupla.Device.Tick.{is_waiting, supla_dev_iterate}
use libsupla.Device.Tick.Alive.{gives_up}
use libsupla.Device.Tick.Use.{rounds, rounds-first}
use libsupla.Device.Tick.Bringup.{comes_online}
use libsupla.Device.Tick.Welcome.{Welcomes, IsSoon}

-- The round that gives the server up leaves a device that `comes_online` can bring back.
pub gives_up-ready :
    (env : Env) (w : World)
    → w.dev.state ≡ online
    → is_waiting w.dev (env.monotonic_ms w.trace) ≡ false
    → is_silent w (env.now (clock_read ∷ w.trace)) ≡ true
    → IsFit w
    → (out : World × ℕ) × (supla_dev_iterate env w ≡ some out)
      × (out.0.dev.state ≡ init)
      × (is_waiting out.0.dev (env.monotonic_ms out.0.trace) ≡ false)
      × IsFit out.0
gives_up-ready env w s free silent fit =
    let (out, e, lost) = gives_up env w s free silent in
    (
      out,
      e,
      lost.state,
      ground (arith, lost.delay),
      record {
        numbered = subst (NumberedFrom 0) (sym lost.channels) fit.numbered;
        small = subst (λ chs. length chs < 256) (sym lost.channels) fit.small;
        good = subst (All IsRegistrable) (sym lost.channels) fit.good;
      },
    )

-- Suppose that connections succeed, that all output is taken, and that after each attempt to connect
-- the first `late` polls bring nothing and the next one brings the server's acceptance, after which
-- polls bring nothing. Then a device in ONLINE with no delay under way, whose server has been silent
-- for too long, and with a list of channels as `comes_online` wants it, is in ONLINE again after
-- `late` + 3 rounds, provided that each of the `late` rounds from the second on is followed by the next
-- within ten seconds of the registration call.
pub recovers :
    (env : Env) (r : RegisterResult) (late : ℕ) (w : World)
    → Welcomes env r late
    → w.dev.state ≡ online
    → is_waiting w.dev (env.monotonic_ms w.trace) ≡ false
    → is_silent w (env.now (clock_read ∷ w.trace)) ≡ true
    → IsFit w
    → ((i : ℕ) (u : World) → i < late → rounds env (suc (suc i)) w ≡ some u → IsSoon env u)
    → (w' : World) × (rounds env (suc (suc (suc late))) w ≡ some w') × (w'.dev.state ≡ online)
recovers env r late w welcome s free silent fit soon =
    let (out, e, s', free', fit') = gives_up-ready env w s free silent fit in
    let (w', f, on) =
      comes_online env r late welcome out.0 s' free' fit'
        (λ i u lt g. soon i u lt (rounds-first env (suc i) w out.0 out.1 e ∙ g)) in
    (w', rounds-first env (suc (suc late)) w out.0 out.1 e ∙ f, on)
