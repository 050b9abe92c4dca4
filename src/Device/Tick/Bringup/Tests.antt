-- ===== src/Device/Tick/Bringup/Tests.antt =====
-- A device that comes online, at concrete inputs.
use libsupla.Prelude.{
  some-injective, ◌∙◌, sym, ℕ, zero, suc, ◌<◌, ◌==◌, ◌||◌, subst, ◌≡◌, refl, true, false, some, [],
  ◌∷◌, arith, if◌then◌else◌, Bool-cases, inl, inr,
}
use libsupla.Channel.Create.{kind}
use libsupla.Wire.{register_device_result}
use libsupla.Env.{
  Env, Trace, received, nothing, init, online, called, state_changed, disconnected, connecting,
  input_polled, clock_read, output_flushed, restart_requested, time_offered, channel_called_back,
}
use libsupla.Device.{World}
use libsupla.Device.Access.{new_device}
use libsupla.Device.Channels.Keeping.{IsFit}
use libsupla.Device.Handlers.Effects.{accepted, input_accepts, is_acceptance}
use libsupla.Device.Tick.{is_waiting}
use libsupla.Device.Tick.Asking.{polls}
use libsupla.Device.Tick.Bringup.{waiting_round, comes_online}
use libsupla.Device.Tick.Welcome.{Welcomes, IsSoon}
use libsupla.Device.Tick.Use.{rounds, rounds-first}
use libsupla.Device.Tick.Alive.Recovery.{recovers, gives_up-ready}
use libsupla.Prelude.Int.{pos, ◌-ℤ◌, ◌+ℤ◌}
use libsupla.Samples.{bare, thermometer, world_in, calm, acceptance}

-- the server lets one poll pass, and accepts the device at the next
abbrev welcoming : Env
welcoming = record calm {
  now = λ tr. pos 1000;
  input =
      λ tr. if polls tr == 1 then received (some (register_device_result acceptance)) else nothing;
}

accepted-polls : (tr : Trace) → accepted welcoming tr ≡ true → 1 < polls tr
unfolding accepted polls input_accepts is_acceptance
accepted-polls [] e = ground arith
accepted-polls (input_polled ∷ tr) e = elim (Bool-cases (polls tr == 1)) [
  | inl b ↦ ground (arith, b)
  | inr b ↦
      (let later : 1 < polls tr = accepted-polls tr (
          subst
            (λ c.
              input_accepts
                  (if c then received (some (register_device_result acceptance)) else nothing)
                || accepted welcoming tr
              ≡ true)
            b e) in
        omega (arith, later))
]
accepted-polls (connecting host port ssl ∷ tr) e = ground arith
accepted-polls (called c ∷ tr) e = accepted-polls tr e
accepted-polls (state_changed s ∷ tr) e = accepted-polls tr e
accepted-polls (disconnected ∷ tr) e = accepted-polls tr e
accepted-polls (output_flushed ∷ tr) e = accepted-polls tr e
accepted-polls (clock_read ∷ tr) e = accepted-polls tr e
accepted-polls (restart_requested ∷ tr) e = accepted-polls tr e
accepted-polls (time_offered t ∷ tr) e = accepted-polls tr e
accepted-polls (channel_called_back n ∷ tr) e = accepted-polls tr e

welcoming-Welcomes : Welcomes welcoming acceptance 1
welcoming-Welcomes = record {
  acceptance = refl;
  connects = λ tr. refl;
  output = λ tr. refl;
  before = λ tr lt. ground arith;
  at_last = λ tr e. ground arith;
  afterwards = λ tr e. (let later = accepted-polls tr e in ground arith);
}

-- The clock stands still.
IsSoon-waiting :
    (w : World)
    → w.dev.state ≡ init
    → is_waiting w.dev (welcoming.monotonic_ms w.trace) ≡ false
    → IsFit w
    → (u : World) → rounds welcoming 1 w ≡ some u
    → IsSoon welcoming u
unfolding ◌-ℤ◌
IsSoon-waiting w s free fit u e =
    let (v, f, c) =
      waiting_round welcoming acceptance 1 welcoming-Welcomes w s free fit (omega arith) in
    let (tr, at) = c.noted in subst (IsSoon welcoming) (some-injective v u (sym f ∙ e)) (rw at refl)

world_in-IsFit : IsFit (world_in init)
unfolding kind
world_in-IsFit = record {
  numbered = (refl, tt);
  small = omega arith;
  good = ((record { value = refl; extvalue = refl; at = refl; sized = refl }, λ e. cc), tt);
}

world_in-IsSoon :
    (i : ℕ) (u : World)
    → i < 1
    → rounds welcoming (suc i) (world_in init) ≡ some u
    → IsSoon welcoming u
unfolding new_device
world_in-IsSoon zero u lt e = IsSoon-waiting (world_in init) refl refl world_in-IsFit u e
world_in-IsSoon (suc i) u lt e = absurd (omega (arith, lt))

comes_online_example :
    (w' : World) × (rounds welcoming 3 (world_in init) ≡ some w') × (w'.dev.state ≡ online)
unfolding new_device
comes_online_example =
    comes_online welcoming acceptance 1 welcoming-Welcomes (world_in init) refl refl world_in-IsFit
      world_in-IsSoon

-- a device whose server has been silent for 950 seconds, with a timeout of two minutes
abbrev forgotten : World
forgotten = record {
  dev = record bare { state = online; last_resp = pos 50; channels = thermometer ∷ [] };
  trace = [];
}

forgotten-IsFit : IsFit forgotten
unfolding kind
forgotten-IsFit = record {
  numbered = (refl, tt);
  small = omega arith;
  good = ((record { value = refl; extvalue = refl; at = refl; sized = refl }, λ e. cc), tt);
}

forgotten-IsSoon :
    (i : ℕ) (u : World)
    → i < 1
    → rounds welcoming (suc (suc i)) forgotten ≡ some u
    → IsSoon welcoming u
unfolding new_device ◌-ℤ◌ ◌+ℤ◌
forgotten-IsSoon zero u lt e =
    let (out, f, s, free, fit) =
      gives_up-ready welcoming forgotten refl refl refl forgotten-IsFit in
    IsSoon-waiting out.0 s free fit u (sym (rounds-first welcoming 1 forgotten out.0 out.1 f) ∙ e)
forgotten-IsSoon (suc i) u lt e = absurd (omega (arith, lt))

recovers_example : (w' : World) × (rounds welcoming 4 forgotten ≡ some w') × (w'.dev.state ≡ online)
unfolding new_device ◌-ℤ◌ ◌+ℤ◌
recovers_example =
    recovers welcoming acceptance 1 forgotten welcoming-Welcomes refl refl refl forgotten-IsFit
      forgotten-IsSoon
