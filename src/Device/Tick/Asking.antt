-- ===== src/Device/Tick/Asking.antt =====
-- The registration call of a round in INIT of src/device.c: nothing delays the device, and the
-- connection is not polled.
use libsupla.Prelude.{
  ℕ, suc, [], ◌∷◌, ◌≡◌, ◌≢◌, ◌∙◌, refl, Option, none, some, List, Bool-cases, inl, inr, arith,
}
use libsupla.Prelude.Int.{ℤ, pos, eqb_ℤ}
use libsupla.Channel.{Channel}
use libsupla.Channel.Register.{DeviceChannel}
use libsupla.Env.{
  Env, DevState, Trace, init, connected, called, state_changed, disconnected, connecting,
  input_polled, clock_read, output_flushed, restart_requested, time_offered, channel_called_back,
}
use libsupla.Device.{World, supla_dev_set_state}
use libsupla.Device.Channels.Keeping.{IsFit}
use libsupla.Device.Register.{supla_dev_register}
use libsupla.Device.Register.Collect.{
  registered_by, register_all, supla_dev_register_lem, register_all-IsRegistrable,
}
use libsupla.Device.Tick.{breaks, after_register}
use libsupla.Device.Tick.Serving.{set_state-state}

wait-set_state :
    (w : World) (s : DevState)
    → (supla_dev_set_state w s).dev.wait_iterate_msec ≡ w.dev.wait_iterate_msec
unfolding supla_dev_set_state
wait-set_state w s = ground arith

register_time-set_state :
    (w : World) (s : DevState) → (supla_dev_set_state w s).dev.register_time ≡ w.dev.register_time
unfolding supla_dev_set_state
register_time-set_state w s = ground arith

-- How often the connection was polled since the last attempt to connect.
unfoldable pub polls : Trace → ℕ
polls [] = 0
polls (input_polled ∷ tr) = suc (polls tr)
polls (connecting host port ssl ∷ tr) = 0
polls (called c ∷ tr) = polls tr
polls (state_changed s ∷ tr) = polls tr
polls (disconnected ∷ tr) = polls tr
polls (output_flushed ∷ tr) = polls tr
polls (clock_read ∷ tr) = polls tr
polls (restart_requested ∷ tr) = polls tr
polls (time_offered t ∷ tr) = polls tr
polls (channel_called_back n ∷ tr) = polls tr

pub polls-set_state :
    (w : World) (s : DevState) → polls (supla_dev_set_state w s).trace ≡ polls w.trace
unfolding polls supla_dev_set_state
polls-set_state w s = ground arith

module _ (env : Env) where
  -- No delay is asked for, and the connection has not been polled yet.
  pub record Asking (w : World) : Type 0 where
    pub wait : w.dev.wait_iterate_msec ≡ 0
    pub unpolled : polls w.trace ≡ 0

  -- The time of the registration call is one that the clock showed.
  abbrev pub IsNoted : World → Type 0
  IsNoted w = (tr : Trace) × (w.dev.register_time ≡ env.now tr)

  Asking-set_state : (w : World) (s : DevState) → Asking w → Asking (supla_dev_set_state w s)
  Asking-set_state w s a = record {
    wait = wait-set_state w s ∙ a.wait;
    unpolled = polls-set_state w s ∙ a.unpolled;
  }

  IsNoted-set_state : (w : World) (s : DevState) → IsNoted w → IsNoted (supla_dev_set_state w s)
  IsNoted-set_state w s (tr, e) = (tr, register_time-set_state w s ∙ e)

  Asking-registered_by :
      (w : World) (r : Option (List DeviceChannel × List Channel))
      → r ≢ none
      → Asking w
      → (out : World × ℤ) × (registered_by env w r ≡ some out) × Asking out.0 × IsNoted out.0
  unfolding registered_by polls
  Asking-registered_by w none h a = absurd (h refl)
  Asking-registered_by w (some (ds, chs)) h a =
      (_, refl, record { wait = a.wait; unpolled = a.unpolled }, (w.trace, refl))

  pub Asking-register :
      (w : World)
      → IsFit w
      → Asking w
      → (out : World × ℤ) × (supla_dev_register env w ≡ some out) × Asking out.0 × IsNoted out.0
  Asking-register w fit a = elim (Bool-cases (env.register_allowed w.trace)) [
    | inl b ↦
        let (out, e, a', t) =
          Asking-registered_by w (register_all env.holds w.dev.channels)
            (register_all-IsRegistrable env.holds w.dev.channels fit.good) a in
        (out, supla_dev_register_lem env w fit.numbered fit.small b ∙ e, a', t)
    | inr b ↦ (
      (record w { dev = record w.dev { register_time = env.now w.trace } }, pos 0),
      unfold supla_dev_register in simp b refl,
      record { wait = a.wait; unpolled = a.unpolled },
      (w.trace, refl),
    )
  ]

  pub Asking-after_register :
      (out : World × ℤ)
      → Asking out.0
      → IsNoted out.0
      → (u : World) × (after_register env (some out) ≡ some (breaks u))
        × Asking u
        × (u.dev.state ≡ connected)
        × IsNoted u
  unfolding after_register
  Asking-after_register (v, result) a t = (
    _,
    refl,
    Asking-set_state _ connected (elim (Bool-cases (eqb_ℤ result (pos 0))) [
      | inl b ↦ simp b (Asking-set_state v init a)
      | inr b ↦ simp b a
    ]),
    set_state-state _ connected,
    IsNoted-set_state _ connected (elim (Bool-cases (eqb_ℤ result (pos 0))) [
      | inl b ↦ simp b (IsNoted-set_state v init t)
      | inr b ↦ simp b t
    ]),
  )
