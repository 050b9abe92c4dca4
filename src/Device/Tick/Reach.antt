-- ===== src/Device/Tick/Reach.antt =====
-- The calls of src/device.c that change the state of a device, in any order.
use libsupla.Prelude.{ℕ, ◌≡◌, refl, Option, some, false, Bool-cases, inl, inr, ◌==◌, Bytes, []}
use libsupla.Prelude.Int.{ℤ}
use libsupla.Env.{Env, DevState, config, idle, init}
use libsupla.Device.{Device, World, state_code, supla_dev_set_state}
use libsupla.Device.Access.{
  new_device, supla_dev_start, supla_dev_stop, supla_dev_enter_config_mode,
  supla_dev_exit_config_mode,
}
use libsupla.Device.Tick.Serving.{set_state-state, is_up, IsAccepted, not_up}
use libsupla.Device.Tick.Lifecycle.{supla_dev_iterate-IsAccepted}
use libsupla.Device.Tick.{supla_dev_iterate}

module _ (env : Env) where
  -- One call: a round, a call that asks for another state, or one that leaves the state alone, which
  -- may change the rest of the device in any way.
  pub data Step : World → World → Type 0 where
    iterates : (w w' : World) (rc : ℕ) → supla_dev_iterate env w ≡ some (w', rc) → Step w w'
    starts : (w : World) → Step w (supla_dev_start w).0
    stops : (w : World) → Step w (supla_dev_stop w).0
    enters_config : (w : World) → Step w (supla_dev_enter_config_mode w).0
    exits_config : (w : World) → Step w (supla_dev_exit_config_mode w).0
    edits : (w : World) (dev : Device) → dev.state ≡ w.dev.state → Step w (record w { dev = dev })

  -- What a device that has just been created can come to.
  pub data Reach : World → Type 0 where
    created :
        (self : ℕ) (name soft_ver : Option Bytes) (default : Bytes) (now : ℤ)
        → Reach (record { dev = new_device self name soft_ver default now; trace = [] })
    then_does : (w w' : World) → Reach w → Step w w' → Reach w'

  IsAccepted-set_down :
      (w : World) (s : DevState) → is_up s ≡ false → IsAccepted env (supla_dev_set_state w s)
  IsAccepted-set_down w s h = not_up env (supla_dev_set_state w s) s h (set_state-state w s)

  IsAccepted-start : (w : World) → IsAccepted env w → IsAccepted env (supla_dev_start w).0
  unfolding supla_dev_start is_up
  IsAccepted-start w h = elim (Bool-cases (state_code w.dev.state == state_code idle)) [
    | inl b ↦ simp b (IsAccepted-set_down w init refl)
    | inr b ↦ simp b h
  ]

  IsAccepted-exit : (w : World) → IsAccepted env w → IsAccepted env (supla_dev_exit_config_mode w).0
  unfolding supla_dev_exit_config_mode is_up
  IsAccepted-exit w h = elim (Bool-cases (state_code w.dev.state == state_code config)) [
    | inl b ↦ simp b (IsAccepted-set_down w idle refl)
    | inr b ↦ simp b h
  ]

  IsAccepted-edit :
      (w : World) (dev : Device)
      → dev.state ≡ w.dev.state
      → IsAccepted env w
      → IsAccepted env (record w { dev = dev })
  unfolding IsAccepted
  IsAccepted-edit w dev e h = rw (e) h

  IsAccepted-Step : (w w' : World) → Step w w' → IsAccepted env w → IsAccepted env w'
  unfolding supla_dev_stop supla_dev_enter_config_mode is_up
  IsAccepted-Step _ _ (iterates w w' rc e) h = supla_dev_iterate-IsAccepted env w (w', rc) h e
  IsAccepted-Step _ _ (starts w) h = IsAccepted-start w h
  IsAccepted-Step _ _ (stops w) h = IsAccepted-set_down w idle refl
  IsAccepted-Step _ _ (enters_config w) h = IsAccepted-set_down w config refl
  IsAccepted-Step _ _ (exits_config w) h = IsAccepted-exit w h
  IsAccepted-Step _ _ (edits w dev e) h = IsAccepted-edit w dev e h

  -- Whatever calls have been made on a device since its creation, it is in REGISTERED or ONLINE only
  -- if the server has accepted it since the last attempt to connect.
  pub Reach-IsAccepted : (w : World) → Reach w → IsAccepted env w
  unfolding IsAccepted new_device is_up
  Reach-IsAccepted _ (created self name soft_ver default now) = refl
  Reach-IsAccepted _ (then_does w w' r s) = IsAccepted-Step w w' s (Reach-IsAccepted w r)
