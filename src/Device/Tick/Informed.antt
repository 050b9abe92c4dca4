-- ===== src/Device/Tick/Informed.antt =====
-- A program that follows the state of its device by the callback of src/device.c.
use libsupla.Prelude.{
  ℕ, ◌≡◌, ◌∙◌, refl, sym, Option, true, Bool-cases, inl, inr, arith, ◌==◌, Bytes, [],
}
use libsupla.Prelude.Int.{ℤ}
use libsupla.Env.{Env, config, idle, init}
use libsupla.Device.{World, state_code}
use libsupla.Device.Access.{
  new_device, supla_dev_set_state_changed_callback, supla_dev_start, supla_dev_stop,
  supla_dev_enter_config_mode, supla_dev_exit_config_mode,
}
use libsupla.Device.Announcements.{told, Tells, Tells-refl, Tells-set_state}
use libsupla.Device.Tick.Announcing.{Tells-iterate}
use libsupla.Device.Tick.Reach.{Step, iterates, starts, stops, enters_config, exits_config, edits}

module _ (env : Env) where
  -- What a device can come to whose program sets the callback when it has created the device, and
  -- leaves it set.
  pub data Followed : World → Type 0 where
    created :
        (self : ℕ) (name soft_ver : Option Bytes) (default : Bytes) (now : ℤ)
        → Followed (record {
          dev =
              (supla_dev_set_state_changed_callback
                (new_device self name soft_ver default now)
                true).0;
          trace = [];
        })
    then_does :
        (w w' : World) → Followed w → Step env w w' → w'.dev.on_state_change ≡ true → Followed w'

  HasCallback : World → Type 0
  HasCallback w = w.dev.on_state_change ≡ true

  IsTold : World → Type 0
  IsTold w = told w.trace ≡ w.dev.state

  IsTold-Tells : (w w' : World) → Tells w w' → HasCallback w → IsTold w → IsTold w'
  unfolding IsTold HasCallback
  IsTold-Tells w w' t c h = ground (arith, t)

  Tells-start : (w : World) → Tells w (supla_dev_start w).0
  unfolding supla_dev_start
  Tells-start w = elim (Bool-cases (state_code w.dev.state == state_code idle)) [
    | inl b ↦ simp b (Tells-set_state w init)
    | inr b ↦ simp b (Tells-refl w)
  ]

  Tells-exit : (w : World) → Tells w (supla_dev_exit_config_mode w).0
  unfolding supla_dev_exit_config_mode
  Tells-exit w = elim (Bool-cases (state_code w.dev.state == state_code config)) [
    | inl b ↦ simp b (Tells-set_state w idle)
    | inr b ↦ simp b (Tells-refl w)
  ]

  IsTold-Step : (w w' : World) → Step env w w' → HasCallback w → IsTold w → IsTold w'
  unfolding supla_dev_stop supla_dev_enter_config_mode
  IsTold-Step _ _ (iterates w w' rc e) c h = IsTold-Tells w w' (Tells-iterate env w (w', rc) e) c h
  IsTold-Step _ _ (starts w) c h = IsTold-Tells w _ (Tells-start w) c h
  IsTold-Step _ _ (stops w) c h = IsTold-Tells w _ (Tells-set_state w idle) c h
  IsTold-Step _ _ (enters_config w) c h = IsTold-Tells w _ (Tells-set_state w config) c h
  IsTold-Step _ _ (exits_config w) c h = IsTold-Tells w _ (Tells-exit w) c h
  IsTold-Step _ _ (edits w dev e) c h = unfold IsTold in (h ∙ sym e)

  Followed-HasCallback : (w : World) → Followed w → HasCallback w
  unfolding HasCallback supla_dev_set_state_changed_callback
  Followed-HasCallback _ (created self name soft_ver default now) = refl
  Followed-HasCallback _ (then_does w w' f s c) = c

  Followed-IsTold : (w : World) → Followed w → IsTold w
  unfolding IsTold told supla_dev_set_state_changed_callback new_device
  Followed-IsTold _ (created self name soft_ver default now) = refl
  Followed-IsTold _ (then_does w w' f s c) =
      IsTold-Step w w' s (Followed-HasCallback w f) (Followed-IsTold w f)

  -- A program that sets the callback on the state when it has created the device, and leaves it set,
  -- has been told the device's state by the latest call of it, whatever calls have been made; before
  -- the first call the device is in IDLE.
  pub Followed-told : (w : World) → Followed w → told w.trace ≡ w.dev.state
  unfolding IsTold
  Followed-told w f = Followed-IsTold w f
