-- ===== src/Device/Announcements.antt =====
-- What the callback `on_state_change` of src/device.c has told the program.
use libsupla.Prelude.{◌≡◌, ◌⊎◌, false, [], refl, inl, arith, ◌∷◌}
use libsupla.Env.{
  Trace, DevState, idle, called, state_changed, disconnected, connecting, input_polled, clock_read,
  output_flushed, restart_requested, time_offered, channel_called_back,
}
use libsupla.Device.{World, supla_dev_set_state}

-- The state that the program was told last; a device starts in IDLE.
unfoldable pub told : Trace → DevState
told [] = idle
told (state_changed s ∷ tr) = s
told (called c ∷ tr) = told tr
told (disconnected ∷ tr) = told tr
told (connecting host port ssl ∷ tr) = told tr
told (input_polled ∷ tr) = told tr
told (output_flushed ∷ tr) = told tr
told (clock_read ∷ tr) = told tr
told (restart_requested ∷ tr) = told tr
told (time_offered t ∷ tr) = told tr
told (channel_called_back n ∷ tr) = told tr

-- The callback stays as it is, and the state too if nothing is told; if there is a callback, it is
-- told of a change.
abbrev pub Tells : World → World → Type 0
Tells w w' =
    (w'.dev.on_state_change ≡ w.dev.on_state_change)
    × (((told w'.trace ≡ told w.trace) × (w'.dev.state ≡ w.dev.state))
        ⊎ ((told w'.trace ≡ w'.dev.state) ⊎ (w.dev.on_state_change ≡ false)))

pub Tells-refl : (w : World) → Tells w w
Tells-refl w = (refl, inl (refl, refl))

pub Tells-trans : (u v w : World) → Tells u v → Tells v w → Tells u w
Tells-trans u v w h k = ground arith

pub Tells-set_state : (w : World) (s : DevState) → Tells w (supla_dev_set_state w s)
unfolding supla_dev_set_state told
Tells-set_state w s = ground arith

pub Tells-sets : (u w : World) (s : DevState) → Tells u w → Tells u (supla_dev_set_state w s)
Tells-sets u w s h = Tells-trans u w (supla_dev_set_state w s) h (Tells-set_state w s)
