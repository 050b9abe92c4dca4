-- ===== src/Device/Online/Alive.antt =====
-- `supla_connection_ping` of src/device.c: when it gives the connection up.
use libsupla.Prelude.{◌≡◌, refl, Bool, ◌&&◌, arith, not, Bool-cases, inl, inr}
use libsupla.Prelude.Int.{ℤ, pos, ◌+ℤ◌, ◌-ℤ◌, leb_ℤ, eqb_ℤ}
use libsupla.Env.{Env}
use libsupla.Device.{World}
use libsupla.Device.Online.{ping_if_due, supla_connection_ping}

-- There is a timeout, and the last message of the server is at least that and ten seconds old.
abbrev pub is_silent : World → ℤ → Bool
is_silent w now =
    not (eqb_ℤ w.dev.activity_timeout (pos 0))
    && leb_ℤ (w.dev.activity_timeout +ℤ pos 10) (now -ℤ w.dev.last_resp)

module _ (env : Env) where
  ping_if_due-last_resp :
      (w : World) (t : ℤ) → (ping_if_due env w t).dev.last_resp ≡ w.dev.last_resp
  unfolding ping_if_due
  ping_if_due-last_resp w t = ground arith

  ping_if_due-timeout :
      (w : World) (t : ℤ) → (ping_if_due env w t).dev.activity_timeout ≡ w.dev.activity_timeout
  unfolding ping_if_due
  ping_if_due-timeout w t = ground arith

  pub ping_lem : (w : World) → (supla_connection_ping env w).1 ≡ not (is_silent w (env.now w.trace))
  unfolding supla_connection_ping
  ping_lem w = elim (Bool-cases (eqb_ℤ w.dev.activity_timeout (pos 0))) [
    | inl e ↦ simp e refl
    | inr e ↦
        simp (e, ping_if_due-last_resp w (env.now w.trace), ping_if_due-timeout w (env.now w.trace))
          refl
  ]

  pub ping-channels : (w : World) → (supla_connection_ping env w).0.dev.channels ≡ w.dev.channels
  unfolding supla_connection_ping
  ping-channels w = ground arith
