-- ===== src/Device/Handlers/Clock.antt =====
-- The clock of the device may jump when the server's time comes in; the two uptimes do not.
use libsupla.Prelude.{◌≡◌, refl, true}
use libsupla.Prelude.Int.{ℤ, pos, ◌-ℤ◌, int_laws}
use libsupla.Wire.{LocalTime}
use libsupla.Env.{Env}
use libsupla.Device.{World}
use libsupla.Device.Handlers.{supla_dev_on_get_user_localtime_result}

sub_sub : (n u : ℤ) → n -ℤ (n -ℤ u) ≡ u
sub_sub n u = omega int_laws

-- After the program's callback has taken the server's time with the result 0, the uptime and the
-- connection's uptime, reckoned from the new time on the clock, are what they were, and that time
-- counts as the last ping and the last response; the channels and the state stay.
pub supla_dev_on_get_user_localtime_result_lem :
    (env : Env) (w : World) (lt : LocalTime)
    → w.dev.on_server_time_sync ≡ true
    → env.on_server_time_sync w.trace lt ≡ pos 0
    → let w' = supla_dev_on_get_user_localtime_result env w lt in
      let now = env.now w'.trace in
      (now -ℤ w'.dev.init_time ≡ w.dev.uptime)
      × (now -ℤ w'.dev.register_time ≡ w.dev.connection_uptime)
      × (w'.dev.last_ping ≡ now)
      × (w'.dev.last_resp ≡ now)
      × (w'.dev.state ≡ w.dev.state)
      × (w'.dev.channels ≡ w.dev.channels)
unfolding supla_dev_on_get_user_localtime_result
supla_dev_on_get_user_localtime_result_lem env w lt set taken =
    rw (set, taken) (sub_sub _ _, sub_sub _ _, refl, refl, refl, refl)
