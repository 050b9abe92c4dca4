-- ===== src/Device/Tick.antt =====
-- `supla_dev_iterate` of src/device.c: one round of the device's state machine. A result of `none`
-- is a fault of the registration.
pub mod Serving
pub mod Lifecycle
pub mod Transitions
pub mod Reach
pub mod Progress
pub mod Registered
pub mod Asking
pub mod Bringup
pub mod Welcome
pub mod Slot
pub mod Connection
pub mod Announcing
pub mod Informed
pub mod Alive
pub mod Use
pub mod Keeping
mod Tests
pub mod Backoff
pub mod Faults
use libsupla.Prelude.{
  ℕ, ◌+◌, ◌-◌, ◌%◌, ◌^◌, Bool, true, false, ◌&&◌, Option, none, some, ◌==◌, ltb, if◌then◌else◌, not,
}
use libsupla.Prelude.Int.{ℤ, pos, ◌-ℤ◌, eqb_ℤ, leb_ℤ}
use libsupla.Value.{result_true, result_false}
use libsupla.Env.{
  Env, DevState, Input, failed, nothing, received, disconnected, connecting, input_polled,
  clock_read, output_flushed, config, idle, init, connected, registered, online,
}
use libsupla.Device.{
  Device, World, emit, supla_dev_set_state, supla_dev_set_iterate_delay_msec,
  supla_dev_set_connection_reset_cause, SuplaConfig,
}
use libsupla.Device.Handlers.Messages.{supla_dev_on_remote_call_received}
use libsupla.Device.Register.{supla_dev_register}
use libsupla.Device.Online.{
  supla_dev_time_sync, supla_dev_set_channel_captions, supla_dev_get_channel_functions,
  supla_dev_sync_channel_configurations, supla_dev_register_push_notifications,
  supla_dev_sync_channels_data, supla_connection_ping,
}

-- SUPLA_LASTCONNECTIONRESETCAUSE_ACTIVITY_TIMEOUT, _SERVER_CONNECTION_LOST
abbrev pub cause_activity_timeout : ℕ
cause_activity_timeout = 1

abbrev pub cause_connection_lost : ℕ
cause_connection_lost = 3

-- How the switch on the state ends: by a return with a result, or by a break.
pub data Switch : Type 0 where
  returns : World → ℕ → Switch
  breaks : World → Switch

-- the world in which the switch ends
abbrev pub ends : Switch → World
ends (returns w rc) = w
ends (breaks w) = w

-- uint64_t subtraction
abbrev pub sub64 : ℕ → ℕ → ℕ
sub64 a b = (a + 2 ^ 64 - b) % 2 ^ 64

-- the port of the configuration, or the default one
abbrev pub port_of : SuplaConfig → ℤ
port_of c = if eqb_ℤ c.port (pos 0) then (if c.ssl == 0 then pos 2015 else pos 2016) else c.port

-- The delay that an earlier failure asked for is not over.
abbrev pub is_waiting : Device → ℕ → Bool
is_waiting dev ms =
    not (dev.wait_iterate_msec == 0) && ltb (sub64 ms dev.iterate_time_msec) dev.wait_iterate_msec

-- the two times that every round takes note of
abbrev pub with_uptime : World → ℤ → World
with_uptime w sys_time = record w { dev = record w.dev { uptime = sys_time -ℤ w.dev.init_time } }

abbrev pub begin_round : World → ℕ → World
begin_round w ms = record w { dev = record w.dev { wait_iterate_msec = 0; iterate_time_msec = ms } }

module _ (env : Env) where
  -- `srpc_iterate`: input, the handling of what was received, output.
  pub after_input : World → Input → World × Bool
  after_input w failed = (w, false)
  after_input w nothing = (emit w output_flushed, env.output w.trace)
  after_input w (received m) =
      let w' = supla_dev_on_remote_call_received env w m in
      (emit w' output_flushed, env.output w'.trace)

  unfoldable pub srpc_iterate : World → World × Bool
  unfolding after_input
  srpc_iterate w = after_input (emit w input_polled) (env.input w.trace)

  -- SUPLA_DEV_STATE_INIT with a connection: the result of the registration is only logged.
  pub after_register : Option (World × ℤ) → Option Switch
  after_register none = none
  after_register (some (w, result)) =
      let w' = if eqb_ℤ result (pos 0) then supla_dev_set_state w init else w in
      some (breaks (supla_dev_set_state w' connected))

  -- `case SUPLA_DEV_STATE_INIT`
  unfoldable pub case_init : World → Option Switch
  unfolding after_register
  case_init w =
      let w1 = record w {
        dev = record w.dev { register_time = pos 0; last_ping = pos 0; last_resp = pos 0 };
      } in
      let cfg = w1.dev.supla_config in
      let w2 = emit (emit w1 disconnected) (connecting cfg.server (port_of cfg) cfg.ssl) in
      if eqb_ℤ (env.cloud_connect w2.trace) (pos 0)
      then some (returns (supla_dev_set_iterate_delay_msec w2 5000) result_false)
      else after_register (supla_dev_register env w2)

  -- `case SUPLA_DEV_STATE_CONNECTED`, with the time at the start of the round
  unfoldable pub case_connected : World → ℤ → Switch
  case_connected w sys_time =
      if leb_ℤ (sys_time -ℤ w.dev.register_time) (pos 10)
      then breaks w
      else breaks
          (supla_dev_set_state (supla_dev_set_connection_reset_cause w cause_connection_lost) init)

  -- `case SUPLA_DEV_STATE_REGISTERED`
  unfoldable pub case_registered : World → Switch
  case_registered w =
      let w1 = supla_dev_time_sync env w in
      let w2 = supla_dev_set_channel_captions w1 in
      let w3 = supla_dev_get_channel_functions env w2 in
      let w4 = supla_dev_sync_channel_configurations env w3 in
      let w5 = supla_dev_register_push_notifications w4 in breaks (supla_dev_set_state w5 online)

  -- `case SUPLA_DEV_STATE_ONLINE`
  unfoldable pub case_online : World → ℤ → Switch
  case_online w sys_time =
      let w1 = record w {
        dev = record w.dev { connection_uptime = sys_time -ℤ w.dev.register_time };
      } in
      let (w2, alive) = supla_connection_ping env w1 in
      if alive
      then breaks (supla_dev_sync_channels_data env w2)
      else returns
          (supla_dev_set_state (supla_dev_set_connection_reset_cause w2 cause_activity_timeout)
            init)
          result_false

  -- the switch
  unfoldable pub switch_state : World → ℤ → DevState → Option Switch
  switch_state w sys_time config = some (returns w result_true)
  switch_state w sys_time idle = some (returns w result_true)
  switch_state w sys_time init = case_init w
  switch_state w sys_time connected = some (case_connected w sys_time)
  switch_state w sys_time registered = some (case_registered w)
  switch_state w sys_time online = some (case_online w sys_time)

  -- After the switch: the connection is served, and given up if that fails.
  unfoldable pub serve : World → World × ℕ
  serve w =
      let (w', ok) = srpc_iterate w in
      if ok then (w', 0) else (
        supla_dev_set_iterate_delay_msec
            (supla_dev_set_state (supla_dev_set_connection_reset_cause w' cause_connection_lost)
              init)
            5000,
        result_false,
      )

  unfoldable pub after_switch : Option Switch → Option (World × ℕ)
  after_switch none = none
  after_switch (some (returns w rc)) = some (w, rc)
  after_switch (some (breaks w)) = some (serve w)

  -- `supla_dev_iterate_tick`, which `supla_dev_iterate` runs under the lock. `none` is a fault of the
  -- registration only: the connection is an answer of Env, and its faults are in Port.
  unfoldable pub supla_dev_iterate : World → Option (World × ℕ)
  supla_dev_iterate w =
      let ms = env.monotonic_ms w.trace in
      let sys_time = env.now w.trace in
      let w1 = with_uptime (emit w clock_read) sys_time in
      if is_waiting w1.dev ms
      then some (w1, 0)
      else after_switch (switch_state (begin_round w1 ms) sys_time w.dev.state)
