-- ===== src/Device/Tick/Alive.antt =====
-- The activity timeout of src/device.c: how long a device stays in ONLINE.
pub mod Sending
pub mod Recovery
pub mod Configuring
use libsupla.Prelude.{
  Bool-cases, inl, inr, ℕ, arith, ◌≡◌, ◌∙◌, refl, ap, some, Bool, true, false, ◌∷◌, not,
}
use libsupla.Prelude.Int.{◌-ℤ◌}
use libsupla.Value.{result_false}
use libsupla.Env.{Env, DevState, Trace, nothing, init, online, clock_read, input_polled}
use libsupla.Device.{World, emit, supla_dev_set_state, supla_dev_set_connection_reset_cause}
use libsupla.Device.Handlers.Keeping.{channels-set_state}
use libsupla.Device.Online.{supla_connection_ping, supla_dev_sync_channels_data}
use libsupla.Device.Online.Alive.{is_silent, ping_lem, ping-channels}
use libsupla.Device.Online.Effects.{Quiet-ping, Quiet-sync}
use libsupla.Device.Tick.{
  is_waiting, after_input, cause_activity_timeout, case_online, switch_state, after_switch,
  supla_dev_iterate,
}
use libsupla.Device.Tick.Progress.{started, in_state, serves, quiet, quiet-state}
use libsupla.Device.Tick.Serving.{set_state-state}

-- The connection is given up: the round returns 0, the channels are not transmitted, and the next
-- round is not delayed.
pub record GivenUp (w : World) (out : World × ℕ) : Type 0 where
  pub result : out.1 ≡ result_false
  pub state : out.0.dev.state ≡ init
  pub cause : out.0.dev.connection_reset_cause ≡ cause_activity_timeout
  pub channels : out.0.dev.channels ≡ w.dev.channels
  pub delay : out.0.dev.wait_iterate_msec ≡ 0

cause-set_state :
    (w : World)
    → (supla_dev_set_state w init).dev.connection_reset_cause ≡ w.dev.connection_reset_cause
unfolding supla_dev_set_state
cause-set_state w = ground arith

wait-set_state :
    (w : World) (s : DevState)
    → (supla_dev_set_state w s).dev.wait_iterate_msec ≡ w.dev.wait_iterate_msec
unfolding supla_dev_set_state
wait-set_state w s = ground arith

wait-ping :
    (env : Env) (w : World)
    → (supla_connection_ping env w).0.dev.wait_iterate_msec ≡ w.dev.wait_iterate_msec
unfolding supla_connection_ping
wait-ping env w = ground arith

module _ (env : Env) (w : World) (s : w.dev.state ≡ online)
    (free : is_waiting w.dev (env.monotonic_ms w.trace) ≡ false) where
  -- the world that the ping starts from
  served : World
  unfolding started
  served = record (started env w) {
    dev = record (started env w).dev { connection_uptime = env.now w.trace -ℤ w.dev.register_time };
  }

  in_online :
      supla_dev_iterate env w
      ≡ after_switch env (some (case_online env (started env w) (env.now w.trace)))
  unfolding switch_state
  in_online = in_state env w online s free

  given_up : World
  given_up =
      supla_dev_set_state
        (supla_dev_set_connection_reset_cause (supla_connection_ping env served).0
          cause_activity_timeout)
        init

  gives_up :
      is_silent w (env.now (clock_read ∷ w.trace)) ≡ true
      → (out : World × ℕ) × (supla_dev_iterate env w ≡ some out) × GivenUp w out
  unfolding case_online after_switch started served given_up
  gives_up silent =
      let dead : (supla_connection_ping env served).1 ≡ false =
        ping_lem env served ∙ ap not silent in
      (
        (given_up, result_false),
        in_online ∙ simp dead refl,
        record {
          result = refl;
          state = set_state-state _ init;
          cause = cause-set_state _;
          channels = channels-set_state _ init ∙ ping-channels env served;
          delay = wait-set_state _ init ∙ wait-ping env served;
        },
      )

  -- the world after the transmission of the channels
  synced : World
  unfolding served
  synced = supla_dev_sync_channels_data env (supla_connection_ping env served).0

  -- A round that keeps the connection, step by step.
  online_round :
      ((tr : Trace) → env.output tr ≡ true)
      → ((tr : Trace) → env.input tr ≡ nothing)
      → is_silent w (env.now (clock_read ∷ w.trace)) ≡ false
      → supla_dev_iterate env w ≡ some ((after_input env (emit synced input_polled) nothing).0, 0)
  unfolding case_online after_switch started synced
  online_round output silent heard =
      let alive : (supla_connection_ping env served).1 ≡ true =
        ping_lem env served ∙ ap not heard in
      in_online
      ∙ simp alive (
          ap some (
            serves env output synced nothing (silent synced.trace)
              (quiet env output (emit synced input_polled))))

  stays_online :
      ((tr : Trace) → env.output tr ≡ true)
      → ((tr : Trace) → env.input tr ≡ nothing)
      → is_silent w (env.now (clock_read ∷ w.trace)) ≡ false
      → (w' : World) × (supla_dev_iterate env w ≡ some (w', 0)) × (w'.dev.state ≡ online)
  unfolding started synced
  stays_online output silent heard = (
    (after_input env (emit synced input_polled) nothing).0,
    online_round output silent heard,
    quiet-state env (emit synced input_polled)
        ∙ (Quiet-sync env (supla_connection_ping env served).0).state
        ∙ (Quiet-ping env served).state
        ∙ s,
  )

-- How a round in ONLINE ends, after a silence or without one.
abbrev pub Outcome : World → Bool → World × ℕ → Type 0
Outcome w true out = GivenUp w out
Outcome w false out = (out.1 ≡ 0) × (out.0.dev.state ≡ online)

-- A round in ONLINE with no delay under way, with a connection that takes all output and brings
-- nothing. If there is an activity timeout and the server's last message is at least that and ten
-- seconds old when the ping reads the clock, the round gives up the connection: it returns 0 in INIT
-- with the activity timeout as the cause, the channels stay as they are, and the next round is not
-- delayed. Otherwise it returns 0 in ONLINE.
pub supla_dev_iterate-online :
    (env : Env) (w : World)
    → w.dev.state ≡ online
    → is_waiting w.dev (env.monotonic_ms w.trace) ≡ false
    → ((tr : Trace) → env.output tr ≡ true)
    → ((tr : Trace) → env.input tr ≡ nothing)
    → (out : World × ℕ) × (supla_dev_iterate env w ≡ some out)
      × Outcome w (is_silent w (env.now (clock_read ∷ w.trace))) out
supla_dev_iterate-online env w s free output silent =
    elim (Bool-cases (is_silent w (env.now (clock_read ∷ w.trace)))) [
      | inl b ↦ simp b (gives_up env w s free b)
      | inr b ↦
          let (w', e, on) = stays_online env w s free output silent b in
          simp b ((w', 0), e, (refl, on))
    ]
