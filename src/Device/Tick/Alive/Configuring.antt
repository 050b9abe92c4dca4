-- ===== src/Device/Tick/Alive/Configuring.antt =====
-- The server asks a device of src/device.c that is in ONLINE to enter its configuration mode.
use libsupla.Prelude.{ℕ, ◌≡◌, ◌∙◌, refl, ap, some, Bool, true, false, ◌∷◌, not, if◌then◌else◌}
use libsupla.Prelude.Int.{negsuc}
use libsupla.Wire.{CalcfgRequest, calcfg_request}
use libsupla.Env.{Env, Trace, Input, received, config, init, online, clock_read, input_polled}
use libsupla.Device.{World, emit}
use libsupla.Device.Handlers.{supla_dev_on_calcfg_request, cmd_enter_cfg_mode}
use libsupla.Device.Handlers.Messages.{dispatch, supla_dev_on_remote_call_received}
use libsupla.Device.Online.{supla_connection_ping}
use libsupla.Device.Online.Alive.{is_silent, ping_lem}
use libsupla.Device.Tick.{
  is_waiting, after_input, srpc_iterate, case_online, serve, after_switch, supla_dev_iterate,
}
use libsupla.Device.Tick.Progress.{started}
use libsupla.Device.Tick.Serving.{set_state-state}
use libsupla.Device.Tick.Alive.{served, synced, in_online}

-- A request for the configuration mode of the device, by a super user.
pub record AsksForConfig (req : CalcfgRequest) : Type 0 where
  pub authorized : req.super_user_authorized ≡ 1
  pub device : req.channel_number ≡ negsuc 0
  pub command : req.command ≡ cmd_enter_cfg_mode

module _ (env : Env) (req : CalcfgRequest) (asks : AsksForConfig req) where
  config-request : (w : World) → (supla_dev_on_calcfg_request env w req).dev.state ≡ config
  unfolding supla_dev_on_calcfg_request
  config-request w = rw (asks.authorized, asks.device, asks.command) (set_state-state w config)

  asked_for : Input
  asked_for = received (some (calcfg_request req))

  config-input : (w : World) → (after_input env w asked_for).0.dev.state ≡ config
  unfolding asked_for after_input supla_dev_on_remote_call_received dispatch
  config-input w = config-request (record w { dev = record w.dev { last_resp = env.now w.trace } })

  output-input :
      (b : Bool) (w : World)
      → ((tr : Trace) → env.output tr ≡ b)
      → (after_input env w asked_for).1 ≡ b
  unfolding asked_for after_input
  output-input b w h = h _

  state-serve :
      (b : Bool) (w : World)
      → env.input w.trace ≡ asked_for
      → ((tr : Trace) → env.output tr ≡ b)
      → (serve env w).0.dev.state ≡ (if b then config else init)
  unfolding serve srpc_iterate
  state-serve true w e h =
      rw (e, output-input true (emit w input_polled) h) (config-input (emit w input_polled))
  state-serve false w e h =
      rw (e, output-input false (emit w input_polled) h) (set_state-state _ init)

-- A device in ONLINE with no delay under way, whose server has not been silent for too long, receives
-- in a round a super user's request to enter its configuration mode. It is in CONFIG after the round
-- if the connection takes the output of the round, and else in INIT, from where it connects again.
pub supla_dev_iterate-configures :
    (env : Env) (w : World) (req : CalcfgRequest) (b : Bool)
    → AsksForConfig req
    → w.dev.state ≡ online
    → is_waiting w.dev (env.monotonic_ms w.trace) ≡ false
    → is_silent w (env.now (clock_read ∷ w.trace)) ≡ false
    → ((tr : Trace) → env.input tr ≡ received (some (calcfg_request req)))
    → ((tr : Trace) → env.output tr ≡ b)
    → (out : World × ℕ) × (supla_dev_iterate env w ≡ some out)
      × (out.0.dev.state ≡ (if b then config else init))
unfolding case_online after_switch started synced served asked_for
supla_dev_iterate-configures env w req b asks s free heard input output =
    let alive : (supla_connection_ping env (served env w s free)).1 ≡ true =
      ping_lem env (served env w s free) ∙ ap not heard in
    (
      serve env (synced env w s free),
      in_online env w s free ∙ simp alive refl,
      state-serve env req asks b (synced env w s free) (input _) output,
    )
