-- ===== src/Device/Tick/Registered.antt =====
-- The round in REGISTERED of `supla_dev_iterate` in src/device.c.
use libsupla.Prelude.{◌≡◌, ◌∙◌, false, some, All, ap, refl}
use libsupla.Env.{Env, registered, online}
use libsupla.Device.{World, supla_dev_set_state}
use libsupla.Device.Online.Requests.{requests, sends, requests_lem}
use libsupla.Device.Tick.{
  breaks, is_waiting, case_registered, switch_state, serve, after_switch, supla_dev_iterate,
}
use libsupla.Device.Tick.Progress.{started, in_state}

module _ (env : Env) where
  case_registered_lem :
      (w : World)
      → All (λ ch. ch.config.on_config_set ≡ false) w.dev.channels
      → case_registered env w ≡ breaks (supla_dev_set_state (sends w (requests w.dev)) online)
  unfolding case_registered
  case_registered_lem w h = ap (λ u. breaks (supla_dev_set_state u online)) (requests_lem env w h)

  requests-started : (w : World) → requests (started env w).dev ≡ requests w.dev
  unfolding started requests
  requests-started w = refl

  -- A round in REGISTERED, with no delay under way and no channel that has the callback which writes a
  -- configuration, notes the times, sends the requests of the list, one after the other, each caption
  -- in an array as if newly cleared, and takes the device to ONLINE. Then it serves the connection,
  -- which may move the device on, and gives that outcome.
  pub supla_dev_iterate-requests :
      (w : World)
      → w.dev.state ≡ registered
      → is_waiting w.dev (env.monotonic_ms w.trace) ≡ false
      → All (λ ch. ch.config.on_config_set ≡ false) w.dev.channels
      → supla_dev_iterate env w
        ≡ some (serve env (supla_dev_set_state (sends (started env w) (requests w.dev)) online))
  unfolding switch_state after_switch
  supla_dev_iterate-requests w s free h =
      in_state env w registered s free
      ∙ ap (λ x. after_switch env (some x))
          (case_registered_lem (started env w) (unfold started in h))
      ∙ ap (λ l. some (serve env (supla_dev_set_state (sends (started env w) l) online)))
          (requests-started w)
