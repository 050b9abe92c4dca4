-- ===== src/Device/Tick/Progress.antt =====
-- How a device comes online over the rounds of `supla_dev_iterate` in src/device.c.
use libsupla.Prelude.{◌≡◌, ◌∙◌, refl, ap, some, true, false, ◌∷◌, ◌==◌}
use libsupla.Prelude.Int.{ℤ, pos, ◌-ℤ◌, leb_ℤ}
use libsupla.Wire.{RegisterResult, register_device_result}
use libsupla.Env.{
  Env, DevState, Trace, Input, nothing, received, connected, registered, online, clock_read,
  input_polled,
}
use libsupla.Device.{World, emit}
use libsupla.Device.Handlers.{resultcode_true, supla_connection_on_register_result}
use libsupla.Device.Handlers.Messages.{dispatch, supla_dev_on_remote_call_received}
use libsupla.Device.Tick.{
  ends, is_waiting, with_uptime, begin_round, after_input, srpc_iterate, case_connected,
  case_registered, switch_state, serve, after_switch, supla_dev_iterate, breaks,
}
use libsupla.Device.Tick.Serving.{set_state-state}

module _ (env : Env) where
  pub quiet-state : (w : World) → (after_input env w nothing).0.dev.state ≡ w.dev.state
  unfolding after_input
  quiet-state w = refl

  unfoldable pub started : World → World
  started w =
      begin_round (with_uptime (emit w clock_read) (env.now w.trace)) (env.monotonic_ms w.trace)

  -- a round with no delay under way, from its state on
  pub in_state :
      (w : World) (s : DevState)
      → w.dev.state ≡ s
      → is_waiting w.dev (env.monotonic_ms w.trace) ≡ false
      → supla_dev_iterate env w
        ≡ after_switch env (switch_state env (started w) (env.now w.trace) s)
  unfolding supla_dev_iterate started
  in_state w s e free =
      simp free (ap (λ st. after_switch env (switch_state env (started w) (env.now w.trace) st)) e)

module _ (env : Env) (output : (tr : Trace) → env.output tr ≡ true) where
  pub serves :
      (w : World) (i : Input)
      → env.input w.trace ≡ i
      → (after_input env (emit w input_polled) i).1 ≡ true
      → serve env w ≡ ((after_input env (emit w input_polled) i).0, 0)
  unfolding serve srpc_iterate
  serves w i e ok = rw (e, ok) refl

  pub accepts :
      (w : World) (r : RegisterResult)
      → (r.result_code == resultcode_true) ≡ true
      → (after_input env w (received (some (register_device_result r)))).0.dev.state ≡ registered
  unfolding after_input supla_dev_on_remote_call_received dispatch
      supla_connection_on_register_result
  accepts w r e = rw (e) (set_state-state _ registered)

  pub answered :
      (w : World) (r : RegisterResult)
      → (after_input env w (received (some (register_device_result r)))).1 ≡ true
  unfolding after_input
  answered w r = output _

  pub quiet : (w : World) → (after_input env w nothing).1 ≡ true
  unfolding after_input
  quiet w = output _

  pub stays :
      (w : World) (t : ℤ)
      → leb_ℤ (t -ℤ w.dev.register_time) (pos 10) ≡ true
      → case_connected env w t ≡ breaks w
  unfolding case_connected
  stays w t e = rw (e) refl

  -- the device after the requests of a round in REGISTERED
  unfoldable pub asked : World → World
  asked w = ends (case_registered env w)

  asked-state : (w : World) → (asked w).dev.state ≡ online
  unfolding asked case_registered
  asked-state w = set_state-state _ online

  asked-breaks : (w : World) → case_registered env w ≡ breaks (asked w)
  unfolding asked case_registered
  asked-breaks w = refl

  -- With a connection that takes all output: a round in CONNECTED, with no delay under way and at most
  -- ten seconds after the registration call, that receives the server's acceptance ends in REGISTERED
  -- and returns 0.
  supla_dev_iterate-registers :
      (w : World) (r : RegisterResult)
      → w.dev.state ≡ connected
      → is_waiting w.dev (env.monotonic_ms w.trace) ≡ false
      → leb_ℤ (env.now w.trace -ℤ w.dev.register_time) (pos 10) ≡ true
      → env.input (clock_read ∷ w.trace) ≡ received (some (register_device_result r))
      → (r.result_code == resultcode_true) ≡ true
      → (w' : World) × (supla_dev_iterate env w ≡ some (w', 0)) × (w'.dev.state ≡ registered)
  unfolding switch_state after_switch started
  supla_dev_iterate-registers w r s free soon e ok =
      let i : Input = received (some (register_device_result r)) in
      let w1 = started env w in
      (
        (after_input env (emit w1 input_polled) i).0,
        in_state env w connected s free
            ∙ (ap (λ x. after_switch env (some x)) (stays w1 (env.now w.trace) soon)
                ∙ ap some (serves w1 i e (answered (emit w1 input_polled) r))),
        accepts (emit w1 input_polled) r ok,
      )

  pub goes_online_if :
      (w : World)
      → w.dev.state ≡ registered
      → is_waiting w.dev (env.monotonic_ms w.trace) ≡ false
      → env.input (asked (started env w)).trace ≡ nothing
      → (w' : World) × (supla_dev_iterate env w ≡ some (w', 0)) × (w'.dev.state ≡ online)
  unfolding switch_state after_switch
  goes_online_if w s free silent =
      let w2 = asked (started env w) in
      (
        (after_input env (emit w2 input_polled) nothing).0,
        in_state env w registered s free
            ∙ (ap (λ x. after_switch env (some x)) (asked-breaks (started env w))
                ∙ ap some (serves w2 nothing silent (quiet (emit w2 input_polled)))),
        quiet-state env (emit w2 input_polled) ∙ asked-state (started env w),
      )

  -- With a connection that takes all output, and nothing to receive: a round in REGISTERED with no
  -- delay under way ends in ONLINE and returns 0.
  supla_dev_iterate-goes_online :
      (w : World)
      → w.dev.state ≡ registered
      → is_waiting w.dev (env.monotonic_ms w.trace) ≡ false
      → ((tr : Trace) → env.input tr ≡ nothing)
      → (w' : World) × (supla_dev_iterate env w ≡ some (w', 0)) × (w'.dev.state ≡ online)
  supla_dev_iterate-goes_online w s free silent = goes_online_if w s free (silent _)
