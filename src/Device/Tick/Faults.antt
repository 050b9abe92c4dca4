-- ===== src/Device/Tick/Faults.antt =====
-- The registration in a round of `supla_dev_iterate` in src/device.c does not fault.
use libsupla.Prelude.{◌≢◌, ◌<◌, Option, none, some, length, All, Bool-cases, inl, inr, refl, List}
use libsupla.Prelude.Int.{ℤ, pos, eqb_ℤ}
use libsupla.Channel.{Channel}
use libsupla.Channel.Register.{DeviceChannel}
use libsupla.Env.{
  Env, DevState, config, idle, init, connected, registered, online, clock_read, disconnected,
  connecting,
}
use libsupla.Device.{World, emit}
use libsupla.Device.Channels.Numbering.{IsNumbered}
use libsupla.Device.Register.{supla_dev_register}
use libsupla.Device.Register.Collect.{
  registered_by, IsRegistrable, supla_dev_register_lem, register_all-IsRegistrable,
}
use libsupla.Device.Tick.{
  Switch, returns, breaks, port_of, is_waiting, with_uptime, begin_round, after_register, case_init,
  switch_state, after_switch, supla_dev_iterate,
}

module _ (env : Env) where
  registered_by-ne-none :
      (w : World) (r : Option (List DeviceChannel × List Channel))
      → r ≢ none
      → registered_by env w r ≢ none
  unfolding registered_by
  registered_by-ne-none w none h = absurd (h refl)
  registered_by-ne-none w (some (ds, chs)) h = λ e. cc

  register-ne-none :
      (w : World)
      → IsNumbered w.dev
      → length w.dev.channels < 256
      → All IsRegistrable w.dev.channels
      → supla_dev_register env w ≢ none
  register-ne-none w numbered small good = elim (Bool-cases (env.register_allowed w.trace)) [
    | inl b ↦
        rw (supla_dev_register_lem env w numbered small b)
          (registered_by-ne-none w _ (register_all-IsRegistrable env.holds w.dev.channels good))
    | inr b ↦ unfold supla_dev_register in simp b (λ e. cc)
  ]

  after_register-ne-none : (o : Option (World × ℤ)) → o ≢ none → after_register env o ≢ none
  unfolding after_register
  after_register-ne-none none h = absurd (h refl)
  after_register-ne-none (some (w, r)) h = λ e. cc

  after_switch-ne-none : (o : Option Switch) → o ≢ none → after_switch env o ≢ none
  unfolding after_switch
  after_switch-ne-none none h = absurd (h refl)
  after_switch-ne-none (some (returns w rc)) h = λ e. cc
  after_switch-ne-none (some (breaks w)) h = λ e. cc

  init-ne-none :
      (w : World)
      → IsNumbered w.dev
      → length w.dev.channels < 256
      → All IsRegistrable w.dev.channels
      → case_init env w ≢ none
  unfolding case_init
  init-ne-none w numbered small good =
      let w1 = record w {
        dev = record w.dev { register_time = pos 0; last_ping = pos 0; last_resp = pos 0 };
      } in
      let cfg = w1.dev.supla_config in
      let w2 = emit (emit w1 disconnected) (connecting cfg.server (port_of cfg) cfg.ssl) in
      elim (Bool-cases (eqb_ℤ (env.cloud_connect w2.trace) (pos 0))) [
        | inl b ↦ simp b (λ e. cc)
        | inr b ↦ simp b (after_register-ne-none _ (register-ne-none w2 numbered small good))
      ]

  switch-ne-none :
      (w : World) (t : ℤ) (s : DevState)
      → IsNumbered w.dev
      → length w.dev.channels < 256
      → All IsRegistrable w.dev.channels
      → switch_state env w t s ≢ none
  unfolding switch_state
  switch-ne-none w t config numbered small good = λ e. cc
  switch-ne-none w t idle numbered small good = λ e. cc
  switch-ne-none w t init numbered small good = init-ne-none w numbered small good
  switch-ne-none w t connected numbered small good = λ e. cc
  switch-ne-none w t registered numbered small good = λ e. cc
  switch-ne-none w t online numbered small good = λ e. cc

  -- In a round on a numbered device of fewer than 256 channels, each of a type that the library knows
  -- and as `supla_channel_create` makes it, the registration neither reads through a null pointer nor
  -- fails its assertion, whatever the outside answers. What the connection does with its memory is not
  -- counted here.
  pub supla_dev_iterate-ne-none :
      (w : World)
      → IsNumbered w.dev
      → length w.dev.channels < 256
      → All IsRegistrable w.dev.channels
      → supla_dev_iterate env w ≢ none
  unfolding supla_dev_iterate
  supla_dev_iterate-ne-none w numbered small good =
      let w1 =
        begin_round (with_uptime (emit w clock_read) (env.now w.trace))
          (env.monotonic_ms w.trace) in
      elim (Bool-cases (is_waiting w.dev (env.monotonic_ms w.trace))) [
        | inl b ↦ simp b (λ e. cc)
        | inr b ↦ simp b (
            after_switch-ne-none _
              (switch-ne-none w1 (env.now w.trace) w.dev.state numbered small good))
      ]
