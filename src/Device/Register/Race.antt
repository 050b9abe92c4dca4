-- ===== src/Device/Register/Race.antt =====
-- What a race of two threads in `supla_dev_add_channel` of src/device.c does to the registration.
use libsupla.Prelude.{
  ℕ, ◌+◌, ◌≤◌, ◌<◌, ◌≡◌, ◌∙◌, sym, ap, subst, none, List, [], ◌∷◌, ◌++◌, length, length-append, All,
  All-append, true, false, arith,
}
use libsupla.Prelude.Int.{pos, eqb_ℤ}
use libsupla.Value.{result_true}
use libsupla.Channel.{Channel}
use libsupla.Env.{Env}
use libsupla.Device.{World}
use libsupla.Device.Channels.{supla_dev_get_channel_count}
use libsupla.Device.Channels.Numbering.{NumberedFrom, IsNumbered}
use libsupla.Device.Register.{supla_dev_register}
use libsupla.Device.Register.Missing.{register-missing}
use libsupla.Device.Channels.Race.{
  counted, inserts-channels, inserts-result, raced_first, raced_second,
}

NumberedFrom-missing :
    (cs : List Channel) (i k : ℕ)
    → NumberedFrom i cs
    → i + length cs ≤ k
    → All (λ c. eqb_ℤ c.number (pos k) ≡ false) cs
NumberedFrom-missing [] i k h le = tt
NumberedFrom-missing (c ∷ cs) i k h le =
    (ground (arith, h.0), NumberedFrom-missing cs (i + 1) k h.1 (omega (arith, le)))

counted-missing :
    (w : World) (n : ℕ) (c : Channel) → eqb_ℤ (counted w n c).number (pos (n + 1)) ≡ false
unfolding counted
counted-missing w n c = ground arith

-- Two threads call `supla_dev_add_channel` on a numbered device of fewer than 127 channels, with
-- channels without `on_channel_init`, and both count before either inserts. Then both calls succeed,
-- but the registration, if the protocol version has the call, fails the assertion that every number
-- has its channel: both channels have the same number.
pub raced-register :
    (env : Env) (w : World) (a b : Channel)
    → IsNumbered w.dev
    → length w.dev.channels < 127
    → a.config.on_channel_init ≡ false
    → b.config.on_channel_init ≡ false
    → env.register_allowed (raced_second env w a b).0.trace ≡ true
    → ((raced_first env w a b).1 ≡ result_true)
      × ((raced_second env w a b).1 ≡ result_true)
      × (supla_dev_register env (raced_second env w a b).0 ≡ none)
unfolding supla_dev_get_channel_count
raced-register env w a b numbered room plain_a plain_b allowed =
    let n = length w.dev.channels in
    let w1 = (raced_first env w a b).0 in
    let w2 = (raced_second env w a b).0 in
    let listed : w2.dev.channels
        ≡ (w.dev.channels ++ (counted w n a ∷ [])) ++ (counted w1 n b ∷ []) =
      inserts-channels env n w1 b room plain_b
      ∙ ap (λ t. t ++ (counted w1 n b ∷ [])) (inserts-channels env n w a room plain_a) in
    (
      inserts-result env n w a room,
      inserts-result env n w1 b room,
      register-missing env (n + 1) w2
          (rw listed (
            omega (
              arith,
              length-append (w.dev.channels ++ (counted w n a ∷ [])) (counted w1 n b ∷ []),
              length-append w.dev.channels (counted w n a ∷ []),
            )))
          (rw listed (
            omega (
              arith,
              length-append (w.dev.channels ++ (counted w n a ∷ [])) (counted w1 n b ∷ []),
              length-append w.dev.channels (counted w n a ∷ []),
              room,
            )))
          (subst (All (λ c. eqb_ℤ c.number (pos (n + 1)) ≡ false)) (sym listed) (
            All-append _ _ _
              (All-append _ _ _
                (NumberedFrom-missing w.dev.channels 0 (n + 1) numbered (omega arith))
                (counted-missing w n a, tt))
              (counted-missing w1 n b, tt)))
          allowed,
    )
