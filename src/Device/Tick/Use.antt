-- ===== src/Device/Tick/Use.antt =====
-- A program that uses src/device.c and src/channel.c as they are meant to be used.
use libsupla.Prelude.{
  ap, ℕ, zero, suc, ◌≡◌, refl, inl, inr, Option, none, some, [], Bytes, get_elem?, Option-cases,
  arith,
}
use libsupla.Prelude.Int.{ℤ, negsuc}
use libsupla.Channel.{Channel}
use libsupla.Channel.Values.Kept.{Change}
use libsupla.Env.{Env}
use libsupla.Device.{World, put_channel}
use libsupla.Device.Access.{new_device}
use libsupla.Device.Channels.{supla_dev_add_channel}
use libsupla.Device.Channels.Keeping.{
  IsFit, KeepsChannels, KeepsAll-refl, KeepsAll-trans, CallbacksKeep, IsFit-KeepsChannels,
}
use libsupla.Device.Channels.Fit.{add_channel-IsFit, Change-IsFit}
use libsupla.Device.Register.Collect.{IsRegistrable}
use libsupla.Device.Handlers.Keeping.{KeepsChannels-same}
use libsupla.Device.Tick.{supla_dev_iterate}
use libsupla.Device.Tick.Faults.{supla_dev_iterate-ne-none}
use libsupla.Device.Tick.Keeping.{supla_dev_iterate-Keeps}

module _ (env : Env) where
  -- One call of the program: a round; a channel added that is in no device yet, as
  -- `supla_channel_create` makes it for a type that it knows; a call that sets data of a channel of the device; any other call on the device,
  -- none of which touches the list of channels.
  pub data Use : World → World → Type 1 where
    iterates : (w w' : World) (rc : ℕ) → supla_dev_iterate env w ≡ some (w', rc) → Use w w'
    adds :
        (w : World) (c : Channel)
        → IsRegistrable c
        → c.number ≡ negsuc 0
        → Use w (supla_dev_add_channel env w c).0
    sets :
        (w : World) (i : ℕ) (c d : Channel)
        → get_elem? w.dev.channels i ≡ some c
        → Change c d
        → Use w (put_channel w i d)
    calls : (w w' : World) → w'.dev.channels ≡ w.dev.channels → Use w w'

  -- What a device that has just been created can come to.
  pub data Used : World → Type 1 where
    begins :
        (self : ℕ) (name soft_ver : Option Bytes) (default : Bytes) (now : ℤ)
        → Used (record { dev = new_device self name soft_ver default now; trace = [] })
    then_uses : (w w' : World) → Used w → Use w w' → Used w'

  -- The program's loop: n rounds, whatever each returns.
  then_round : Option (World × ℕ) → Option World
  then_round none = none
  then_round (some (w, rc)) = some w

  unfoldable pub rounds : ℕ → World → Option World
  unfolding then_round
  rounds zero w = some w
  rounds (suc n) w = elim (rounds n w) [
    | none ↦ none
    | some w' ↦ then_round (supla_dev_iterate env w')
  ]

  -- one round more
  pub rounds-suc :
      (n : ℕ) (w u v : World) (rc : ℕ)
      → rounds n w ≡ some u
      → supla_dev_iterate env u ≡ some (v, rc)
      → rounds (suc n) w ≡ some v
  unfolding rounds then_round
  rounds-suc n w u v rc e f = rw (e, f) refl

  -- The first of several rounds.
  pub rounds-first :
      (n : ℕ) (w u : World) (rc : ℕ)
      → supla_dev_iterate env w ≡ some (u, rc)
      → rounds (suc n) w ≡ rounds n u
  unfolding rounds then_round
  rounds-first zero w u rc e = rw (e) refl
  rounds-first (suc n) w u rc e =
      let next : Option World → Option World =
        λ o. elim o [ none ↦ none | some w' ↦ then_round (supla_dev_iterate env w') ] in
      ap next (rounds-first n w u rc e)

  module _ (keeps : CallbacksKeep env) where
    IsFit-Use : (w w' : World) → Use w w' → IsFit w → IsFit w'
    IsFit-Use _ _ (iterates w w' rc e) fit =
        IsFit-KeepsChannels w w' (supla_dev_iterate-Keeps env keeps w (w', rc) e) fit
    IsFit-Use _ _ (adds w c good new) fit = add_channel-IsFit env keeps w c good fit
    IsFit-Use _ _ (sets w i c d e change) fit = Change-IsFit w i c d e change fit
    IsFit-Use _ _ (calls w w' e) fit = IsFit-KeepsChannels w w' (KeepsChannels-same w w' e) fit

    Used-IsFit : (w : World) → Used w → IsFit w
    unfolding new_device
    Used-IsFit _ (begins self name soft_ver default now) = record {
      numbered = tt;
      small = omega arith;
      good = tt;
    }
    Used-IsFit _ (then_uses w w' used use_it) = IsFit-Use w w' use_it (Used-IsFit w used)

    round-Used :
        (w : World)
        → Used w
        → (w' : World) × (then_round (supla_dev_iterate env w) ≡ some w')
          × Used w'
          × KeepsChannels w w'
    unfolding then_round
    round-Used w used =
        let fit = Used-IsFit w used in
        elim (Option-cases (supla_dev_iterate env w)) [
          | inl e ↦ absurd (supla_dev_iterate-ne-none env w fit.numbered fit.small fit.good e)
          | inr ((w', rc), e) ↦ (
            w',
            rw e refl,
            then_uses w w' used (iterates w w' rc e),
            supla_dev_iterate-Keeps env keeps w (w', rc) e,
          )
        ]

    -- Suppose that a program creates a device and uses it as `Use` says, so that the channels it adds
    -- are as `supla_channel_create` makes them for the types that it knows, none of them added before,
    -- and that its callbacks leave the number, the type and the form of a channel alone. Then in any
    -- number of further rounds, whatever the server sends, no registration reads through a null pointer
    -- or fails its assertion, the rounds come to an end, and each channel still stands in its place
    -- with its number and its type. What the connection does with its memory is not counted here.
    pub rounds-Used :
        (n : ℕ) (w : World)
        → Used w
        → (w' : World) × (rounds n w ≡ some w') × Used w' × KeepsChannels w w'
    unfolding rounds
    rounds-Used zero w used = (w, refl, used, KeepsAll-refl w.dev.channels)
    rounds-Used (suc n) w used =
        let (u, e, used_u, k) = rounds-Used n w used in
        let (v, f, used_v, l) = round-Used u used_u in
        (v, rw (e, f) refl, used_v, KeepsAll-trans w.dev.channels u.dev.channels v.dev.channels k l)
