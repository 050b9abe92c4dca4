-- ===== src/Device/Channels/Fit.antt =====
-- Adding a channel, and setting its data, keep a device fit for registration.
use libsupla.Prelude.{
  ℕ, zero, suc, ◌<◌, ◌≡◌, ◌∙◌, refl, sym, ap, subst, inl, inr, some, List, [], ◌∷◌, ◌++◌, length,
  length-append, get_elem?, All, All-append, arith, some-injective, Bool-cases,
}
use native.Mathlib.Decide.{dec_le}
use libsupla.Channel.{Channel}
use libsupla.Channel.Keeping.{Keeps}
use libsupla.Channel.Values.Kept.{Change, Kept, Change-Kept}
use libsupla.Env.{Env}
use libsupla.Device.{World, put_channel}
use libsupla.Device.Channels.{supla_dev_add_channel, assigned}
use libsupla.Device.Channels.Keeping.{
  IsFit, CallbacksKeep, KeepsAll-set, IsFit-KeepsChannels, IsRegistrable-Keeps,
}
use libsupla.Device.Channels.Numbering.{
  supla_dev_add_channel_lem, after_init, inserted, channels-channel_init, add_channel-accepts,
}
use libsupla.Device.Register.Collect.{IsRegistrable}

module _ (env : Env) (keeps : CallbacksKeep env) (w : World) (ch : Channel) where
  IsRegistrable-assigned : IsRegistrable ch → IsRegistrable (assigned w.dev ch)
  IsRegistrable-assigned (h, known) =
      (record { value = h.value; extvalue = h.extvalue; at = h.at; sized = h.sized }, known)

  IsRegistrable-after_init :
      (c : Channel) (u : World) → IsRegistrable c → IsRegistrable (after_init env u c)
  unfolding after_init
  IsRegistrable-after_init c u h = elim (Bool-cases c.config.on_channel_init) [
    | inl e ↦ simp e (IsRegistrable-Keeps c _ (keeps.channel_init u.trace c) h)
    | inr e ↦ simp e h
  ]

  channels-add_channel :
      length w.dev.channels < 127
      → (supla_dev_add_channel env w ch).0.dev.channels
        ≡ w.dev.channels ++ (after_init env (inserted env w ch) (assigned w.dev ch) ∷ [])
  unfolding inserted
  channels-add_channel room =
      ap (λ o. o.0.dev.channels) (add_channel-accepts env w ch room)
      ∙ channels-channel_init env (inserted env w ch) w.dev.channels (assigned w.dev ch) refl

  added-IsFit :
      length w.dev.channels < 127
      → IsRegistrable ch
      → IsFit w
      → IsFit (supla_dev_add_channel env w ch).0
  added-IsFit room good fit =
      let new = after_init env (inserted env w ch) (assigned w.dev ch) in
      let e = channels-add_channel room in
      record {
        numbered =
            ((supla_dev_add_channel_lem env w ch (λ tr c. (keeps.channel_init tr c).number)
                fit.numbered).0
              room).numbered;
        small = rw e (omega (arith, length-append w.dev.channels (new ∷ []), room));
        good = subst (All IsRegistrable) (sym e) (
            All-append IsRegistrable w.dev.channels (new ∷ []) fit.good
              (IsRegistrable-after_init _ _ (IsRegistrable-assigned good), tt));
      }

  -- An attempt to add a channel that can be registered, whether it is taken or refused.
  pub add_channel-IsFit : IsRegistrable ch → IsFit w → IsFit (supla_dev_add_channel env w ch).0
  add_channel-IsFit good fit = elim (dec_le 127 (length w.dev.channels)) [
    | yes full ↦
        subst (λ o. IsFit o.0)
          (sym (
            (supla_dev_add_channel_lem env w ch (λ tr c. (keeps.channel_init tr c).number)
                fit.numbered).1
              full))
          fit
    | no room ↦ added-IsFit (omega (arith, room)) good fit
  ]

All-get_elem? :
    (P : Channel → Type 0) (cs : List Channel) (i : ℕ) (c : Channel)
    → All P cs
    → get_elem? cs i ≡ some c
    → P c
All-get_elem? P [] i c a e = cc
All-get_elem? P (x ∷ cs) zero c a e = subst P (some-injective _ _ e) a.0
All-get_elem? P (x ∷ cs) (suc i) c a e = All-get_elem? P cs i c a.1 e

Keeps-Kept : (c d : Channel) → Kept c d → Keeps c d
Keeps-Kept c d k = record { number = k.number; type = k.type; formed = λ h. k.formed }

-- A call that sets data of a channel of the device.
pub Change-IsFit :
    (w : World) (i : ℕ) (c d : Channel)
    → get_elem? w.dev.channels i ≡ some c
    → Change c d
    → IsFit w
    → IsFit (put_channel w i d)
Change-IsFit w i c d e change fit =
    let good : IsRegistrable c = All-get_elem? IsRegistrable w.dev.channels i c fit.good e in
    IsFit-KeepsChannels w (put_channel w i d)
      (KeepsAll-set w.dev.channels i c d e (Keeps-Kept c d (Change-Kept c d change good.0))) fit
