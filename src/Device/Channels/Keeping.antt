-- ===== src/Device/Channels/Keeping.antt =====
-- What a round of the device leaves alone in its list of channels, whatever it writes back.
use libsupla.Prelude.{
  ℕ, zero, suc, ◌+◌, ◌<◌, ◌≡◌, ◌∙◌, ◌⊎◌, refl, sym, ap, inl, inr, Option, none, some, List, [], ◌∷◌,
  length, get_elem?, set, arith, All, Bool, true, false, if◌then◌else◌, some-injective, subst,
}
use libsupla.Prelude.Int.{ℤ, eqb_ℤ}
use libsupla.Channel.{Channel}
use libsupla.Channel.Keeping.{Keeps, Keeps-refl, Keeps-trans}
use libsupla.Channel.Create.{kind}
use libsupla.Env.{Env, Trace}
use libsupla.Wire.{NewValue, ChannelState, CalcfgRequest, WireConfig}
use libsupla.Device.{World, find_channel, supla_dev_get_channel_by_num}
use libsupla.Device.Channels.Numbering.{NumberedFrom, IsNumbered}
use libsupla.Device.Register.Collect.{IsRegistrable}

-- Each channel keeps its number and its type, in two lists, place by place.
abbrev pub KeepsAll : List Channel → List Channel → Type 0
KeepsAll [] [] = Unit
KeepsAll [] (d ∷ ds) = ⊥
KeepsAll (c ∷ cs) [] = ⊥
KeepsAll (c ∷ cs) (d ∷ ds) = Keeps c d × KeepsAll cs ds

abbrev pub KeepsChannels : World → World → Type 0
KeepsChannels w w' = KeepsAll w.dev.channels w'.dev.channels

pub KeepsAll-refl : (cs : List Channel) → KeepsAll cs cs
KeepsAll-refl [] = tt
KeepsAll-refl (c ∷ cs) = (Keeps-refl c, KeepsAll-refl cs)

pub KeepsAll-trans : (cs ds es : List Channel) → KeepsAll cs ds → KeepsAll ds es → KeepsAll cs es
KeepsAll-trans [] [] es h k = k
KeepsAll-trans [] (d ∷ ds) es h k = absurd h
KeepsAll-trans (c ∷ cs) [] es h k = absurd h
KeepsAll-trans (c ∷ cs) (d ∷ ds) [] h k = absurd k
KeepsAll-trans (c ∷ cs) (d ∷ ds) (e ∷ es) h k =
    (Keeps-trans c d e h.0 k.0, KeepsAll-trans cs ds es h.1 k.1)

-- A channel is written back at its place.
pub KeepsAll-set :
    (cs : List Channel) (i : ℕ) (c d : Channel)
    → get_elem? cs i ≡ some c
    → Keeps c d
    → KeepsAll cs (set cs i d)
KeepsAll-set [] i c d e k = tt
KeepsAll-set (x ∷ cs) zero c d e k =
    (subst (λ y. Keeps y d) (sym (some-injective _ _ e)) k, KeepsAll-refl cs)
KeepsAll-set (x ∷ cs) (suc i) c d e k = (Keeps-refl x, KeepsAll-set cs i c d e k)

-- What the lookup finds stands in the list at the place that it gives.
abbrev pub IsLocated : World → Option (ℕ × Channel) → Type 0
IsLocated w none = Unit
IsLocated w (some (i, c)) = get_elem? w.dev.channels i ≡ some c

-- The place, as the loop counts it, is before or within the rest of the list.
abbrev FoundIn : List Channel → ℕ → Option (ℕ × Channel) → Option (ℕ × Channel) → Type 0
FoundIn cs i out none = Unit
FoundIn cs i out (some (j, c)) =
    (out ≡ some (j, c)) ⊎ ((k : ℕ) × (j ≡ i + k) × (get_elem? cs k ≡ some c))

FoundIn-cons :
    (x : Channel) (cs : List Channel) (i : ℕ) (hit : Bool) (out r : Option (ℕ × Channel))
    → FoundIn cs (i + 1) (if hit then some (i, x) else out) r
    → FoundIn (x ∷ cs) i out r
FoundIn-cons x cs i hit out none h = tt
FoundIn-cons x cs i false out (some (j, c)) (inl e) = inl e
FoundIn-cons x cs i true out (some (j, c)) (inl e) =
    inr (0, ground (arith, some-injective _ _ e), ground (arith, some-injective _ _ e))
FoundIn-cons x cs i hit out (some (j, c)) (inr (k, e, f)) = inr (suc k, omega (arith, e), f)

find_channel-FoundIn :
    (cs : List Channel) (num : ℤ) (i : ℕ) (out : Option (ℕ × Channel))
    → FoundIn cs i out (find_channel cs num i out)
unfolding find_channel
find_channel-FoundIn [] num i none = tt
find_channel-FoundIn [] num i (some (j, c)) = inl refl
find_channel-FoundIn (x ∷ cs) num i out =
    FoundIn-cons x cs i (eqb_ℤ x.number num) out _
      (find_channel-FoundIn cs num (i + 1) (if eqb_ℤ x.number num then some (i, x) else out))

IsLocated-of_FoundIn :
    (w : World) (r : Option (ℕ × Channel)) → FoundIn w.dev.channels 0 none r → IsLocated w r
IsLocated-of_FoundIn w none h = tt
IsLocated-of_FoundIn w (some (j, c)) (inl e) = cc
IsLocated-of_FoundIn w (some (j, c)) (inr (k, e, f)) = ground (arith, f)

pub get_channel_by_num-IsLocated :
    (w : World) (num : ℤ) → IsLocated w (supla_dev_get_channel_by_num w.dev num)
unfolding supla_dev_get_channel_by_num
get_channel_by_num-IsLocated w num =
    IsLocated-of_FoundIn w _ (find_channel-FoundIn w.dev.channels num 0 none)

-- A device whose registration cannot fault.
pub record IsFit (w : World) : Type 0 where
  pub numbered : IsNumbered w.dev
  pub small : length w.dev.channels < 256
  pub good : All IsRegistrable w.dev.channels

NumberedFrom-KeepsAll :
    (cs ds : List Channel) (i : ℕ) → KeepsAll cs ds → NumberedFrom i cs → NumberedFrom i ds
NumberedFrom-KeepsAll [] [] i h n = tt
NumberedFrom-KeepsAll [] (d ∷ ds) i h n = absurd h
NumberedFrom-KeepsAll (c ∷ cs) [] i h n = tt
NumberedFrom-KeepsAll (c ∷ cs) (d ∷ ds) i h n =
    (h.0.number ∙ n.0, NumberedFrom-KeepsAll cs ds (i + 1) h.1 n.1)

pub length-KeepsAll : (cs ds : List Channel) → KeepsAll cs ds → length ds ≡ length cs
length-KeepsAll [] [] h = refl
length-KeepsAll [] (d ∷ ds) h = absurd h
length-KeepsAll (c ∷ cs) [] h = absurd h
length-KeepsAll (c ∷ cs) (d ∷ ds) h = ap suc (length-KeepsAll cs ds h.1)

pub IsRegistrable-Keeps : (c d : Channel) → Keeps c d → IsRegistrable c → IsRegistrable d
IsRegistrable-Keeps c d k (formed, known) = (k.formed formed, λ e. known (ap kind (sym k.type) ∙ e))

All-KeepsAll : (cs ds : List Channel) → KeepsAll cs ds → All IsRegistrable cs → All IsRegistrable ds
All-KeepsAll [] [] h a = tt
All-KeepsAll [] (d ∷ ds) h a = absurd h
All-KeepsAll (c ∷ cs) [] h a = tt
All-KeepsAll (c ∷ cs) (d ∷ ds) h a = (IsRegistrable-Keeps c d h.0 a.0, All-KeepsAll cs ds h.1 a.1)

pub IsFit-KeepsChannels : (w w' : World) → KeepsChannels w w' → IsFit w → IsFit w'
IsFit-KeepsChannels w w' k f = record {
  numbered = NumberedFrom-KeepsAll w.dev.channels w'.dev.channels 0 k f.numbered;
  small = omega (arith, length-KeepsAll w.dev.channels w'.dev.channels k, f.small);
  good = All-KeepsAll w.dev.channels w'.dev.channels k f.good;
}

-- What is asked of the program's callbacks: they do to a channel no more than the library's own
-- setters.
pub record CallbacksKeep (env : Env) : Type 0 where
  pub channel_init : (tr : Trace) (c : Channel) → Keeps c (env.on_channel_init tr c)
  pub set_value : (tr : Trace) (c : Channel) (v : NewValue) → Keeps c (env.on_set_value tr c v).0
  pub get_state :
      (tr : Trace) (c : Channel) (s : ChannelState) → Keeps c (env.on_get_state tr c s).0
  pub calcfg_req :
      (tr : Trace) (c : Channel) (r : CalcfgRequest) → Keeps c (env.on_calcfg_req tr c r).0
  pub config_recv :
      (tr : Trace) (c : Channel) (g : WireConfig) → Keeps c (env.on_config_recv tr c g)
  pub config_set :
      (tr : Trace) (c : Channel) (g : WireConfig) → Keeps c (env.on_config_set tr c g).0
