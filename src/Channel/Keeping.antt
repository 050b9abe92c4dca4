-- ===== src/Channel/Keeping.antt =====
-- What the calls on a channel of a device leave alone.
use libsupla.Prelude.{◌≡◌, ◌∙◌, refl, Bool-cases, inl, inr, ◌==◌}
use libsupla.Prelude.Int.{ℤ}
use libsupla.Channel.{Channel}
use libsupla.Channel.Access.{supla_channel_set_active_function}
use libsupla.Channel.Create.{type_actiontrigger}
use libsupla.Channel.Create.Blocks.{IsWellFormed}

-- The channel keeps its number and its type, and it stays well formed.
pub record Keeps (ch ch' : Channel) : Type 0 where
  pub number : ch'.number ≡ ch.number
  pub type : ch'.config.type ≡ ch.config.type
  pub formed : IsWellFormed ch → IsWellFormed ch'

pub Keeps-refl : (c : Channel) → Keeps c c
Keeps-refl c = record { number = refl; type = refl; formed = λ h. h }

pub Keeps-trans : (c d e : Channel) → Keeps c d → Keeps d e → Keeps c e
Keeps-trans c d e h k = record {
  number = k.number ∙ h.number;
  type = k.type ∙ h.type;
  formed = λ f. k.formed (h.formed f);
}

pub Keeps-active_function :
    (c : Channel) (f : ℤ) → Keeps c (supla_channel_set_active_function c f).0
unfolding supla_channel_set_active_function
Keeps-active_function c f = elim (Bool-cases (c.config.type == type_actiontrigger)) [
  | inl e ↦ simp e (Keeps-refl c)
  | inr e ↦ simp e (record {
    number = refl;
    type = refl;
    formed = λ h. record { value = h.value; extvalue = h.extvalue; at = h.at; sized = h.sized };
  })
]
