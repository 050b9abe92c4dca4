-- ===== src/Channel/Values/Kept.antt =====
-- What the functions that set a channel's data leave alone.
use libsupla.Prelude.{
  ℕ, ◌≡◌, ◌≤◌, ◌++◌, refl, Option, none, some, Bytes, length, length-append, Bool-cases, inl, inr,
  arith, ◌==◌, is_some, [], ◌∷◌, if◌then◌else◌, ◌∙◌, Bool, true, false,
}
use native.Mathlib.Decide.{dec_le}
use libsupla.Prelude.Int.{ℤ}
use libsupla.Value.{SuplaValue, supla_val_set}
use libsupla.Value.Sync.{supla_val_set_lem}
use libsupla.ExtValue.{ChannelExtendedValue, SuplaExtendedValue, supla_extval_set}
use libsupla.ActionTrigger.{SuplaActionTrigger, supla_action_trigger_emit}
use libsupla.Channel.{Channel}
use libsupla.Channel.Create.{type_actiontrigger}
use libsupla.Channel.Create.Blocks.{IsWellFormed, Sized}
use libsupla.Channel.Access.{
  supla_channel_set_default_caption, supla_channel_set_default_icon, supla_channel_set_data,
  supla_channel_set_active_function,
}
use libsupla.Channel.Values.{
  channel_conflict, supla_channel_set_value, supla_channel_set_binary_value,
  supla_channel_set_double_value, supla_channel_set_humidtemp_value, supla_channel_set_relay_value,
  supla_channel_set_rgbw_value, supla_channel_set_impulse_counter_value,
  supla_channel_set_roller_shutter_value, supla_channel_set_facadeblind_value,
  supla_channel_set_electricity_meter_value, supla_channel_set_thermostat_value,
  supla_channel_set_extval, supla_channel_set_timer_state_extvalue,
  supla_channel_set_electricity_meter_extvalue, supla_channel_set_thermostat_extvalue,
  supla_channel_emit_action,
}

-- One call that sets data of a channel. A double has eight bytes, and the 32-bit integer made of it
-- four; a pointer to a value has the bytes that are read.
pub data Change : Channel → Channel → Type 1 where
  by_value :
      (ch : Channel) (v : Bytes) (len : ℕ)
      → len ≤ length v
      → Change ch (supla_channel_set_value ch v len).0
  by_binary : (ch : Channel) (v : ℕ) → Change ch (supla_channel_set_binary_value ch v).0
  by_double :
      {D : Type 0} (bytes milli : D → Bytes)
      → ((d : D) → length (bytes d) ≡ 8)
      → (ch : Channel) (d : D) → Change ch (supla_channel_set_double_value bytes milli ch d).0
  by_humidtemp :
      {D : Type 0} (bytes milli : D → Bytes)
      → ((d : D) → length (milli d) ≡ 4)
      → (ch : Channel) (h t : D)
      → Change ch (supla_channel_set_humidtemp_value bytes milli ch h t).0
  by_relay : (ch : Channel) (v : Bytes) → Change ch (supla_channel_set_relay_value ch v).0
  by_rgbw : (ch : Channel) (v : Bytes) → Change ch (supla_channel_set_rgbw_value ch v).0
  by_impulse_counter :
      (ch : Channel) (v : Bytes) → Change ch (supla_channel_set_impulse_counter_value ch v).0
  by_roller_shutter :
      (ch : Channel) (v : Bytes) → Change ch (supla_channel_set_roller_shutter_value ch v).0
  by_facadeblind :
      (ch : Channel) (v : Bytes) → Change ch (supla_channel_set_facadeblind_value ch v).0
  by_electricity_meter :
      (ch : Channel) (v : Bytes) → Change ch (supla_channel_set_electricity_meter_value ch v).0
  by_thermostat : (ch : Channel) (v : Bytes) → Change ch (supla_channel_set_thermostat_value ch v).0
  by_extval :
      (ch : Channel) (e : Option ChannelExtendedValue) → Change ch (supla_channel_set_extval ch e).0
  by_timer_state :
      (stack : Bytes) (ch : Channel) (v : Bytes)
      → Change ch (supla_channel_set_timer_state_extvalue stack ch v).0
  by_electricity_meter_extvalue :
      {A : Type 0} (f : A → ChannelExtendedValue) (ch : Channel) (v : A)
      → Change ch (supla_channel_set_electricity_meter_extvalue f ch v).0
  by_thermostat_extvalue :
      {A : Type 0} (f : A → ChannelExtendedValue) (ch : Channel) (v : A)
      → Change ch (supla_channel_set_thermostat_extvalue f ch v).0
  by_action : (ch : Channel) (a : ℤ) → Change ch (supla_channel_emit_action ch a).0
  by_active_function : (ch : Channel) (f : ℤ) → Change ch (supla_channel_set_active_function ch f).0
  by_caption :
      (ch : Channel) (t : Option Bytes) → Change ch (supla_channel_set_default_caption ch t).0
  by_icon : (ch : Channel) (n : ℕ) → Change ch (supla_channel_set_default_icon ch n).0
  by_data : (ch : Channel) (p : ℕ) → Change ch (supla_channel_set_data ch p).0

-- The channel keeps its type, its number and its device, and stays well formed.
pub record Kept (ch ch' : Channel) : Type 0 where
  pub formed : IsWellFormed ch'
  pub type : ch'.config.type ≡ ch.config.type
  pub number : ch'.number ≡ ch.number
  pub dev : ch'.dev ≡ ch.dev

val_set-shape :
    (sv : Option SuplaValue) (v : Bytes) (len : ℕ)
    → Sized sv
    → len ≤ length v
    → (is_some (supla_val_set sv v len).0 ≡ is_some sv) × Sized (supla_val_set sv v len).0
unfolding supla_val_set
val_set-shape none v len s le = (refl, tt)
val_set-shape (some sv) v len s le = elim (dec_le len 8) [
  | yes fits ↦
      let (out, e, stored) = (supla_val_set_lem sv v len s le).0 fits in rw (e) (refl, stored.sized)
  | no long ↦ rw ((supla_val_set_lem sv v len s le).1 (omega arith)) (refl, s)
]

extval_set-shape :
    (sv : Option SuplaExtendedValue) (e : Option ChannelExtendedValue)
    → is_some (supla_extval_set sv e).0 ≡ is_some sv
unfolding supla_extval_set
extval_set-shape none e = refl
extval_set-shape (some sv) none = refl
extval_set-shape (some sv) (some e) = ground arith

emit-shape :
    (t : Option SuplaActionTrigger) (n a : ℤ)
    → is_some (supla_action_trigger_emit t n a).0 ≡ is_some t
unfolding supla_action_trigger_emit
emit-shape none n a = refl
emit-shape (some t) n a = ground arith

Kept-refl : (ch : Channel) → IsWellFormed ch → Kept ch ch
Kept-refl ch h = record { formed = h; type = refl; number = refl; dev = refl }

Kept-unless :
    (b : Bool) (ch : Channel) (go : Channel × ℕ) (rc : ℕ)
    → IsWellFormed ch
    → Kept ch go.0
    → Kept ch (if b then go else (ch, rc)).0
Kept-unless true ch go rc h k = k
Kept-unless false ch go rc h k = Kept-refl ch h

Kept-value :
    (ch : Channel) (v : Bytes) (len : ℕ)
    → IsWellFormed ch
    → len ≤ length v
    → Kept ch (supla_channel_set_value ch v len).0
unfolding supla_channel_set_value
Kept-value ch v len h le =
    let (shape, sized) = val_set-shape ch.supla_val v len h.sized le in
    record {
      formed = record { value = shape ∙ h.value; extvalue = h.extvalue; at = h.at; sized = sized };
      type = refl;
      number = refl;
      dev = refl;
    }

Kept-extval :
    (ch : Channel) (e : Option ChannelExtendedValue)
    → IsWellFormed ch
    → Kept ch (supla_channel_set_extval ch e).0
unfolding supla_channel_set_extval
Kept-extval ch e h = record {
  formed = record {
    value = h.value;
    extvalue = extval_set-shape ch.supla_extval e ∙ h.extvalue;
    at = h.at;
    sized = h.sized;
  };
  type = refl;
  number = refl;
  dev = refl;
}

Kept-emit : (ch : Channel) (a : ℤ) → IsWellFormed ch → Kept ch (supla_channel_emit_action ch a).0
unfolding supla_channel_emit_action
Kept-emit ch a h =
    Kept-unless (ch.config.type == type_actiontrigger) ch _ channel_conflict h (record {
      formed = record {
        value = h.value;
        extvalue = h.extvalue;
        at = emit-shape ch.action_trigger ch.number a ∙ h.at;
        sized = h.sized;
      };
      type = refl;
      number = refl;
      dev = refl;
    })

Kept-active :
    (ch : Channel) (f : ℤ) → IsWellFormed ch → Kept ch (supla_channel_set_active_function ch f).0
unfolding supla_channel_set_active_function
Kept-active ch f h = elim (Bool-cases (ch.config.type == type_actiontrigger)) [
  | inl e ↦ simp e (Kept-refl ch h)
  | inr e ↦ simp e (record {
    formed = record { value = h.value; extvalue = h.extvalue; at = h.at; sized = h.sized };
    type = refl;
    number = refl;
    dev = refl;
  })
]

-- Every call that sets data of a well-formed channel leaves it well formed, with its type, its number
-- and its device.
pub Change-Kept : (ch ch' : Channel) → Change ch ch' → IsWellFormed ch → Kept ch ch'
unfolding supla_channel_set_binary_value supla_channel_set_double_value
    supla_channel_set_humidtemp_value supla_channel_set_relay_value supla_channel_set_rgbw_value
    supla_channel_set_impulse_counter_value supla_channel_set_roller_shutter_value
    supla_channel_set_facadeblind_value supla_channel_set_electricity_meter_value
    supla_channel_set_thermostat_value supla_channel_set_timer_state_extvalue
    supla_channel_set_electricity_meter_extvalue supla_channel_set_thermostat_extvalue
    supla_channel_set_default_caption supla_channel_set_default_icon supla_channel_set_data
Change-Kept _ _ (by_value ch v len le) h = Kept-value ch v len h le
Change-Kept _ _ (by_binary ch v) h = Kept-value ch (v ∷ []) 1 h (omega arith)
Change-Kept _ _ (by_double bytes milli eight ch d) h =
    Kept-value ch (bytes d) 8 h (omega (arith, eight d))
Change-Kept _ _ (by_humidtemp bytes milli four ch hu t) h =
    Kept-value ch (milli t ++ milli hu) 8 h
      (omega (arith, length-append (milli t) (milli hu), four t, four hu))
Change-Kept _ _ (by_relay ch v) h = Kept-value ch v (length v) h (omega arith)
Change-Kept _ _ (by_rgbw ch v) h = Kept-value ch v (length v) h (omega arith)
Change-Kept _ _ (by_impulse_counter ch v) h =
    Kept-unless _ ch _ channel_conflict h (Kept-value ch v (length v) h (omega arith))
Change-Kept _ _ (by_roller_shutter ch v) h =
    Kept-unless _ ch _ channel_conflict h (Kept-value ch v (length v) h (omega arith))
Change-Kept _ _ (by_facadeblind ch v) h =
    Kept-unless _ ch _ channel_conflict h (Kept-value ch v (length v) h (omega arith))
Change-Kept _ _ (by_electricity_meter ch v) h =
    Kept-unless _ ch _ channel_conflict h (Kept-value ch v (length v) h (omega arith))
Change-Kept _ _ (by_thermostat ch v) h =
    Kept-unless _ ch _ channel_conflict h (Kept-value ch v (length v) h (omega arith))
Change-Kept _ _ (by_extval ch e) h = Kept-extval ch e h
Change-Kept _ _ (by_timer_state stack ch v) h =
    Kept-unless _ ch _ channel_conflict h (Kept-extval ch _ h)
Change-Kept _ _ (by_electricity_meter_extvalue f ch v) h =
    Kept-unless _ ch _ channel_conflict h (Kept-extval ch (some (f v)) h)
Change-Kept _ _ (by_thermostat_extvalue f ch v) h =
    Kept-unless _ ch _ channel_conflict h (Kept-extval ch (some (f v)) h)
Change-Kept _ _ (by_action ch a) h = Kept-emit ch a h
Change-Kept _ _ (by_active_function ch f) h = Kept-active ch f h
Change-Kept _ _ (by_caption ch t) h = record {
  formed = record { value = h.value; extvalue = h.extvalue; at = h.at; sized = h.sized };
  type = refl;
  number = refl;
  dev = refl;
}
Change-Kept _ _ (by_icon ch n) h = record {
  formed = record { value = h.value; extvalue = h.extvalue; at = h.at; sized = h.sized };
  type = refl;
  number = refl;
  dev = refl;
}
Change-Kept _ _ (by_data ch p) h = record {
  formed = record { value = h.value; extvalue = h.extvalue; at = h.at; sized = h.sized };
  type = refl;
  number = refl;
  dev = refl;
}
