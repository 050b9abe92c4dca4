-- ===== src/Channel/Values/Updates.antt =====
-- What the functions that set a channel's data do to its value.
use libsupla.Prelude.{
  ℕ, ◌≡◌, ◌⊎◌, ◌++◌, refl, Option, none, some, Bytes, length, Bool-cases, inl, inr, arith, ◌==◌, [],
  ◌∷◌, if◌then◌else◌, Bool, true, false,
}
use libsupla.Prelude.Int.{ℤ}
use libsupla.Value.{SuplaValue, supla_val_set}
use libsupla.ExtValue.{ChannelExtendedValue}
use libsupla.ActionTrigger.{supla_action_trigger_emit}
use libsupla.Channel.{Channel}
use libsupla.Channel.Create.{type_actiontrigger}
use libsupla.Channel.Access.{
  supla_channel_set_default_caption, supla_channel_set_default_icon, supla_channel_set_data,
  supla_channel_set_active_function,
}
use libsupla.Channel.Values.Kept.{
  Change, by_value, by_binary, by_double, by_humidtemp, by_relay, by_rgbw, by_impulse_counter,
  by_roller_shutter, by_facadeblind, by_electricity_meter, by_thermostat, by_extval, by_timer_state,
  by_electricity_meter_extvalue, by_thermostat_extvalue, by_action, by_active_function, by_caption,
  by_icon, by_data,
}
use libsupla.Channel.Values.{
  channel_conflict, supla_channel_set_value, supla_channel_set_binary_value,
  supla_channel_set_double_value, supla_channel_set_humidtemp_value, supla_channel_set_relay_value,
  supla_channel_set_rgbw_value, supla_channel_set_impulse_counter_value,
  supla_channel_set_roller_shutter_value, supla_channel_set_facadeblind_value,
  supla_channel_set_electricity_meter_value, supla_channel_set_thermostat_value,
  supla_channel_set_extval, supla_channel_set_timer_state_extvalue,
  supla_channel_set_electricity_meter_extvalue, supla_channel_set_thermostat_extvalue,
  supla_channel_emit_action,
}

-- The value waits to be sent, or it and its flag are as before.
abbrev pub WaitsOrSame : Option SuplaValue → Option SuplaValue → Type 0
WaitsOrSame none none = Unit {0}
WaitsOrSame none (some out) = ⊥
WaitsOrSame (some sv) none = ⊥
WaitsOrSame (some sv) (some out) = (out.sync ≡ 0) ⊎ ((out.value ≡ sv.value) × (out.sync ≡ sv.sync))

WaitsOrSame-refl : (v : Option SuplaValue) → WaitsOrSame v v
WaitsOrSame-refl none = tt
WaitsOrSame-refl (some sv) = inr (refl, refl)

val_set-WaitsOrSame :
    (v : Option SuplaValue) (value : Bytes) (len : ℕ) → WaitsOrSame v (supla_val_set v value len).0
unfolding supla_val_set
val_set-WaitsOrSame none value len = tt
val_set-WaitsOrSame (some sv) value len = ground arith

-- The number stays, and a value that changes waits.
pub record Updates (ch ch' : Channel) : Type 0 where
  pub number : ch'.number ≡ ch.number
  pub value : WaitsOrSame ch.supla_val ch'.supla_val

Updates-refl : (ch : Channel) → Updates ch ch
Updates-refl ch = record { number = refl; value = WaitsOrSame-refl ch.supla_val }

Updates-unless :
    (b : Bool) (ch : Channel) (go : Channel × ℕ) (rc : ℕ)
    → Updates ch go.0
    → Updates ch (if b then go else (ch, rc)).0
Updates-unless true ch go rc u = u
Updates-unless false ch go rc u = Updates-refl ch

Updates-value :
    (ch : Channel) (v : Bytes) (len : ℕ) → Updates ch (supla_channel_set_value ch v len).0
unfolding supla_channel_set_value
Updates-value ch v len = record { number = refl; value = val_set-WaitsOrSame ch.supla_val v len }

-- The value is left alone.
Updates-beside :
    (ch ch' : Channel) → ch'.number ≡ ch.number → ch'.supla_val ≡ ch.supla_val → Updates ch ch'
Updates-beside ch ch' n v = record { number = n; value = rw v (WaitsOrSame-refl ch.supla_val) }

Updates-active : (ch : Channel) (f : ℤ) → Updates ch (supla_channel_set_active_function ch f).0
unfolding supla_channel_set_active_function
Updates-active ch f = elim (Bool-cases (ch.config.type == type_actiontrigger)) [
  | inl e ↦ simp e (Updates-refl ch)
  | inr e ↦ simp e (Updates-beside ch _ refl refl)
]

Updates-extval :
    (ch : Channel) (e : Option ChannelExtendedValue) → Updates ch (supla_channel_set_extval ch e).0
unfolding supla_channel_set_extval
Updates-extval ch e = Updates-beside ch _ refl refl

Updates-emit : (ch : Channel) (a : ℤ) → Updates ch (supla_channel_emit_action ch a).0
unfolding supla_channel_emit_action
Updates-emit ch a =
    Updates-unless (ch.config.type == type_actiontrigger) ch
      (let (t, rc) = supla_action_trigger_emit ch.action_trigger ch.number a in
        (record ch { action_trigger = t }, rc))
      channel_conflict (Updates-beside ch _ refl refl)

-- Every call that sets data of a channel keeps its number; its value waits to be sent afterwards, or it
-- and its flag are as before.
pub Change-Updates : (ch ch' : Channel) → Change ch ch' → Updates ch ch'
unfolding supla_channel_set_binary_value supla_channel_set_double_value
    supla_channel_set_humidtemp_value supla_channel_set_relay_value supla_channel_set_rgbw_value
    supla_channel_set_impulse_counter_value supla_channel_set_roller_shutter_value
    supla_channel_set_facadeblind_value supla_channel_set_electricity_meter_value
    supla_channel_set_thermostat_value supla_channel_set_timer_state_extvalue
    supla_channel_set_electricity_meter_extvalue supla_channel_set_thermostat_extvalue
    supla_channel_set_default_caption supla_channel_set_default_icon supla_channel_set_data
Change-Updates _ _ (by_value ch v len le) = Updates-value ch v len
Change-Updates _ _ (by_binary ch v) = Updates-value ch (v ∷ []) 1
Change-Updates _ _ (by_double bytes milli eight ch d) = Updates-value ch (bytes d) 8
Change-Updates _ _ (by_humidtemp bytes milli four ch hu t) =
    Updates-value ch (milli t ++ milli hu) 8
Change-Updates _ _ (by_relay ch v) = Updates-value ch v (length v)
Change-Updates _ _ (by_rgbw ch v) = Updates-value ch v (length v)
Change-Updates _ _ (by_impulse_counter ch v) =
    Updates-unless _ ch _ channel_conflict (Updates-value ch v (length v))
Change-Updates _ _ (by_roller_shutter ch v) =
    Updates-unless _ ch _ channel_conflict (Updates-value ch v (length v))
Change-Updates _ _ (by_facadeblind ch v) =
    Updates-unless _ ch _ channel_conflict (Updates-value ch v (length v))
Change-Updates _ _ (by_electricity_meter ch v) =
    Updates-unless _ ch _ channel_conflict (Updates-value ch v (length v))
Change-Updates _ _ (by_thermostat ch v) =
    Updates-unless _ ch _ channel_conflict (Updates-value ch v (length v))
Change-Updates _ _ (by_extval ch e) = Updates-extval ch e
Change-Updates _ _ (by_timer_state stack ch v) =
    Updates-unless _ ch _ channel_conflict (Updates-extval ch _)
Change-Updates _ _ (by_electricity_meter_extvalue f ch v) =
    Updates-unless _ ch _ channel_conflict (Updates-extval ch (some (f v)))
Change-Updates _ _ (by_thermostat_extvalue f ch v) =
    Updates-unless _ ch _ channel_conflict (Updates-extval ch (some (f v)))
Change-Updates _ _ (by_action ch a) = Updates-emit ch a
Change-Updates _ _ (by_active_function ch f) = Updates-active ch f
Change-Updates _ _ (by_caption ch t) = Updates-beside ch _ refl refl
Change-Updates _ _ (by_icon ch n) = Updates-beside ch _ refl refl
Change-Updates _ _ (by_data ch p) = Updates-beside ch _ refl refl
