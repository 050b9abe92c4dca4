-- ===== src/ExtValue/Tests.antt =====
-- The extended value of a channel at concrete inputs.
use libsupla.Prelude.{◌≡◌, ◌≢◌, refl, some, replicate, ◌∷◌, arith}
use libsupla.Value.{result_true}
use libsupla.ExtValue.{
  ChannelExtendedValue, SuplaExtendedValue, supla_extval_init, supla_extval_set,
}
use libsupla.ExtValue.Sync.{IsSized, SameHead, supla_extval_set_lem}

abbrev fresh_extvalue : SuplaExtendedValue
fresh_extvalue = supla_extval_init 1

abbrev one_byte : ChannelExtendedValue
one_byte = record { type = 5; size = 1; value = 7 ∷ replicate 1023 0 }

fresh_extvalue-IsSized : IsSized fresh_extvalue.extval
unfolding supla_extval_init
fresh_extvalue-IsSized = record { array = refl; small = omega arith }

one_byte-IsSized : IsSized one_byte
one_byte-IsSized = record { array = refl; small = omega arith }

supla_extval_set_lem_example :
    (out : SuplaExtendedValue) × (supla_extval_set (some fresh_extvalue) (some one_byte)
      ≡ (some out, result_true))
    × (SameHead fresh_extvalue.extval one_byte
        → (out.extval ≡ fresh_extvalue.extval)
          × (fresh_extvalue.sync_onchange ≢ 0 → out.sync ≡ fresh_extvalue.sync))
    × ((SameHead fresh_extvalue.extval one_byte → ⊥) → (out.extval ≡ one_byte) × (out.sync ≡ 0))
supla_extval_set_lem_example =
    supla_extval_set_lem fresh_extvalue one_byte fresh_extvalue-IsSized one_byte-IsSized
      (omega arith)
