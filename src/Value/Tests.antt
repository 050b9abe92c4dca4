-- ===== src/Value/Tests.antt =====
-- The value of a channel at concrete inputs.
use libsupla.Prelude.{◌≡◌, some, Bytes, [], ◌∷◌, arith}
use libsupla.Value.{SuplaValue, supla_val_init, supla_val_set, result_true}
use libsupla.Value.Sync.{Stored, supla_val_init-IsSized, supla_val_set_lem}

abbrev fresh_value : SuplaValue
fresh_value = supla_val_init 1

abbrev three_bytes : Bytes
three_bytes = 1 ∷ 2 ∷ 3 ∷ []

supla_val_set_lem_example :
    (out : SuplaValue) × (supla_val_set (some fresh_value) three_bytes 3 ≡ (some out, result_true))
    × Stored fresh_value three_bytes 3 out
supla_val_set_lem_example =
    (supla_val_set_lem fresh_value three_bytes 3 (supla_val_init-IsSized 1) (omega arith)).0
      (omega arith)
