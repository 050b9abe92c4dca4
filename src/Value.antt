-- ===== src/Value.antt =====
-- src/supla-value.c and src/supla-value.h: the value of a channel and its sync flag. A `char`
-- that serves as a flag is the number it holds; `sync` is 0 while the value waits to be sent.
pub mod Sync
mod Tests
use libsupla.Prelude.{
  ℕ, Option, none, some, Bytes, memcmp_eq, memcpy, replicate, ltb, ◌==◌, if◌then◌else◌,
}

-- SUPLA_CHANNELVALUE_SIZE
abbrev pub channelvalue_size : ℕ
channelvalue_size = 8

-- SUPLA_RESULT_FALSE, SUPLA_RESULT_TRUE
abbrev pub result_false : ℕ
result_false = 0

abbrev pub result_true : ℕ
result_true = 1

-- `supla_value_t`
pub record SuplaValue : Type 0 where
  pub sync : ℕ
  pub sync_onchange : ℕ
  pub value : Bytes

-- `supla_val_init`: the block is cleared, then the two flags are set.
unfoldable pub supla_val_init : ℕ → SuplaValue
supla_val_init sync_onchange = record {
  sync = 1;
  sync_onchange = sync_onchange;
  value = replicate channelvalue_size 0;
}

-- the first `if` on the flags: without `sync_onchange` every call asks for a transmission
request_sync : SuplaValue → SuplaValue
request_sync sv = if sv.sync_onchange == 0 then record sv { sync = 0 } else sv

store_changed : SuplaValue → Bytes → ℕ → SuplaValue
store_changed sv value len =
    if memcmp_eq sv.value value len
    then sv
    else record sv { value = memcpy sv.value value len; sync = 0 }

-- `supla_val_set`; `none` is the null pointer.
unfoldable pub supla_val_set : Option SuplaValue → Bytes → ℕ → Option SuplaValue × ℕ
unfolding request_sync store_changed
supla_val_set none value len = (none, result_false)
supla_val_set (some sv) value len =
    if ltb channelvalue_size len
    then (some sv, result_false)
    else (some (store_changed (request_sync sv) value len), result_true)
