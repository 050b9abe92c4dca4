-- ===== src/ExtValue.antt =====
-- src/supla-extvalue.c and src/supla-extvalue.h: the extended value of a channel and its sync flag.
pub mod Sync
mod Tests
use libsupla.Prelude.{
  ℕ, ◌%◌, ◌/◌, ◌^◌, Option, none, some, Bytes, memcmp_eq, replicate, ltb, ◌==◌, if◌then◌else◌, List,
  [], ◌∷◌, ◌++◌,
}
use libsupla.Value.{result_false, result_true}

-- SUPLA_CHANNELEXTENDEDVALUE_SIZE on a host system
abbrev pub channelextendedvalue_size : ℕ
channelextendedvalue_size = 1024

-- `TSuplaChannelExtendedValue`, a packed struct: a byte, an unsigned 32-bit size, the bytes
pub record ChannelExtendedValue : Type 0 where
  pub type : ℕ
  pub size : ℕ
  pub value : Bytes

-- The bytes of the struct in memory, the size with its low byte first.
unfoldable pub memory : ChannelExtendedValue → Bytes
memory e =
    e.type
    ∷ (e.size % 256)
    ∷ (e.size / 256 % 256)
    ∷ (e.size / 65536 % 256)
    ∷ (e.size / 16777216 % 256)
    ∷ e.value

-- `supla_extended_value_t`
pub record SuplaExtendedValue : Type 0 where
  pub sync : ℕ
  pub sync_onchange : ℕ
  pub extval : ChannelExtendedValue

-- `supla_extval_init`
unfoldable pub supla_extval_init : ℕ → SuplaExtendedValue
supla_extval_init sync_onchange = record {
  sync = 1;
  sync_onchange = sync_onchange;
  extval = record { type = 0; size = 0; value = replicate channelextendedvalue_size 0 };
}

-- the first `if` on the flags
request_sync : SuplaExtendedValue → SuplaExtendedValue
request_sync sv = if sv.sync_onchange == 0 then record sv { sync = 0 } else sv

-- The comparison is over SUPLA_CHANNELEXTENDEDVALUE_SIZE bytes of the whole struct.
store_changed : SuplaExtendedValue → ChannelExtendedValue → SuplaExtendedValue
store_changed sv extval =
    if memcmp_eq (memory sv.extval) (memory extval) channelextendedvalue_size
    then sv
    else record sv { extval = extval; sync = 0 }

-- `supla_extval_set`; `none` is the null pointer, of either argument.
unfoldable pub supla_extval_set :
    Option SuplaExtendedValue → Option ChannelExtendedValue → Option SuplaExtendedValue × ℕ
unfolding request_sync store_changed
supla_extval_set none extval = (none, result_false)
supla_extval_set (some sv) none = (some sv, result_false)
supla_extval_set (some sv) (some extval) =
    if ltb channelextendedvalue_size extval.size
    then (some sv, result_false)
    else (some (store_changed (request_sync sv) extval), result_true)
