-- ===== src/Value/Sync.antt =====
-- What `supla_val_set` promises its callers.
use libsupla.Prelude.{
  ℕ, ◌≤◌, ◌<◌, ◌≡◌, ◌≢◌, ◌⊎◌, some, arith, Bytes, memcmp_eq, memcpy, take, length, refl,
  memcmp_eq-take, memcmp_eq_of_take, memcpy_same, length-memcpy, Bool-cases, inl, inr, true, false,
}
use libsupla.Value.{
  SuplaValue, channelvalue_size, result_false, result_true, request_sync, store_changed,
  supla_val_set, supla_val_init,
}

-- The value array of the struct has its eight bytes.
abbrev pub IsSized : SuplaValue → Type 0
IsSized sv = length sv.value ≡ channelvalue_size

pub supla_val_init-IsSized : (onchange : ℕ) → IsSized (supla_val_init onchange)
unfolding supla_val_init
supla_val_init-IsSized onchange = refl

-- What an accepted call leaves behind.
pub record Stored (sv : SuplaValue) (value : Bytes) (len : ℕ) (out : SuplaValue) : Type 0 where
  pub stored : out.value ≡ memcpy sv.value value len
  pub sized : IsSized out
  pub onchange_kept : out.sync_onchange ≡ sv.sync_onchange
  -- The value waits for transmission if it did already, if every call asks for one, or if it
  -- changed, and in no other case; otherwise the flag keeps its value.
  pub pending :
      (sv.sync ≡ 0) ⊎ ((sv.sync_onchange ≡ 0) ⊎ (take len sv.value ≢ take len value)) → out.sync ≡ 0
  pub settled : sv.sync_onchange ≢ 0 → take len sv.value ≡ take len value → out.sync ≡ sv.sync

module _ (sv : SuplaValue) (value : Bytes) (len : ℕ) (sized : IsSized sv)
    (fits : len ≤ channelvalue_size) (readable : len ≤ length value) where
  Stored-equal :
      memcmp_eq sv.value value len ≡ true
      → Stored sv value len (store_changed (request_sync sv) value len)
  unfolding store_changed request_sync
  Stored-equal e =
      let same : take len sv.value ≡ take len value =
        memcmp_eq-take sv.value value len (omega arith) readable e in
      ground (arith, memcpy_same sv.value value len same)

  Stored-different :
      memcmp_eq sv.value value len ≡ false
      → Stored sv value len (store_changed (request_sync sv) value len)
  unfolding store_changed request_sync
  Stored-different e = ground (
    arith,
    length-memcpy sv.value value len readable (omega arith),
    memcmp_eq_of_take sv.value value len,
  )

-- For a value of eight bytes and a readable source: up to eight bytes are accepted and stored, with
-- the sync flag as `Stored` says; a longer value is refused and changes nothing.
pub supla_val_set_lem :
    (sv : SuplaValue) (value : Bytes) (len : ℕ)
    → IsSized sv
    → len ≤ length value
    → (len ≤ channelvalue_size
        → (out : SuplaValue) × (supla_val_set (some sv) value len ≡ (some out, result_true))
          × Stored sv value len out)
      × (channelvalue_size < len → supla_val_set (some sv) value len ≡ (some sv, result_false))
unfolding supla_val_set
supla_val_set_lem sv value len sized readable = (accept, λ long. ground arith)
  where
    out : SuplaValue
    out = store_changed (request_sync sv) value len

    kept : len ≤ channelvalue_size → Stored sv value len out
    kept fits = elim (Bool-cases (memcmp_eq sv.value value len)) [
      | inl e ↦ Stored-equal sv value len sized fits readable e
      | inr e ↦ Stored-different sv value len sized fits readable e
    ]

    accept :
        len ≤ channelvalue_size
        → (out : SuplaValue) × (supla_val_set (some sv) value len ≡ (some out, result_true))
          × Stored sv value len out
    accept fits = (out, ground arith, kept fits)
