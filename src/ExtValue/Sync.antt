-- ===== src/ExtValue/Sync.antt =====
-- What `supla_extval_set` does with a new extended value, and which changes it does not see.
use libsupla.Prelude.{
  ℕ, ◌%◌, ◌/◌, ◌≤◌, ◌<◌, ◌≡◌, ◌≢◌, sym, ◌∙◌, refl, some, arith, memcmp_eq, take, length, true,
  false, ltb_of_ge, memcmp_eq-take, memcmp_eq_of_take, Bool-cases, inl, inr, ◌∷◌,
}
use libsupla.Value.{result_true}
use libsupla.ExtValue.{
  ChannelExtendedValue, SuplaExtendedValue, channelextendedvalue_size, memory, request_sync,
  store_changed, supla_extval_set,
}

-- The array has its 1024 bytes, and the size field fits its 32 bits.
pub record IsSized (e : ChannelExtendedValue) : Type 0 where
  pub array : length e.value ≡ channelextendedvalue_size
  pub small : e.size < 4294967296

-- What the comparison looks at: the header and the first 1019 of the 1024 bytes.
pub record SameHead (a b : ChannelExtendedValue) : Type 0 where
  pub type : a.type ≡ b.type
  pub size : a.size ≡ b.size
  pub value : take 1019 a.value ≡ take 1019 b.value

bytes_of_size :
    (a b : ℕ)
    → a < 4294967296
    → b < 4294967296
    → a % 256 ≡ b % 256
    → a / 256 % 256 ≡ b / 256 % 256
    → a / 65536 % 256 ≡ b / 65536 % 256
    → a / 16777216 % 256 ≡ b / 16777216 % 256
    → a ≡ b
bytes_of_size a b ha hb p q r s = omega arith

take-memory :
    (e : ChannelExtendedValue)
    → take 1024 (memory e)
      ≡ e.type
        ∷ (e.size % 256)
        ∷ (e.size / 256 % 256)
        ∷ (e.size / 65536 % 256)
        ∷ (e.size / 16777216 % 256)
        ∷ take 1019 e.value
unfolding memory
take-memory e = refl

module _ (a b : ChannelExtendedValue) (sa : IsSized a) (sb : IsSized b) where
  length-memory-le : (e : ChannelExtendedValue) → IsSized e → 1024 ≤ length (memory e)
  unfolding memory
  length-memory-le e s = omega (arith, s.array)

  SameHead-of_memcmp : memcmp_eq (memory a) (memory b) 1024 ≡ true → SameHead a b
  SameHead-of_memcmp e =
      let h : take 1024 (memory a) ≡ take 1024 (memory b) =
        memcmp_eq-take (memory a) (memory b) 1024 (length-memory-le a sa) (length-memory-le b sb)
          e in
      let k = sym (take-memory a) ∙ h ∙ take-memory b in
      record {
        type = ground (arith, k);
        size = bytes_of_size a.size b.size sa.small sb.small (cc k) (cc k) (cc k) (cc k);
        value = cc k;
      }

  memcmp_of_SameHead : SameHead a b → memcmp_eq (memory a) (memory b) 1024 ≡ true
  memcmp_of_SameHead h =
      memcmp_eq_of_take (memory a) (memory b) 1024
        (take-memory a ∙ cc (h.type, h.size, h.value) ∙ sym (take-memory b))

extval-request_sync : (sv : SuplaExtendedValue) → (request_sync sv).extval ≡ sv.extval
unfolding request_sync
extval-request_sync sv = ground arith

sync-request_sync :
    (sv : SuplaExtendedValue) → sv.sync_onchange ≢ 0 → (request_sync sv).sync ≡ sv.sync
unfolding request_sync
sync-request_sync sv h = ground arith

store_same :
    (sv : SuplaExtendedValue) (e : ChannelExtendedValue)
    → memcmp_eq (memory sv.extval) (memory e) channelextendedvalue_size ≡ true
    → store_changed sv e ≡ sv
unfolding store_changed
store_same sv e h = rw h

store_new :
    (sv : SuplaExtendedValue) (e : ChannelExtendedValue)
    → memcmp_eq (memory sv.extval) (memory e) channelextendedvalue_size ≡ false
    → store_changed sv e ≡ record sv { extval = e; sync = 0 }
unfolding store_changed
store_new sv e h = rw h

supla_extval_set-accepts :
    (sv : SuplaExtendedValue) (e : ChannelExtendedValue)
    → e.size ≤ channelextendedvalue_size
    → supla_extval_set (some sv) (some e) ≡ (some (store_changed (request_sync sv) e), result_true)
unfolding supla_extval_set
supla_extval_set-accepts sv e fits = rw (ltb_of_ge channelextendedvalue_size e.size fits)

-- A non-null extended value of up to 1024 bytes is accepted. If the header and the first 1019 bytes
-- are those already held, what is held stays, and so does the sync flag under `sync_onchange`.
-- Otherwise the new value is held and waits for transmission.
pub supla_extval_set_lem :
    (sv : SuplaExtendedValue) (e : ChannelExtendedValue)
    → IsSized sv.extval
    → IsSized e
    → e.size ≤ channelextendedvalue_size
    → (out : SuplaExtendedValue) × (supla_extval_set (some sv) (some e) ≡ (some out, result_true))
      × (SameHead sv.extval e
          → (out.extval ≡ sv.extval) × (sv.sync_onchange ≢ 0 → out.sync ≡ sv.sync))
      × ((SameHead sv.extval e → ⊥) → (out.extval ≡ e) × (out.sync ≡ 0))
supla_extval_set_lem sv e ss se fits = (
  store_changed (request_sync sv) e,
  supla_extval_set-accepts sv e fits,
  λ same. held (memcmp_of_SameHead sv.extval e ss se same),
  λ differ. replaced differ,
)
  where
    split :
        memcmp_eq (memory (request_sync sv).extval) (memory e) 1024
        ≡ memcmp_eq (memory sv.extval) (memory e) 1024
    split = rw extval-request_sync

    held :
        memcmp_eq (memory sv.extval) (memory e) 1024 ≡ true
        → let out = store_changed (request_sync sv) e in
          (out.extval ≡ sv.extval) × (sv.sync_onchange ≢ 0 → out.sync ≡ sv.sync)
    held eq =
        rw (store_same (request_sync sv) e (split ∙ eq))
          (extval-request_sync sv, sync-request_sync sv)

    replaced :
        (SameHead sv.extval e → ⊥)
        → let out = store_changed (request_sync sv) e in (out.extval ≡ e) × (out.sync ≡ 0)
    replaced differ = elim (Bool-cases (memcmp_eq (memory sv.extval) (memory e) 1024)) [
      | inl eq ↦ absurd (differ (SameHead-of_memcmp sv.extval e ss se eq))
      | inr ne ↦ rw (store_new (request_sync sv) e (split ∙ ne)) (refl, refl)
    ]
