-- ===== src/Device/Register/Header.antt =====
-- What becomes of the two binary keys, GUID and AuthKey, that the header copies as C strings.
use libsupla.Prelude.{
  ℕ, zero, suc, ◌-◌, ◌≤◌, ◌≡◌, ◌↔◌, refl, sym, ap, ◌∙◌, [], ◌∷◌, ◌++◌, length, take, drop,
  replicate, arith, Bytes, c_string, strlen, strncpy,
}
use mathlib.Core.List.{append-nil}
use libsupla.Device.{Device}
use libsupla.Device.Register.{register_header}

-- From its first zero byte on, the key is zero.
abbrev pub ZeroPadded : Bytes → Type 0
ZeroPadded key = drop (strlen key) key ≡ replicate (length key - strlen key) 0

-- The string copied into a cleared array of the key's size.
copied : Bytes → Bytes
copied key = c_string key ++ replicate (length key - strlen key) 0

strlen-le : (key : Bytes) → strlen key ≤ length key
unfolding c_string
strlen-le [] = omega arith
strlen-le (zero ∷ key) = omega arith
strlen-le (suc c ∷ key) = omega (arith, strlen-le key)

c_string-append-drop : (key : Bytes) → c_string key ++ drop (strlen key) key ≡ key
unfolding c_string
c_string-append-drop [] = refl
c_string-append-drop (zero ∷ key) = refl
c_string-append-drop (suc c ∷ key) = ap (λ t. suc c ∷ t) (c_string-append-drop key)

take-c_string : (key : Bytes) (n : ℕ) → length key ≤ n → take n (c_string key) ≡ c_string key
unfolding c_string
take-c_string [] zero h = refl
take-c_string [] (suc n) h = refl
take-c_string (zero ∷ key) zero h = refl
take-c_string (zero ∷ key) (suc n) h = refl
take-c_string (suc c ∷ key) zero h = absurd (omega arith)
take-c_string (suc c ∷ key) (suc n) h = ap (λ t. suc c ∷ t) (take-c_string key n (omega arith))

append_cancel : (s a b : Bytes) → s ++ a ≡ s ++ b → a ≡ b
append_cancel [] a b e = e
append_cancel (x ∷ s) a b e = append_cancel s a b (cc e)

copied_iff : (key : Bytes) → (copied key ≡ key) ↔ ZeroPadded key
unfolding copied
copied_iff key = (
  λ e. sym (append_cancel (c_string key) _ _ (e ∙ sym (c_string-append-drop key))),
  λ h. ap (λ t. c_string key ++ t) (sym h) ∙ c_string-append-drop key,
)

drop-replicate : (n : ℕ) → drop n (replicate {A = ℕ} n 0) ≡ []
drop-replicate zero = refl
drop-replicate (suc n) = drop-replicate n

strncpy-copied : (key : Bytes) (n : ℕ) → length key ≡ n → strncpy (replicate n 0) key n ≡ copied key
unfolding strncpy copied
strncpy-copied key n e =
    rw (take-c_string key n (omega arith), e, drop-replicate n)
      (ap (λ t. c_string key ++ t) (append-nil (replicate (n - strlen key) 0)))

copied-field :
    (key : Bytes) (n : ℕ) → length key ≡ n → (strncpy (replicate n 0) key n ≡ key) ↔ ZeroPadded key
copied-field key n e = rw (strncpy-copied key n e) (copied_iff key)

-- The header carries the configured GUID exactly if the GUID has nothing but zeros from its first
-- zero byte on, and likewise the AuthKey; both have 16 bytes.
pub register_header-keys :
    (dev : Device)
    → length dev.supla_config.guid ≡ 16
    → length dev.supla_config.auth_key ≡ 16
    → (((register_header dev).guid ≡ dev.supla_config.guid) ↔ ZeroPadded dev.supla_config.guid)
      × (((register_header dev).auth_key ≡ dev.supla_config.auth_key)
          ↔ ZeroPadded dev.supla_config.auth_key)
unfolding register_header
register_header-keys dev g a =
    (copied-field dev.supla_config.guid 16 g, copied-field dev.supla_config.auth_key 16 a)
