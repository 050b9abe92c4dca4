-- ===== src/Device/Access/Names.antt =====
-- `supla_dev_set_name` and `supla_dev_get_name` of src/device.c: the device's name in its array of
-- 201 bytes.
use libsupla.Prelude.{
  ℕ, zero, suc, ◌-◌, ◌≤◌, ◌<◌, ◌≡◌, refl, subst, ◌∙◌, ap, [], ◌∷◌, ◌++◌, Bytes, take, drop, length,
  replicate, c_string, strncpy, strlen, length-take, length-strncpy, drop-strncpy, arith, Option,
}
use libsupla.Prelude.Int.{ℤ}
use libsupla.Device.{Device}
use libsupla.Device.Access.{device_name_maxsize, supla_dev_set_name, supla_dev_get_name, new_device}

c_string-terminated :
    (s t : Bytes) (n : ℕ) → c_string (take n (c_string s) ++ (0 ∷ t)) ≡ take n (c_string s)
unfolding c_string
c_string-terminated [] t zero = refl
c_string-terminated [] t (suc n) = refl
c_string-terminated (zero ∷ s) t zero = refl
c_string-terminated (zero ∷ s) t (suc n) = refl
c_string-terminated (suc c ∷ s) t zero = refl
c_string-terminated (suc c ∷ s) t (suc n) = ap (λ r. suc c ∷ r) (c_string-terminated s t n)

c_string-zeros :
    (s t : Bytes) (n k : ℕ)
    → c_string (take n (c_string s) ++ (replicate k 0 ++ (0 ∷ t))) ≡ take n (c_string s)
c_string-zeros s t n zero = c_string-terminated s t n
c_string-zeros s t n (suc k) = c_string-terminated s (replicate k 0 ++ (0 ∷ t)) n

take-all : (s : Bytes) (n : ℕ) → length s ≤ n → take n s ≡ s
take-all [] zero h = refl
take-all [] (suc n) h = refl
take-all (x ∷ s) zero h = absurd (omega arith)
take-all (x ∷ s) (suc n) h = ap (λ r. x ∷ r) (take-all s n (omega arith))

zeros_after :
    (s t : Bytes) (k : ℕ) → 0 < k → c_string (c_string s ++ (replicate k 0 ++ t)) ≡ c_string s
zeros_after s t zero h = absurd (omega arith)
zeros_after s t (suc k) h =
    let whole = take-all (c_string s) (length (c_string s)) (omega arith) in
    subst (λ r. c_string (r ++ (replicate (suc k) 0 ++ t)) ≡ r) whole
      (c_string-terminated s (replicate k 0 ++ t) (length (c_string s)))

-- A string that is shorter than the copy is copied whole.
c_string-strncpy :
    (dst src : Bytes) (n : ℕ) → strlen src < n → c_string (strncpy dst src n) ≡ c_string src
unfolding strncpy
c_string-strncpy dst src n h =
    rw (take-all (c_string src) n (omega arith))
      (zeros_after src (drop n dst) (n - length (c_string src)) (omega arith))

-- The array of a name: 201 bytes, the last one 0.
unfoldable pub IsNameArray : Bytes → Type 0
IsNameArray name =
    (length name ≡ device_name_maxsize) × (drop (device_name_maxsize - 1) name ≡ 0 ∷ [])

set_name-string :
    (dst src : Bytes) → IsNameArray dst → c_string (strncpy dst src 200) ≡ take 200 (c_string src)
unfolding strncpy IsNameArray
set_name-string dst src (len, last) =
    rw (last) (c_string-zeros src [] 200 (200 - length (take 200 (c_string src))))

set_name-IsNameArray : (dst src : Bytes) → IsNameArray dst → IsNameArray (strncpy dst src 200)
unfolding IsNameArray
set_name-IsNameArray dst src (len, last) =
    (length-strncpy dst src 200 (omega arith) ∙ len, drop-strncpy dst src 200 ∙ last)

new-IsNameArray : (text : Bytes) → IsNameArray (strncpy (replicate device_name_maxsize 0) text 200)
new-IsNameArray text =
    set_name-IsNameArray (replicate device_name_maxsize 0) text (unfold IsNameArray in (refl, refl))

-- On a device whose name stands in an array of 201 bytes with a 0 at the end, `supla_dev_set_name`
-- keeps it so, and `supla_dev_get_name` into a buffer of more than 200 bytes then gives the first 200
-- bytes of the name that was set, whatever the buffer held.
set_name-get_name :
    (dev : Device) (name buf : Bytes) (len : ℕ)
    → IsNameArray dev.name
    → device_name_maxsize ≤ len
    → IsNameArray (supla_dev_set_name dev name).0.name
      × (c_string (supla_dev_get_name (supla_dev_set_name dev name).0 buf len).0
          ≡ take 200 (c_string name))
unfolding supla_dev_set_name supla_dev_get_name
set_name-get_name dev name buf len h fits =
    let stored = set_name-string dev.name name h in
    (
      set_name-IsNameArray dev.name name h,
      c_string-strncpy buf (strncpy dev.name name 200) len
            (rw stored (omega (arith, length-take 200 (c_string name))))
          ∙ stored,
    )

-- A new device has such a name.
new_device-IsNameArray :
    (self : ℕ) (name soft_ver : Option Bytes) (default : Bytes) (now : ℤ)
    → IsNameArray (new_device self name soft_ver default now).name
unfolding new_device
new_device-IsNameArray self name soft_ver default now = new-IsNameArray _
