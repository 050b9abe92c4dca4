-- ===== src/Prelude/Memory.antt =====
-- Byte arrays as lists of numbers, and the C library's functions on them: memcmp, memcpy,
-- strlen and strncpy. A buffer is the list of its bytes; C's strings end at their first 0.
use Prim.Native.Nat.{ℕ, zero, suc, ◌-◌, ◌≤◌}
use mathlib.Core.Path.{◌≡◌, refl, sym, ap, ◌∙◌}
use mathlib.Core.Bool.{Bool, true, ◌&&◌}
use mathlib.Core.List.{List, [], ◌∷◌, ◌++◌, append_assoc}
use native.Mathlib.Omega.{arith}
use libsupla.Prelude.Tests.{◌==◌}
use libsupla.Prelude.Lists.{
  length, take, drop, replicate, length-append, length-take, length-drop, length-replicate,
  take-append-drop, drop-append,
}

abbrev pub Bytes : Type 0
Bytes = List ℕ

-- `memcmp(a, b, n) == 0`; the comparison stops where an array ends.
unfoldable pub memcmp_eq : Bytes → Bytes → ℕ → Bool
memcmp_eq a b zero = true
memcmp_eq [] b (suc n) = true
memcmp_eq (x ∷ a) [] (suc n) = true
memcmp_eq (x ∷ a) (y ∷ b) (suc n) = x == y && memcmp_eq a b n

-- `memcpy(dst, src, n)`: the first n bytes of `dst` are replaced.
abbrev pub memcpy : Bytes → Bytes → ℕ → Bytes
memcpy dst src n = take n src ++ drop n dst

-- The string in a buffer: the bytes before the first 0.
unfoldable pub c_string : Bytes → Bytes
c_string [] = []
c_string (zero ∷ s) = []
c_string (suc c ∷ s) = suc c ∷ c_string s

-- `strlen`, and `strnlen` of a buffer of the given size
abbrev pub strlen : Bytes → ℕ
strlen s = length (c_string s)

-- `strncpy(dst, src, n)`: the string of `src` up to n bytes, zeros up to n, then what `dst` held.
unfoldable pub strncpy : Bytes → Bytes → ℕ → Bytes
strncpy dst src n = let s = take n (c_string src) in s ++ (replicate (n - length s) 0 ++ drop n dst)

pub memcmp_eq-take :
    (a b : Bytes) (n : ℕ)
    → n ≤ length a
    → n ≤ length b
    → memcmp_eq a b n ≡ true
    → take n a ≡ take n b
unfolding memcmp_eq
memcmp_eq-take a b zero ha hb e = refl
memcmp_eq-take [] b (suc n) ha hb e = absurd (omega arith)
memcmp_eq-take (x ∷ a) [] (suc n) ha hb e = absurd (omega arith)
memcmp_eq-take (x ∷ a) (y ∷ b) (suc n) ha hb e =
    ground (arith, memcmp_eq-take a b n (omega arith) (omega arith))

pub memcmp_eq_refl : (a : Bytes) (n : ℕ) → memcmp_eq a a n ≡ true
unfolding memcmp_eq
memcmp_eq_refl a zero = refl
memcmp_eq_refl [] (suc n) = refl
memcmp_eq_refl (x ∷ a) (suc n) = ground (arith, memcmp_eq_refl a n)

-- Buffers that agree on their first n bytes compare equal there.
pub memcmp_eq_of_take : (a b : Bytes) (n : ℕ) → take n a ≡ take n b → memcmp_eq a b n ≡ true
unfolding memcmp_eq
memcmp_eq_of_take a b zero e = refl
memcmp_eq_of_take [] b (suc n) e = refl
memcmp_eq_of_take (x ∷ a) [] (suc n) e = refl
memcmp_eq_of_take (x ∷ a) (y ∷ b) (suc n) e = ground (arith, memcmp_eq_of_take a b n)

pub length-memcpy :
    (dst src : Bytes) (n : ℕ)
    → n ≤ length src
    → n ≤ length dst
    → length (memcpy dst src n) ≡ length dst
length-memcpy dst src n hs hd =
    omega (arith, length-append (take n src) (drop n dst), length-take n src, length-drop n dst)

pub length-strncpy :
    (dst src : Bytes) (n : ℕ) → n ≤ length dst → length (strncpy dst src n) ≡ length dst
unfolding strncpy
length-strncpy dst src n h =
    let s = take n (c_string src) in
    omega (
      arith,
      length-append s (replicate (n - length s) 0 ++ drop n dst),
      length-append {A = ℕ} (replicate (n - length s) 0) (drop n dst),
      length-replicate {A = ℕ} (n - length s) 0,
      length-take n (c_string src),
      length-drop n dst,
    )

-- Behind the bytes that are written the buffer stays.
pub drop-strncpy : (dst src : Bytes) (n : ℕ) → drop n (strncpy dst src n) ≡ drop n dst
unfolding strncpy
drop-strncpy dst src n =
    let s = take n (c_string src) in
    ap (drop n) (sym (append_assoc s (replicate (n - length s) 0) (drop n dst)))
    ∙ drop-append (s ++ replicate (n - length s) 0) (drop n dst) n (
        omega (
          arith,
          length-append {A = ℕ} s (replicate (n - length s) 0),
          length-replicate {A = ℕ} (n - length s) 0,
          length-take n (c_string src),
        ))

-- Copying bytes that are already there changes nothing.
pub memcpy_same : (dst src : Bytes) (n : ℕ) → take n dst ≡ take n src → memcpy dst src n ≡ dst
memcpy_same dst src n e = rw (← e) (take-append-drop n dst)
