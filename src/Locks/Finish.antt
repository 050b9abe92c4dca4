-- ===== src/Locks/Finish.antt =====
-- Threads of calls into src/device.c and src/channel.c come to their end, whatever their order.
use libsupla.Prelude.{ℕ, zero, suc, ◌+◌, ◌≤◌, ◌<◌, ◌≡◌, ◌≢◌, refl, subst, [], ◌∷◌, arith, length}
use native.Mathlib.Decide.{dec_lt}
use libsupla.Locks.{Calls}
use libsupla.Locks.Discipline.{Follows}
use libsupla.Locks.Threads.{
  Thread, with_thread, Step, takes, gives, Steps, here, later, Run, starting, IsOrderly,
  Step-IsOrderly, Run-IsOrderly,
}
use libsupla.Locks.Progress.{some_moves}

-- The operations that n threads have before them.
unfoldable pub left : ℕ → (ℕ → Thread) → ℕ
left zero s = 0
left (suc n) s = left n s + length (s n).rest

-- The threads are through, and hold no lock.
abbrev pub AreDone : ℕ → (ℕ → Thread) → Type 0
AreDone zero s = Unit {0}
AreDone (suc n) s = AreDone n s × ((s n).held ≡ []) × ((s n).rest ≡ [])

left-with_outside :
    (n : ℕ) (s : ℕ → Thread) (i : ℕ) (t : Thread) → n ≤ i → left n (with_thread s i t) ≡ left n s
unfolding left
left-with_outside zero s i t h = refl
left-with_outside (suc n) s i t h = ground (arith, left-with_outside n s i t)

left-with_thread :
    (n : ℕ) (s : ℕ → Thread) (i : ℕ) (t : Thread)
    → i < n
    → left n (with_thread s i t) + length (s i).rest ≡ left n s + length t.rest
unfolding left
left-with_thread zero s i t h = absurd (omega arith)
left-with_thread (suc n) s i t h = elim (dec_lt i n) [
  | yes below ↦ ground (arith, left-with_thread n s i t below)
  | no last ↦ ground (arith, left-with_outside n s i t)
]

-- A step makes one operation.
left-Step : (n : ℕ) (s t : ℕ → Thread) → Step n s t → suc (left n t) ≡ left n s
left-Step n s _ (takes i l ops lt e free) =
    ground (arith, left-with_thread n s i (record { held = l ∷ (s i).held; rest = ops }) lt)
left-Step n s _ (gives i l ops held lt e f) =
    ground (arith, left-with_thread n s i (record { held = held; rest = ops }) lt)

left-Steps :
    (n : ℕ) (s : ℕ → Thread) (m : ℕ) (t : ℕ → Thread) → Steps n s m t → m + left n t ≡ left n s
left-Steps n s _ _ here = omega arith
left-Steps n s _ _ (later m t u r st) = omega (arith, left-Steps n s m t r, left-Step n t u st)

busy : (n : ℕ) (s : ℕ → Thread) → 0 < left n s → (i : ℕ) × (i < n) × ((s i).rest ≢ [])
unfolding left
busy zero s h = absurd (omega arith)
busy (suc n) s h = elim (dec_lt 0 (left n s)) [
  | yes p ↦ let (i, lt, ne) = busy n s p in (i, omega arith, ne)
  | no p ↦ (n, omega arith, λ e. ground (arith, e))
]

done :
    (n : ℕ) (s : ℕ → Thread)
    → ((i : ℕ) → Follows (s i).held (s i).rest)
    → left n s ≡ 0
    → AreDone n s
unfolding left
done zero s f h = tt
done (suc n) s f h =
    let e : (s n).rest ≡ [] = ground arith in
    (done n s f (omega arith), subst (Follows (s n).held) e (f n), e)

completes :
    (n : ℕ) (s : ℕ → Thread) (w k : ℕ) (u : ℕ → Thread)
    → Steps n s k u
    → IsOrderly n u
    → left n u ≡ w
    → (t : ℕ → Thread) × (m : ℕ) × Steps n s m t × (m ≡ w + k) × AreDone n t
completes n s zero k u r o e = (u, k, r, omega arith, done n u o.follows e)
completes n s (suc w) k u r o e =
    let (i, lt, ne) = busy n u (omega arith) in
    let (v, st) = some_moves n u o i lt ne in
    let (t, m, steps, count, d) =
      completes n s w (suc k) v (later k u v r st) (Step-IsOrderly n u v st o)
        (omega (arith, left-Step n u v st)) in
    (t, m, steps, omega arith, d)

-- However the operations of threads that call the functions of the device and of its channels have
-- been interleaved, the run has at most as many steps as the calls have operations, and it goes on,
-- by the steps that are missing to that number, to where every thread is through and holds no lock.
pub all_finish :
    (n : ℕ) (program : ℕ → Calls) (m : ℕ) (s : ℕ → Thread)
    → Run n program m s
    → (t : ℕ → Thread) × (k : ℕ) × Steps n s k t × (m + k ≡ left n (starting program)) × AreDone n t
all_finish n program m s r =
    let (t, k, steps, count, d) =
      completes n s (left n s) 0 s here (Run-IsOrderly n program m s r) refl in
    (t, k, steps, omega (arith, left-Steps n (starting program) m s r), d)
