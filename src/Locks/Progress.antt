-- ===== src/Locks/Progress.antt =====
-- Threads of calls into src/device.c and src/channel.c do not wait for one another in a circle.
use libsupla.Prelude.{
  ℕ, zero, suc, ◌<◌, ◌≡◌, ◌≢◌, ◌⊎◌, refl, subst, inl, inr, true, false, List, [], ◌∷◌, arith,
  Bool-cases,
}
use native.Mathlib.Decide.{ℕ_discrete, dec_lt}
use libsupla.Locks.{LockOp, locks, unlocks, device_lock, Calls}
use libsupla.Locks.Discipline.{is_held, Follows}
use libsupla.Locks.Threads.{Thread, IsFree, Step, takes, gives, Run, IsOrderly, Run-IsOrderly}

-- Some thread can make its next operation.
abbrev pub CanStep : ℕ → (ℕ → Thread) → Type 0
CanStep n s = (t : ℕ → Thread) × Step n s t

-- Another thread holds the lock.
abbrev IsTaken : ℕ → (ℕ → Thread) → ℕ → ℕ → Type 0
IsTaken n s i l = (j : ℕ) × (j < n) × (j ≢ i) × (is_held l (s j).held ≡ true)

IsFree-or_IsTaken : (n : ℕ) (s : ℕ → Thread) (i l : ℕ) → IsFree n s i l ⊎ IsTaken n s i l
IsFree-or_IsTaken zero s i l = inl (λ j lt. absurd (omega arith))
IsFree-or_IsTaken (suc n) s i l = elim (IsFree-or_IsTaken n s i l) [
  | inr (j, lt, ne, h) ↦ inr (j, omega arith, ne, h)
  | inl free ↦ elim (ℕ_discrete n i) [
    | yes e ↦
        inl (λ j lt ne.
          free j (elim (dec_lt j n) [ yes p ↦ p | no p ↦ absurd (ne (omega arith)) ]) ne)
    | no ne ↦ elim (Bool-cases (is_held l (s n).held)) [
      | inl h ↦ inr (n, omega arith, ne, h)
      | inr h ↦ inl (λ j lt other. elim (ℕ_discrete j n) [
        | yes e ↦ rw e h
        | no p ↦ free j (omega arith) other
      ])
    ]
  ]
]

module _ (n : ℕ) (s : ℕ → Thread) where
  -- A thread that has an operation before it makes it, or another holds the lock that it wants.
  moves_or_waits :
      (i : ℕ)
      → i < n
      → (held : List ℕ) (rest : List LockOp) → (s i).held ≡ held
      → (s i).rest ≡ rest
      → Follows held rest
      → rest ≢ []
      → CanStep n s ⊎ ((l : ℕ) × IsTaken n s i l)
  moves_or_waits i lt held [] eh er f ne = absurd (ne refl)
  moves_or_waits i lt held (locks l ∷ ops) eh er f ne = elim (IsFree-or_IsTaken n s i l) [
    | inl free ↦ inl (_, takes i l ops lt er free)
    | inr taken ↦ inr (l, taken)
  ]
  moves_or_waits i lt [] (unlocks l ∷ ops) eh er f ne = absurd f
  moves_or_waits i lt (h ∷ held) (unlocks l ∷ ops) eh er f ne =
      inl (_, gives i l ops held lt er (cc f.0))

  -- A thread that holds a lock, but not the device's, gives its latest back next.
  releases :
      (i : ℕ)
      → i < n
      → (held : List ℕ) (rest : List LockOp) → (s i).held ≡ held
      → (s i).rest ≡ rest
      → Follows held rest
      → held ≢ []
      → is_held device_lock held ≡ false
      → CanStep n s
  releases i lt held [] eh er f ne d = absurd (ne f)
  releases i lt held (locks l ∷ ops) eh er f ne d = absurd (elim f.0 [ inl e ↦ ne e | inr e ↦ cc ])
  releases i lt [] (unlocks l ∷ ops) eh er f ne d = absurd f
  releases i lt (h ∷ held) (unlocks l ∷ ops) eh er f ne d = (_, gives i l ops held lt er (cc f.0))

  module _ (o : IsOrderly n s) where
    holder_releases :
        (l i : ℕ)
        → i < n
        → is_held l (s i).held ≡ true
        → is_held device_lock (s i).held ≡ false
        → CanStep n s
    holder_releases l i lt h d =
        releases i lt (s i).held (s i).rest refl refl (o.follows i) (λ e. ground (arith, e)) d

    holder_goes_on : (i : ℕ) → is_held device_lock (s i).held ≡ true → (s i).rest ≢ []
    holder_goes_on i d e =
        let ends : Follows (s i).held [] = subst (Follows (s i).held) e (o.follows i) in
        ground (arith, ends)

    -- The thread that holds the lock of the device makes its next operation, or one that it waits for does.
    owner_moves : (i : ℕ) → i < n → is_held device_lock (s i).held ≡ true → CanStep n s
    owner_moves i lt d =
        elim (moves_or_waits i lt (s i).held (s i).rest refl refl (o.follows i)
          (holder_goes_on i d)) [
            | inl st ↦ st
            | inr (l, (j, lt_j, ne, h)) ↦ elim (Bool-cases (is_held device_lock (s j).held)) [
              | inl d' ↦ absurd (ne (o.exclusive j i device_lock lt_j lt d' d))
              | inr d' ↦ holder_releases l j lt_j h d'
            ]
          ]

    pub some_moves : (i : ℕ) → i < n → (s i).rest ≢ [] → CanStep n s
    some_moves i lt ne =
        elim (moves_or_waits i lt (s i).held (s i).rest refl refl (o.follows i) ne) [
          | inl st ↦ st
          | inr (l, (j, lt_j, other, h)) ↦ elim (Bool-cases (is_held device_lock (s j).held)) [
            | inl d ↦ owner_moves j lt_j d
            | inr d ↦ holder_releases l j lt_j h d
          ]
        ]

-- However the operations of any number of threads that call the functions of the device and of its
-- channels, from callbacks too, have been interleaved: while a thread has an operation on a lock
-- before it, some thread can make its next one.
pub no_deadlock :
    (n : ℕ) (program : ℕ → Calls) (m : ℕ) (s : ℕ → Thread)
    → Run n program m s
    → (i : ℕ) → i < n
    → (s i).rest ≢ []
    → CanStep n s
no_deadlock n program m s r = some_moves n s (Run-IsOrderly n program m s r)
