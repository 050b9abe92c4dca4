-- ===== src/Locks/Threads.antt =====
-- Threads of calls into src/device.c and src/channel.c, interleaved in any order, one operation on a
-- lock at a time.
use libsupla.Prelude.{
  ℕ, suc, ◌<◌, ◌≡◌, ◌≢◌, subst, true, false, List, [], ◌∷◌, ◌==◌, if◌then◌else◌, arith,
}
use libsupla.Locks.{LockOp, locks, unlocks, Calls, calls_ops}
use libsupla.Locks.Discipline.{is_held, Follows, Follows-Calls}

-- A thread holds locks, the latest first, and has operations before it.
pub record Thread : Type 0 where
  pub held : List ℕ
  pub rest : List LockOp

abbrev pub with_thread : (ℕ → Thread) → ℕ → Thread → ℕ → Thread
with_thread s i t j = if i == j then t else s j

-- No other thread holds the lock. A lock that the thread itself holds may be taken again.
abbrev pub IsFree : ℕ → (ℕ → Thread) → ℕ → ℕ → Type 0
IsFree n s i l = (j : ℕ) → j < n → j ≢ i → is_held l (s j).held ≡ false

-- One of n threads makes its next operation.
pub data Step (n : ℕ) (s : ℕ → Thread) : (ℕ → Thread) → Type 0 where
  takes :
      (i l : ℕ) (ops : List LockOp)
      → i < n
      → (s i).rest ≡ locks l ∷ ops
      → IsFree n s i l
      → Step n s (with_thread s i (record { held = l ∷ (s i).held; rest = ops }))
  gives :
      (i l : ℕ) (ops : List LockOp) (held : List ℕ)
      → i < n
      → (s i).rest ≡ unlocks l ∷ ops
      → (s i).held ≡ l ∷ held
      → Step n s (with_thread s i (record { held = held; rest = ops }))

-- Each thread starts with its calls before it, and no lock.
abbrev pub starting : (ℕ → Calls) → ℕ → Thread
starting program i = record { held = []; rest = calls_ops (program i) }

-- What n threads can come to in a number of steps.
pub data Steps (n : ℕ) (s : ℕ → Thread) : ℕ → (ℕ → Thread) → Type 0 where
  here : Steps n s 0 s
  later : (m : ℕ) (t u : ℕ → Thread) → Steps n s m t → Step n t u → Steps n s (suc m) u

-- The same from the start of their calls.
abbrev pub Run : ℕ → (ℕ → Calls) → ℕ → (ℕ → Thread) → Type 0
Run n program = Steps n (starting program)

-- Every thread follows the order of the locks, and no two hold the same lock.
pub record IsOrderly (n : ℕ) (s : ℕ → Thread) : Type 0 where
  pub follows : (i : ℕ) → Follows (s i).held (s i).rest
  pub exclusive :
      (i j l : ℕ)
      → i < n
      → j < n
      → is_held l (s i).held ≡ true
      → is_held l (s j).held ≡ true
      → i ≡ j

module _ (n : ℕ) (s : ℕ → Thread) (o : IsOrderly n s) where
  IsOrderly-takes :
      (i l : ℕ) (ops : List LockOp)
      → i < n
      → (s i).rest ≡ locks l ∷ ops
      → IsFree n s i l
      → IsOrderly n (with_thread s i (record { held = l ∷ (s i).held; rest = ops }))
  IsOrderly-takes i l ops lt e free =
      let mine : Follows (s i).held (locks l ∷ ops) = subst (Follows (s i).held) e (o.follows i) in
      record {
        follows = λ j. ground (arith, mine, o.follows j);
        exclusive = λ j k m lt_j lt_k hold_j hold_k.
            ground (arith, o.exclusive j k m, free j, free k, o.exclusive i k m, o.exclusive j i m);
      }

  IsOrderly-gives :
      (i l : ℕ) (ops : List LockOp) (held : List ℕ)
      → i < n
      → (s i).rest ≡ unlocks l ∷ ops
      → (s i).held ≡ l ∷ held
      → IsOrderly n (with_thread s i (record { held = held; rest = ops }))
  IsOrderly-gives i l ops held lt e f =
      let mine : Follows (l ∷ held) (unlocks l ∷ ops) =
        subst (λ h. Follows h (unlocks l ∷ ops)) f (subst (Follows (s i).held) e (o.follows i)) in
      record {
        follows = λ j. ground (arith, mine, o.follows j);
        exclusive = λ j k m lt_j lt_k hold_j hold_k.
            ground (arith, f, o.exclusive j k m, o.exclusive i k m, o.exclusive j i m);
      }

pub Step-IsOrderly : (n : ℕ) (s t : ℕ → Thread) → Step n s t → IsOrderly n s → IsOrderly n t
Step-IsOrderly n s _ (takes i l ops lt e free) o = IsOrderly-takes n s o i l ops lt e free
Step-IsOrderly n s _ (gives i l ops held lt e f) o = IsOrderly-gives n s o i l ops held lt e f

Steps-IsOrderly :
    (n : ℕ) (s : ℕ → Thread) (m : ℕ) (t : ℕ → Thread)
    → Steps n s m t
    → IsOrderly n s
    → IsOrderly n t
Steps-IsOrderly n s _ _ here o = o
Steps-IsOrderly n s _ _ (later m t u r st) o = Step-IsOrderly n t u st (Steps-IsOrderly n s m t r o)

starting-IsOrderly : (n : ℕ) (program : ℕ → Calls) → IsOrderly n (starting program)
starting-IsOrderly n program = record {
  follows = λ i. Follows-Calls (program i);
  exclusive = λ i j l lt_i lt_j hold_i hold_j. cc;
}

pub Run-IsOrderly :
    (n : ℕ) (program : ℕ → Calls) (m : ℕ) (s : ℕ → Thread) → Run n program m s → IsOrderly n s
Run-IsOrderly n program m s r =
    Steps-IsOrderly n (starting program) m s r (starting-IsOrderly n program)
