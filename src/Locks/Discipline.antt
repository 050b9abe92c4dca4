-- ===== src/Locks/Discipline.antt =====
-- The order in which the locks are taken.
use libsupla.Prelude.{
  ℕ, zero, suc, ◌≡◌, ◌⊎◌, refl, sym, subst, inl, inr, Bool, true, false, Option, none, some, List,
  [], ◌∷◌, ◌++◌, map, ◌==◌, arith, ◌||◌,
}
use mathlib.Core.List.{append_assoc, append-nil}
use libsupla.Locks.{
  LockOp, locks, unlocks, device_lock, library_lock, channel_lock, guarded, library_calls,
  accesses_channel, syncs_channel, registers_channel, reads_numbers, accesses_device,
  looks_up_channel, registers_each, registers_device, sets_state, changes_state, adds_channel,
  sends_notification, iterates_device, Call, on_channel, on_device, on_stop, on_start, on_list,
  on_addition, on_notification, on_round, Calls, no_call, then_call, Works, no_work, calls,
  registers, syncs, transmits, call_ops, calls_ops, works_ops,
}

-- The lock is among those that are held, the latest first.
abbrev pub is_held : ℕ → List ℕ → Bool
is_held l [] = false
is_held l (h ∷ hs) = (h == l) || is_held l hs

-- A thread that holds a lock takes another only if it holds the device's.
abbrev pub MayLock : List ℕ → Type 0
MayLock held = (held ≡ []) ⊎ (is_held device_lock held ≡ true)

-- Operations that take locks as `MayLock` says, give back the latest first, and end with none held.
abbrev pub Follows : List ℕ → List LockOp → Type 0
Follows held [] = held ≡ []
Follows held (locks l ∷ ops) = MayLock held × Follows (l ∷ held) ops
Follows [] (unlocks l ∷ ops) = ⊥
Follows (h ∷ held) (unlocks l ∷ ops) = (h ≡ l) × Follows held ops

-- Operations that may stand before others, whatever is held.
abbrev pub Fits : List LockOp → Type 0
Fits ops =
    (held : List ℕ) (rest : List LockOp)
    → MayLock held
    → Follows held rest
    → Follows held (ops ++ rest)

-- The same where the device is locked.
abbrev FitsDevice : List LockOp → Type 0
FitsDevice ops =
    (held : List ℕ) (rest : List LockOp)
    → is_held device_lock held ≡ true
    → Follows held rest
    → Follows held (ops ++ rest)

Fits-append : (xs ys : List LockOp) → Fits xs → Fits ys → Fits (xs ++ ys)
Fits-append xs ys a b held rest may f =
    subst (Follows held) (sym (append_assoc xs ys rest))
      (a held (ys ++ rest) may (b held rest may f))

FitsDevice-append : (xs ys : List LockOp) → FitsDevice xs → FitsDevice ys → FitsDevice (xs ++ ys)
FitsDevice-append xs ys a b held rest d f =
    subst (Follows held) (sym (append_assoc xs ys rest)) (a held (ys ++ rest) d (b held rest d f))

FitsDevice-of_Fits : (ops : List LockOp) → Fits ops → FitsDevice ops
FitsDevice-of_Fits ops f held rest d = f held rest (inr d)

-- A lock around nothing.
Fits-access : (l : ℕ) → Fits (guarded l [])
Fits-access l held rest may f = (may, (refl, f))

-- A lock around work that is done where the device is locked.
FitsDevice-guarded : (l : ℕ) (body : List LockOp) → FitsDevice body → FitsDevice (guarded l body)
FitsDevice-guarded l body b held rest d f = (
  inr d,
  subst (Follows (l ∷ held)) (sym (append_assoc body (unlocks l ∷ []) rest))
      (b (l ∷ held) (unlocks l ∷ rest) (ground (arith, d)) (refl, f)),
)

-- The lock of the device around such work.
Fits-device : (body : List LockOp) → FitsDevice body → Fits (guarded device_lock body)
Fits-device body b held rest may f = (
  may,
  subst (Follows (device_lock ∷ held)) (sym (append_assoc body (unlocks device_lock ∷ []) rest))
      (b (device_lock ∷ held) (unlocks device_lock ∷ rest) refl (refl, f)),
)

Fits-nothing : Fits []
Fits-nothing held rest may f = f

Fits-library_calls : (n : ℕ) → Fits (library_calls n)
unfolding library_calls
Fits-library_calls zero = Fits-nothing
Fits-library_calls (suc n) =
    Fits-append (guarded library_lock []) (library_calls n) (Fits-access library_lock)
      (Fits-library_calls n)

Fits-accesses_channel : (c : ℕ) → Fits (accesses_channel c)
unfolding accesses_channel
Fits-accesses_channel c = Fits-access (channel_lock c)

Fits-accesses_device : Fits accesses_device
unfolding accesses_device
Fits-accesses_device = Fits-access device_lock

Fits-reads_numbers : (cs : List ℕ) → Fits (reads_numbers cs)
unfolding reads_numbers
Fits-reads_numbers [] = Fits-nothing
Fits-reads_numbers (c ∷ cs) =
    Fits-append (accesses_channel c) (reads_numbers cs) (Fits-accesses_channel c)
      (Fits-reads_numbers cs)

FitsDevice-registers : (c : ℕ) (related : Option ℕ) → FitsDevice (registers_channel c related)
unfolding registers_channel
FitsDevice-registers c none =
    FitsDevice-of_Fits (guarded (channel_lock c) []) (Fits-access (channel_lock c))
FitsDevice-registers c (some r) =
    FitsDevice-guarded (channel_lock c) (accesses_channel r)
      (FitsDevice-of_Fits (accesses_channel r) (Fits-accesses_channel r))

FitsDevice-looks_up : (cs : List ℕ) → FitsDevice (looks_up_channel cs)
unfolding looks_up_channel
FitsDevice-looks_up cs =
    FitsDevice-guarded device_lock (reads_numbers cs)
      (FitsDevice-of_Fits (reads_numbers cs) (Fits-reads_numbers cs))

FitsDevice-registers_each :
    (cs : List ℕ) (chs : List (ℕ × Option ℕ)) → FitsDevice (registers_each cs chs)
unfolding registers_each
FitsDevice-registers_each cs [] = FitsDevice-of_Fits [] Fits-nothing
FitsDevice-registers_each cs ((c, related) ∷ rest) =
    FitsDevice-append (looks_up_channel cs) (registers_channel c related ++ registers_each cs rest)
      (FitsDevice-looks_up cs)
      (FitsDevice-append (registers_channel c related) (registers_each cs rest)
        (FitsDevice-registers c related) (FitsDevice-registers_each cs rest))

FitsDevice-registers_device : (chs : List (ℕ × Option ℕ)) → FitsDevice (registers_device chs)
unfolding registers_device
FitsDevice-registers_device chs =
    FitsDevice-guarded library_lock (registers_each (map (λ x. x.0) chs) chs)
      (FitsDevice-registers_each (map (λ x. x.0) chs) chs)

FitsDevice-syncs : (c n : ℕ) → FitsDevice (syncs_channel c n)
unfolding syncs_channel
FitsDevice-syncs c n =
    FitsDevice-guarded (channel_lock c) (library_calls n)
      (FitsDevice-of_Fits (library_calls n) (Fits-library_calls n))

Fits-adds_channel : (added : Option ℕ) → Fits (adds_channel added)
unfolding adds_channel
Fits-adds_channel none = Fits-accesses_device
Fits-adds_channel (some c) =
    Fits-append accesses_device (guarded device_lock (accesses_channel c)) Fits-accesses_device (
      Fits-device (accesses_channel c)
        (FitsDevice-of_Fits (accesses_channel c) (Fits-accesses_channel c)))

Fits-notification : (cs : List ℕ) (enabled : Bool) → Fits (sends_notification cs enabled)
unfolding sends_notification
Fits-notification cs true =
    Fits-append (guarded device_lock (reads_numbers cs)) (library_calls 1)
      (Fits-device (reads_numbers cs)
        (FitsDevice-of_Fits (reads_numbers cs) (Fits-reads_numbers cs)))
      (Fits-library_calls 1)
Fits-notification cs false =
    Fits-append (guarded device_lock (reads_numbers cs)) []
      (Fits-device (reads_numbers cs)
        (FitsDevice-of_Fits (reads_numbers cs) (Fits-reads_numbers cs)))
      Fits-nothing

mutual
  unfolding call_ops calls_ops works_ops sets_state changes_state looks_up_channel iterates_device

  Fits-Call : (c : Call) → Fits (call_ops c)
  Fits-Call (on_channel c) = Fits-accesses_channel c
  Fits-Call on_device = Fits-accesses_device
  Fits-Call (on_stop cs) =
      Fits-device (calls_ops cs) (FitsDevice-of_Fits (calls_ops cs) (Fits-Calls cs))
  Fits-Call (on_start cs) =
      Fits-append accesses_device (guarded device_lock (calls_ops cs)) Fits-accesses_device
        (Fits-device (calls_ops cs) (FitsDevice-of_Fits (calls_ops cs) (Fits-Calls cs)))
  Fits-Call (on_list cs) =
      Fits-device (reads_numbers cs) (FitsDevice-of_Fits (reads_numbers cs) (Fits-reads_numbers cs))
  Fits-Call (on_addition added init) =
      Fits-append (adds_channel added) (calls_ops init) (Fits-adds_channel added) (Fits-Calls init)
  Fits-Call (on_notification cs enabled) = Fits-notification cs enabled
  Fits-Call (on_round ws) = Fits-device (works_ops ws) (FitsDevice-Works ws)

  Fits-Calls : (cs : Calls) → Fits (calls_ops cs)
  Fits-Calls no_call = Fits-nothing
  Fits-Calls (then_call c cs) =
      Fits-append (call_ops c) (calls_ops cs) (Fits-Call c) (Fits-Calls cs)

  FitsDevice-Works : (ws : Works) → FitsDevice (works_ops ws)
  FitsDevice-Works no_work = FitsDevice-of_Fits [] Fits-nothing
  FitsDevice-Works (calls c ws) =
      FitsDevice-append (call_ops c) (works_ops ws) (FitsDevice-of_Fits (call_ops c) (Fits-Call c))
        (FitsDevice-Works ws)
  FitsDevice-Works (registers chs ws) =
      FitsDevice-append (registers_device chs) (works_ops ws) (FitsDevice-registers_device chs)
        (FitsDevice-Works ws)
  FitsDevice-Works (syncs c n ws) =
      FitsDevice-append (syncs_channel c n) (works_ops ws) (FitsDevice-syncs c n)
        (FitsDevice-Works ws)
  FitsDevice-Works (transmits n ws) =
      FitsDevice-append (library_calls n) (works_ops ws)
        (FitsDevice-of_Fits (library_calls n) (Fits-library_calls n)) (FitsDevice-Works ws)

-- Every thread of calls takes a lock beside another only under the lock of the device, gives back the
-- latest first, and ends with none held.
pub Follows-Calls : (cs : Calls) → Follows [] (calls_ops cs)
Follows-Calls cs =
    subst (Follows []) (append-nil (calls_ops cs)) (Fits-Calls cs [] [] (inl refl) refl)
