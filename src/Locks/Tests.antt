-- ===== src/Locks/Tests.antt =====
-- Two threads: one runs rounds, the other sets a value.
use libsupla.Prelude.{ℕ, zero, suc, ◌+◌, ◌≡◌, refl, some, [], ◌∷◌, arith}
use libsupla.Locks.{
  unlocks, on_channel, on_round, Calls, no_call, then_call, no_work, registers, syncs, call_ops,
  calls_ops, works_ops, accesses_channel, registers_device, syncs_channel, iterates_device,
  library_calls,
}
use libsupla.Locks.Threads.{Thread, with_thread, takes, Steps, here, later, Run, starting}
use libsupla.Locks.Progress.{CanStep, no_deadlock}
use libsupla.Locks.Finish.{left, AreDone, all_finish}

-- The round registers an action trigger, channel 5 with its related channel 4, and synchronises it;
-- the lock of channel 5 is 7.
abbrev program : ℕ → Calls
program zero = then_call (on_round (registers ((5, some 4) ∷ []) (syncs 5 1 no_work))) no_call
program (suc i) = then_call (on_channel 5) no_call

-- The second thread has locked channel 5.
abbrev setting : ℕ → Thread
setting = with_thread (starting program) 1 (record { held = 7 ∷ []; rest = unlocks 7 ∷ [] })

setting-Run : Run 2 program 1 setting
unfolding calls_ops call_ops accesses_channel
setting-Run = later 0 _ _ here (takes 1 7 (unlocks 7 ∷ []) (omega arith) refl (λ j lt ne. refl))

no_deadlock_example : CanStep 2 setting
unfolding calls_ops call_ops accesses_channel
no_deadlock_example = no_deadlock 2 program 1 setting setting-Run 1 (omega arith) (λ e. cc)

all_finish_example :
    (t : ℕ → Thread) × (k : ℕ) × Steps 2 setting k t
    × (1 + k ≡ left 2 (starting program))
    × AreDone 2 t
all_finish_example = all_finish 2 program 1 setting setting-Run

-- Sixteen operations on locks for the round, and two for the value.
operations : left 2 (starting program) ≡ 18
unfolding left calls_ops call_ops works_ops accesses_channel registers_device syncs_channel
    iterates_device library_calls
operations = refl
