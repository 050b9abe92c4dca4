-- ===== src/Locks.antt =====
-- The locks that src/device.c and src/channel.c take: for each function the operations on locks that
-- it makes, in order, with those of the functions that it calls. What the functions do between these
-- operations is in Device and Channel.
pub mod Discipline
pub mod Threads
pub mod Progress
pub mod Finish
mod Tests
use libsupla.Prelude.{
  ℕ, zero, suc, ◌+◌, Bool, true, false, Option, none, some, List, [], ◌∷◌, ◌++◌, map, if◌then◌else◌,
}

-- `lck_lock` and `lck_unlock` on a lock. The locks are recursive.
pub data LockOp : Type 0 where
  locks unlocks : ℕ → LockOp

-- A lock is a number: the device's, that of the protocol library, and those of the channels.
abbrev pub device_lock : ℕ
device_lock = 0

abbrev pub library_lock : ℕ
library_lock = 1

abbrev pub channel_lock : ℕ → ℕ
channel_lock c = c + 2

-- Operations between `lck_lock` and `lck_unlock` of one lock.
abbrev pub guarded : ℕ → List LockOp → List LockOp
guarded l body = locks l ∷ (body ++ (unlocks l ∷ []))

-- Calls into the protocol library, each of which locks and unlocks the library's own lock. While it
-- hands a received message over the library does not hold its lock.
library_calls : ℕ → List LockOp
library_calls zero = []
library_calls (suc n) = guarded library_lock [] ++ library_calls n

-- A function of src/channel.c that locks its channel for an access, such as `supla_channel_get_config`.
unfoldable pub accesses_channel : ℕ → List LockOp
accesses_channel c = guarded (channel_lock c) []

-- `supla_channel_sync`, with the calls into the protocol library that it makes
unfoldable pub syncs_channel : ℕ → ℕ → List LockOp
unfolding library_calls
syncs_channel c n = guarded (channel_lock c) (library_calls n)

-- `supla_channel_to_register_struct`, with the related channel of an action trigger
unfoldable pub registers_channel : ℕ → Option ℕ → List LockOp
registers_channel c none = guarded (channel_lock c) []
registers_channel c (some related) = guarded (channel_lock c) (accesses_channel related)

-- the loop that reads the number of each channel of a list
reads_numbers : List ℕ → List LockOp
unfolding accesses_channel
reads_numbers [] = []
reads_numbers (c ∷ cs) = accesses_channel c ++ reads_numbers cs

-- A function of src/device.c that locks the device for an access, such as `supla_dev_get_flags`.
unfoldable pub accesses_device : List LockOp
accesses_device = guarded device_lock []

-- `supla_dev_get_channel_by_num`, on the channels of the device
unfoldable pub looks_up_channel : List ℕ → List LockOp
unfolding reads_numbers
looks_up_channel cs = guarded device_lock (reads_numbers cs)

-- `get_channel_data_callback` for each channel of a list, with its related channel, among the channels
-- of the device
registers_each : List ℕ → List (ℕ × Option ℕ) → List LockOp
unfolding looks_up_channel registers_channel
registers_each cs [] = []
registers_each cs ((c, related) ∷ rest) =
    looks_up_channel cs ++ (registers_channel c related ++ registers_each cs rest)

-- `supla_dev_register`: the library asks for each channel while it holds its lock.
unfoldable pub registers_device : List (ℕ × Option ℕ) → List LockOp
unfolding registers_each
registers_device chs = guarded library_lock (registers_each (map (λ x. x.0) chs) chs)

-- `supla_dev_stop` and `supla_dev_enter_config_mode`, around the callback `on_state_change`
unfoldable pub sets_state : List LockOp → List LockOp
sets_state callback = guarded device_lock callback

-- `supla_dev_start` and `supla_dev_exit_config_mode`: the state is read, and then set if it allows it.
unfoldable pub changes_state : Option (List LockOp) → List LockOp
unfolding accesses_device sets_state
changes_state none = accesses_device
changes_state (some callback) = accesses_device ++ sets_state callback

-- `supla_dev_add_channel`, but for the callback at its end: the count, and the insertion if it allows it
unfoldable pub adds_channel : Option ℕ → List LockOp
unfolding accesses_device accesses_channel
adds_channel none = accesses_device
adds_channel (some c) = accesses_device ++ guarded device_lock (accesses_channel c)

-- `supla_dev_send_notification`: the channels whose numbers it reads, and the call if they allow it
unfoldable pub sends_notification : List ℕ → Bool → List LockOp
unfolding reads_numbers library_calls
sends_notification cs enabled =
    guarded device_lock (reads_numbers cs) ++ (if enabled then library_calls 1 else [])

-- `supla_dev_iterate`, around what its round does
unfoldable pub iterates_device : List LockOp → List LockOp
iterates_device tick = guarded device_lock tick

-- The calls that a program or one of its callbacks can make, and the work of a round. A call that
-- is refused after reading counts as `on_device`. A round looks channels up and accesses them,
-- registers the device with its channels, synchronises channels, calls the protocol library, and calls back the program, which may call anything
-- again.
mutual
  pub data Call : Type 0 where
    on_channel : ℕ → Call
    on_device : Call
    on_stop : Calls → Call
    on_start : Calls → Call
    on_list : List ℕ → Call
    on_addition : Option ℕ → Calls → Call
    on_notification : List ℕ → Bool → Call
    on_round : Works → Call

  pub data Calls : Type 0 where
    no_call : Calls
    then_call : Call → Calls → Calls

  pub data Works : Type 0 where
    no_work : Works
    calls : Call → Works → Works
    registers : List (ℕ × Option ℕ) → Works → Works
    syncs : ℕ → ℕ → Works → Works
    transmits : ℕ → Works → Works

-- The operations on locks of a call, of several in turn, and of a round.
mutual
  unfolding accesses_channel accesses_device sets_state changes_state looks_up_channel adds_channel
      sends_notification iterates_device registers_device syncs_channel library_calls

  pub call_ops : Call → List LockOp
  call_ops (on_channel c) = accesses_channel c
  call_ops on_device = accesses_device
  call_ops (on_stop callback) = sets_state (calls_ops callback)
  call_ops (on_start callback) = changes_state (some (calls_ops callback))
  call_ops (on_list cs) = looks_up_channel cs
  call_ops (on_addition added init) = adds_channel added ++ calls_ops init
  call_ops (on_notification cs enabled) = sends_notification cs enabled
  call_ops (on_round works) = iterates_device (works_ops works)

  pub calls_ops : Calls → List LockOp
  calls_ops no_call = []
  calls_ops (then_call c cs) = call_ops c ++ calls_ops cs

  pub works_ops : Works → List LockOp
  works_ops no_work = []
  works_ops (calls c ws) = call_ops c ++ works_ops ws
  works_ops (registers chs ws) = registers_device chs ++ works_ops ws
  works_ops (syncs c n ws) = syncs_channel c n ++ works_ops ws
  works_ops (transmits n ws) = library_calls n ++ works_ops ws
