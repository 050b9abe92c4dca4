-- ===== src/Port.antt =====
-- src/port: what the library asks of the operating system. The system and the socket library are
-- parameters, functions of the calls made so far, the latest first; the trace of calls is also the
-- account of what is allocated and open.
pub mod Socket
pub mod Ssl
pub mod Clock
mod Tests
use libsupla.Prelude.{
  ℕ, ◌+◌, ◌*◌, ◌/◌, ◌%◌, ◌^◌, Bool, true, false, Option, none, some, List, ◌≡◌, ◌-◌, [], ◌∷◌, Bytes,
  ◌==◌, if◌then◌else◌,
}
use libsupla.Prelude.Int.{ℤ}

-- `ai_family` of a `struct addrinfo`: AF_INET, AF_INET6 or another.
pub data Family : Type 0 where
  inet inet6 unknown : Family

-- `struct addrinfo`, with its address but for the port
pub record AddrInfo : Type 0 where
  pub family : Family
  pub address : Bytes

-- The result of `connect`, with the value of `errno` that counts apart.
pub data Attempt : Type 0 where
  connected in_progress refused : Attempt

-- The calls that take or give back a resource: a block of memory, a list of addresses, a file
-- descriptor.
pub data SysCall : Type 0 where
  allocated freed : ℕ → SysCall
  resolved released : SysCall
  opened shut closed : ℕ → SysCall
  attempted : ℕ → ℕ → SysCall

abbrev pub SysTrace : Type 0
SysTrace = List SysCall

-- The functions of the operating system. The network port of `connect` is the number itself; `socket`
-- and `malloc` have `none` for a failure.
pub record Os : Type 0 where
  pub malloc : SysTrace → Option ℕ
  pub getaddrinfo : SysTrace → Bytes → ℤ
  pub addresses : SysTrace → Bytes → List AddrInfo
  pub socket : SysTrace → AddrInfo → Option ℕ
  pub connect : SysTrace → ℕ → AddrInfo → ℕ → Attempt
  pub send : SysTrace → ℤ → Bytes → ℤ
  pub recv : SysTrace → ℤ → ℕ → Bytes × ℤ

-- The memory as far as this code owns it, and the device's `cloud_link`: `cell` is what the block at
-- an address holds.
pub record Host : Type 0 where
  pub link : Option ℕ
  pub cell : ℕ → ℤ
  pub trace : SysTrace

-- A block that is allocated and not freed since.
unfoldable pub is_live : SysTrace → ℕ → Bool
is_live [] a = false
is_live (allocated b ∷ tr) a = if b == a then true else is_live tr a
is_live (freed b ∷ tr) a = if b == a then false else is_live tr a
is_live (resolved ∷ tr) a = is_live tr a
is_live (released ∷ tr) a = is_live tr a
is_live (opened fd ∷ tr) a = is_live tr a
is_live (shut fd ∷ tr) a = is_live tr a
is_live (closed fd ∷ tr) a = is_live tr a
is_live (attempted fd port ∷ tr) a = is_live tr a

-- A descriptor that is open.
unfoldable pub is_open : SysTrace → ℕ → Bool
is_open [] fd = false
is_open (opened e ∷ tr) fd = if e == fd then true else is_open tr fd
is_open (closed e ∷ tr) fd = if e == fd then false else is_open tr fd
is_open (allocated a ∷ tr) fd = is_open tr fd
is_open (freed a ∷ tr) fd = is_open tr fd
is_open (resolved ∷ tr) fd = is_open tr fd
is_open (released ∷ tr) fd = is_open tr fd
is_open (shut e ∷ tr) fd = is_open tr fd
is_open (attempted e port ∷ tr) fd = is_open tr fd

-- The lists of addresses that are still to be released.
unfoldable pub lists_held : SysTrace → ℕ
lists_held [] = 0
lists_held (resolved ∷ tr) = lists_held tr + 1
lists_held (released ∷ tr) = lists_held tr - 1
lists_held (allocated a ∷ tr) = lists_held tr
lists_held (freed a ∷ tr) = lists_held tr
lists_held (opened fd ∷ tr) = lists_held tr
lists_held (shut fd ∷ tr) = lists_held tr
lists_held (closed fd ∷ tr) = lists_held tr
lists_held (attempted fd port ∷ tr) = lists_held tr

-- What POSIX says of `malloc` and `socket`: the block and the descriptor that they give are new.
pub record IsFresh (os : Os) : Type 0 where
  pub block : (tr : SysTrace) (a : ℕ) → os.malloc tr ≡ some a → is_live tr a ≡ false
  pub descriptor :
      (tr : SysTrace) (ai : AddrInfo) (fd : ℕ) → os.socket tr ai ≡ some fd → is_open tr fd ≡ false

abbrev pub log : Host → SysCall → Host
log h c = record h { trace = c ∷ h.trace }

abbrev pub write_cell : Host → ℕ → ℤ → Host
write_cell h a v = record h { cell = λ b. if a == b then v else h.cell b }

-- `supla_time_getmonotonictime_milliseconds`, from the seconds and the nanoseconds of the clock,
-- for a `time_t` of 64 bits
unfoldable pub supla_time_getmonotonictime_milliseconds : ℕ → ℕ → ℕ
supla_time_getmonotonictime_milliseconds tv_sec tv_nsec =
    (tv_sec * 1000 + tv_nsec / 1000000) % 2 ^ 64
