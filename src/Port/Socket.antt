-- ===== src/Port/Socket.antt =====
-- src/port/arch_unix.c built with NOSSL: the connection on a bare socket. `none` is a fault: a read
-- through a null pointer or of a block that is not allocated, or a second `free` of one.
pub mod Loop
pub mod Resources
pub mod Dangling
use mathlib.Core.Option
use libsupla.Prelude.{ℕ, Bool, true, false, Option, none, some, List, [], ◌∷◌, Bytes, if◌then◌else◌}
use libsupla.Prelude.Int.{ℤ, pos, negsuc, wrap, eqb_ℤ}
use libsupla.Value.{result_true, result_false}
use libsupla.Port.{
  Family, inet, inet6, unknown, AddrInfo, Attempt, connected, in_progress, refused, SysCall,
  allocated, freed, resolved, released, opened, shut, closed, attempted, Os, Host, is_live, log,
  write_cell,
}

-- EINVAL
abbrev pub einval : ℤ
einval = pos 22

-- The address family has a port to set.
pub has_port : Family → Bool
has_port inet = true
has_port inet6 = true
has_port unknown = false

-- A use of the pointer in `cloud_link`: what the block holds.
abbrev deref : Host → Option ℕ → Option ℤ
deref h none = none
deref h (some a) = if is_live h.trace a then some (h.cell a) else none

module _ (os : Os) where
  -- The end of a round of the loop: the result of `connect`. `rest` goes on to the next address.
  after_attempt : Attempt → ℕ → (Host → Host × ℤ) → Host → Host × ℤ
  after_attempt connected fd rest h = (log h released, pos result_true)
  after_attempt in_progress fd rest h = (log h released, pos result_true)
  after_attempt refused fd rest h = rest (log h (closed fd))

  -- The switch on the family, and the attempt; a is the address of the block.
  with_family : Bool → ℤ → ℕ → AddrInfo → ℕ → (Host → Host × ℤ) → Host → Host × ℤ
  unfolding after_attempt
  with_family false port a ai fd rest h = (log h (freed a), pos result_false)
  with_family true port a ai fd rest h =
      after_attempt (os.connect h.trace fd ai (wrap 65536 port)) fd rest
        (log h (attempted fd (wrap 65536 port)))

  -- The result of `socket`.
  with_socket : Option ℕ → ℤ → ℕ → AddrInfo → (Host → Host × ℤ) → Host → Host × ℤ
  unfolding with_family has_port
  with_socket none port a ai rest h = rest (write_cell h a (negsuc 0))
  with_socket (some fd) port a ai rest h =
      with_family (has_port ai.family) port a ai fd rest (write_cell (log h (opened fd)) a (pos fd))

  -- The loop over the addresses, and the code after it.
  pub try_all : ℤ → ℕ → List AddrInfo → Host → Host × ℤ
  unfolding with_socket
  try_all port a [] h = (log (log h released) (freed a), pos result_false)
  try_all port a (ai ∷ ais) h = with_socket (os.socket h.trace ai) port a ai (try_all port a ais) h

  -- After the block is there: the resolution of the name.
  with_block : Bytes → ℤ → Host → ℕ → Host × ℤ
  unfolding try_all
  with_block host port h a =
      let h1 = record (write_cell (log h (allocated a)) a (negsuc 0)) { link = some a } in
      let rc = os.getaddrinfo h1.trace host in
      if eqb_ℤ rc (pos 0)
      then try_all port a (os.addresses h1.trace host) (log h1 resolved)
      else (log h1 (freed a), rc)

  after_malloc : Bytes → ℤ → Host → Option ℕ → Host × ℤ
  unfolding with_block
  after_malloc host port h none = (h, pos result_false)
  after_malloc host port h (some a) = with_block host port h a

  -- `supla_cloud_connect`
  unfoldable pub supla_cloud_connect : Bytes → ℤ → Host → Host × ℤ
  unfolding after_malloc
  supla_cloud_connect host port h = after_malloc host port h (os.malloc h.trace)

  -- `supla_cloud_send`
  unfoldable pub supla_cloud_send : Bytes → Host → Option ℤ
  supla_cloud_send buf h = Option.map (λ sfd. os.send h.trace sfd buf) (deref h h.link)

  -- `supla_cloud_recv`
  unfoldable pub supla_cloud_recv : ℕ → Host → Option (Bytes × ℤ)
  supla_cloud_recv count h = Option.map (λ sfd. os.recv h.trace sfd count) (deref h h.link)

  -- `supla_dev_read` and `supla_dev_write` of src/device.c, which the protocol library calls
  abbrev pub supla_dev_read : ℕ → Host → Option (Bytes × ℤ)
  supla_dev_read count h = supla_cloud_recv count h

  abbrev pub supla_dev_write : Bytes → Host → Option ℤ
  supla_dev_write buf h = supla_cloud_send buf h

-- `shutdown` and `close`, but for a block without a descriptor
hang_up : ℤ → Host → Host
hang_up (negsuc n) h = h
hang_up (pos fd) h = log (log h (shut fd)) (closed fd)

-- The part of `supla_cloud_disconnect` after the two tests for null.
release : ℕ → Host → Option (Host × ℤ)
unfolding hang_up
release a h = if is_live h.trace a then some (log (hang_up (h.cell a) h) (freed a), pos 0) else none

disconnect_link : Option ℕ → Host → Option (Host × ℤ)
unfolding release
disconnect_link none h = some (h, einval)
disconnect_link (some a) h = release a h

-- `supla_cloud_disconnect` of the device's link, which keeps its value.
unfoldable pub supla_cloud_disconnect : Host → Option (Host × ℤ)
unfolding disconnect_link
supla_cloud_disconnect h = disconnect_link h.link h
