-- ===== src/Port/Ssl/Reconnect.antt =====
-- What a device does to its link, with SSL, as the use of a slot that holds at most one socket.
use mathlib.Core.Option
use libsupla.Prelude.{
  List, [], ◌∷◌, Bytes, ℕ, ◌≡◌, refl, Bool, true, false, Option, none, some, Bytes, ◌==◌, arith,
}
use libsupla.Prelude.Int.{ℤ, pos}
use libsupla.Device.Connection.{LinkCall, hangs_up, dials}
use libsupla.Port.{freed, Host, is_live, log}
use libsupla.Port.Ssl.{
  SocketLibrary, created, supla_cloud_connect, freed_socket, cleared, supla_cloud_disconnect,
}

-- The abstract view: what the slot holds decides which block is allocated.
unfoldable pub holds : Option ℕ → ℕ → Bool
holds none b = false
holds (some a) b = a == b

-- The host carries out the slot in its `cloud_link`.
pub record IsOwned (h : Host) : Type 0 where
  pub blocks : (b : ℕ) → is_live h.trace b ≡ holds h.link b

freed_socket-holds :
    (l : Option ℕ) (h : Host)
    → ((b : ℕ) → is_live h.trace b ≡ holds l b)
    → (h' : Host) × (freed_socket l h ≡ some h') × ((b : ℕ) → is_live h'.trace b ≡ false)
unfolding freed_socket holds is_live
freed_socket-holds none h bs = (h, refl, bs)
freed_socket-holds (some a) h bs =
    let live : is_live h.trace a ≡ true = ground (arith, bs a) in
    (log h (freed a), simp live, λ b. ground (arith, bs b))

-- `supla_cloud_disconnect` on a slot frees what it holds, leaves it empty and returns 0.
pub disconnect-IsOwned :
    (h : Host)
    → IsOwned h
    → (h' : Host) × (supla_cloud_disconnect h ≡ some (h', pos 0))
      × (h'.link ≡ none)
      × ((b : ℕ) → is_live h'.trace b ≡ false)
unfolding supla_cloud_disconnect cleared
disconnect-IsOwned h own =
    let (h', e, free) = freed_socket-holds h.link h own.blocks in
    (record h' { link = none }, simp e, refl, free)

module _ (lib : SocketLibrary) (host : Bytes) (port : ℤ) (ssl : ℕ) where
  created-holds :
      (s : Option ℕ) (h : Host)
      → ((b : ℕ) → is_live h.trace b ≡ false)
      → (b : ℕ) → is_live (created lib s h).trace b ≡ holds (created lib s h).link b
  unfolding created holds is_live
  created-holds none h free b = free b
  created-holds (some a) h free b = ground (arith, free b)

  -- `supla_cloud_connect` into an empty slot fills it with what the library creates.
  connect-IsOwned :
      (h : Host)
      → ((b : ℕ) → is_live h.trace b ≡ false)
      → IsOwned (supla_cloud_connect lib host port ssl h).0
  unfolding supla_cloud_connect
  connect-IsOwned h free = record {
    blocks = created-holds (lib.client_init h.trace host port ssl) h free;
  }

module _ (lib : SocketLibrary) where
  -- One call of the device on its link. `none` is a fault.
  linked : LinkCall → Host → Option Host
  linked hangs_up h = Option.map (λ r. r.0) (supla_cloud_disconnect h)
  linked (dials host port ssl) h = some (supla_cloud_connect lib host port ssl h).0

  then_linked : LinkCall → Option Host → Option Host
  unfolding linked
  then_linked c none = none
  then_linked c (some h) = linked c h

  -- The host after the calls of a device, the latest first, from a host without a connection.
  unfoldable pub replay : List LinkCall → Option Host
  unfolding then_linked
  replay [] = some (record { link = none; cell = λ b. pos 0; trace = [] })
  replay (c ∷ cs) = then_linked c (replay cs)

  pub replay-nothing : (h : Host) × (replay [] ≡ some h) × IsOwned h
  unfolding replay is_live holds
  replay-nothing =
      (record { link = none; cell = λ b. pos 0; trace = [] }, refl, record { blocks = λ b. refl })

  -- The link is closed: nothing is allocated.
  pub replay-hangs_up :
      (cs : List LinkCall) (h : Host)
      → replay cs ≡ some h
      → IsOwned h
      → (h' : Host) × (replay (hangs_up ∷ cs) ≡ some h') × ((b : ℕ) → is_live h'.trace b ≡ false)
  unfolding replay then_linked linked
  replay-hangs_up cs h e own =
      let (h', f, empty, free) = disconnect-IsOwned h own in (h', simp (e, f), free)

  -- The link is closed and then opened again.
  pub replay-redials :
      (cs : List LinkCall) (h : Host) (host : Bytes) (port : ℤ) (ssl : ℕ)
      → replay cs ≡ some h
      → IsOwned h
      → (h' : Host) × (replay (dials host port ssl ∷ hangs_up ∷ cs) ≡ some h') × IsOwned h'
  unfolding replay then_linked linked
  replay-redials cs h host port ssl e own =
      let (h1, f, free) = replay-hangs_up cs h e own in
      (
        (supla_cloud_connect lib host port ssl h1).0,
        simp f,
        connect-IsOwned lib host port ssl h1 free,
      )
