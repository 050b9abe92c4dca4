-- ===== src/Port/Ssl.antt =====
-- src/port/arch_unix.c built with SSL: the connection on a socket of the protocol library. The
-- library's functions are parameters; `none` is a `free` of a block that is not allocated.
pub mod Reconnect
use libsupla.Prelude.{ℕ, Bool, true, false, Option, none, some, [], ◌∷◌, Bytes, if◌then◌else◌}
use libsupla.Prelude.Int.{ℤ, pos}
use libsupla.Port.{SysTrace, allocated, freed, Host, is_live, log}

-- `ssocket_client_init` gives the new socket or null; the others work on a socket.
pub record SocketLibrary : Type 0 where
  pub client_init : SysTrace → Bytes → ℤ → ℕ → Option ℕ
  pub client_connect : SysTrace → Option ℕ → ℕ → ℤ
  pub socket_write : SysTrace → Option ℕ → Bytes → ℤ
  pub socket_read : SysTrace → Option ℕ → ℕ → Bytes × ℤ

module _ (lib : SocketLibrary) where
  created : Option ℕ → Host → Host
  created none h = record h { link = none }
  created (some a) h = record (log h (allocated a)) { link = some a }

  -- `supla_cloud_connect`, with its half second for the connection. A null socket is passed on as it is;
  -- the library's function reads through it, and such a run is outside the model.
  unfoldable pub supla_cloud_connect : Bytes → ℤ → ℕ → Host → Host × ℤ
  unfolding created
  supla_cloud_connect host port ssl h =
      let h' = created (lib.client_init h.trace host port ssl) h in
      (h', lib.client_connect h'.trace h'.link 500)

  -- `supla_cloud_send`
  unfoldable pub supla_cloud_send : Bytes → Host → ℤ
  supla_cloud_send buf h = lib.socket_write h.trace h.link buf

  -- `supla_cloud_recv`
  unfoldable pub supla_cloud_recv : ℕ → Host → Bytes × ℤ
  supla_cloud_recv count h = lib.socket_read h.trace h.link count

-- `ssocket_free` does nothing with null.
freed_socket : Option ℕ → Host → Option Host
freed_socket none h = some h
freed_socket (some a) h = if is_live h.trace a then some (log h (freed a)) else none

cleared : Option Host → Option (Host × ℤ)
cleared none = none
cleared (some h) = some (record h { link = none }, pos 0)

-- `supla_cloud_disconnect` of the device's link, which becomes null.
unfoldable pub supla_cloud_disconnect : Host → Option (Host × ℤ)
unfolding freed_socket cleared
supla_cloud_disconnect h = cleared (freed_socket h.link h)
