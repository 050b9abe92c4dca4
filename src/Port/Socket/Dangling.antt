-- ===== src/Port/Socket/Dangling.antt =====
-- What a failed connection on a bare socket leaves in the device's `cloud_link`.
use libsupla.Prelude.{ℕ, ◌≡◌, ◌≢◌, refl, false, none, some, ◌∷◌, Bytes, inl, inr, arith}
use libsupla.Prelude.Int.{ℤ, pos, eqb_ℤ}
use libsupla.Port.{Os, IsFresh, Host, allocated, is_live}
use libsupla.Port.Socket.Resources.{supla_cloud_connect_lem}
use libsupla.Port.Socket.{
  with_block, after_malloc, supla_cloud_connect, supla_cloud_disconnect, supla_cloud_send,
  supla_cloud_recv, disconnect_link, release,
}

-- The link points to a block that is not allocated.
pub record IsDangling (h : Host) : Type 0 where
  pub block : ℕ
  pub link : h.link ≡ some block
  pub dead : is_live h.trace block ≡ false

-- With a link that points to a freed block, sending and receiving read that block, and
-- `supla_cloud_disconnect` frees it again: all three fault.
pub dangling_faults :
    (os : Os) (h : Host) (buf : Bytes) (count : ℕ)
    → IsDangling h
    → (supla_cloud_send os buf h ≡ none)
      × (supla_cloud_recv os count h ≡ none)
      × (supla_cloud_disconnect h ≡ none)
unfolding supla_cloud_send supla_cloud_recv supla_cloud_disconnect disconnect_link release
dangling_faults os h buf count d =
    (simp (d.link, d.dead), simp (d.link, d.dead), simp (d.link, d.dead))

-- After a `supla_cloud_connect` that found memory but did not return 1, the `supla_cloud_disconnect`
-- that begins the device's next attempt faults, and so does a transmission before it.
pub refused_faults :
    (os : Os) (host : Bytes) (port : ℤ) (h : Host) (buf : Bytes)
    → IsFresh os
    → os.malloc h.trace ≢ none
    → (supla_cloud_connect os host port h).1 ≢ pos 1
    → let h' = (supla_cloud_connect os host port h).0 in
      (supla_cloud_disconnect h' ≡ none) × (supla_cloud_send os buf h' ≡ none)
refused_faults os host port h buf fresh memory failed =
    elim (supla_cloud_connect_lem os fresh host port h) [
      | inl (no_memory, e) ↦ absurd (memory no_memory)
      | inr (inl l) ↦ absurd (failed l.result)
      | inr (inr ab) ↦
          let h' = (supla_cloud_connect os host port h).0 in
          let d =
            dangling_faults os h' buf 0
              (record { block = ab.block; link = ab.link; dead = ab.freed }) in
          (d.2, d.0)
    ]

-- If memory is there but the name of the server cannot be resolved, `supla_cloud_connect` returns the
-- resolver's error, which is not 0 and so counts as a connection, and leaves a link to a freed block.
pub unresolved-IsDangling :
    (os : Os) (host : Bytes) (port : ℤ) (h : Host) (a : ℕ)
    → os.malloc h.trace ≡ some a
    → os.getaddrinfo (allocated a ∷ h.trace) host ≢ pos 0
    → let out = supla_cloud_connect os host port h in
      (out.1 ≡ os.getaddrinfo (allocated a ∷ h.trace) host) × IsDangling out.0
unfolding supla_cloud_connect after_malloc with_block is_live
unresolved-IsDangling os host port h a e bad =
    let not_ok : eqb_ℤ (os.getaddrinfo (allocated a ∷ h.trace) host) (pos 0) ≡ false =
      ground arith in
    simp (e, not_ok) (refl, record { block = a; link = refl; dead = ground arith })
