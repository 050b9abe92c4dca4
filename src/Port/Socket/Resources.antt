-- ===== src/Port/Socket/Resources.antt =====
-- What the connection on a bare socket takes and gives back: blocks, descriptors, address lists.
use libsupla.Prelude.{
  ℕ, ◌≡◌, ◌⊎◌, ◌∙◌, refl, true, false, none, some, Bytes, ◌==◌, if◌then◌else◌, Bool-cases,
  Option-cases, inl, inr, arith,
}
use libsupla.Prelude.Int.{ℤ, pos, negsuc, eqb_ℤ}
use libsupla.Port.{
  allocated, freed, resolved, closed, shut, Os, Host, IsFresh, is_live, is_open, lists_held, log,
  write_cell,
}
use libsupla.Port.Socket.{
  with_block, supla_cloud_connect, supla_cloud_disconnect, disconnect_link, hang_up, release,
}
use libsupla.Port.Socket.Loop.{Up, try_all-Tried}

-- A connection stands: the link is a new block with a new open descriptor, and nothing else is
-- taken or given back.
pub record Linked (h : Host) (out : Host × ℤ) : Type 0 where
  pub result : out.1 ≡ pos 1
  pub block : ℕ
  pub fd : ℕ
  pub link : out.0.link ≡ some block
  pub cell : out.0.cell block ≡ pos fd
  pub new_block : is_live h.trace block ≡ false
  pub new_fd : is_open h.trace fd ≡ false
  pub blocks : (b : ℕ) → is_live out.0.trace b ≡ (if block == b then true else is_live h.trace b)
  pub files : (e : ℕ) → is_open out.0.trace e ≡ (if fd == e then true else is_open h.trace e)
  pub lists : lists_held out.0.trace ≡ lists_held h.trace

-- No connection stands: the link points to a block that is free again, and the blocks are as before.
pub record Abandoned (h : Host) (out : Host × ℤ) : Type 0 where
  pub block : ℕ
  pub link : out.0.link ≡ some block
  pub freed : is_live out.0.trace block ≡ false
  pub blocks : (b : ℕ) → is_live out.0.trace b ≡ is_live h.trace b

module _ (os : Os) (fresh : IsFresh os) (host : Bytes) (port : ℤ) (h : Host) where
  -- the state in which the name is resolved
  with_new : ℕ → Host
  with_new a = record (write_cell (log h (allocated a)) a (negsuc 0)) { link = some a }

  Linked-Up :
      (a : ℕ) (out : Host × ℤ)
      → is_live h.trace a ≡ false
      → Up a (log (with_new a) resolved) out
      → Linked h out
  unfolding with_new is_live is_open lists_held
  Linked-Up a out new u = record {
    result = u.result;
    block = a;
    fd = u.fd;
    link = u.link;
    cell = u.cell;
    new_block = new;
    new_fd = u.new;
    blocks = u.blocks;
    files = u.files;
    lists = u.lists ∙ omega arith;
  }

  Abandoned-freed :
      (a : ℕ) (out : Host × ℤ)
      → is_live h.trace a ≡ false
      → out.0.link ≡ some a
      → ((b : ℕ)
          → is_live out.0.trace b
            ≡ (if a == b then false else (if a == b then true else is_live h.trace b)))
      → Abandoned h out
  Abandoned-freed a out new l bs = record {
    block = a;
    link = l;
    freed = ground (arith, bs a);
    blocks = λ b. ground (arith, bs b);
  }

  with_block-Linked :
      (a : ℕ)
      → is_live h.trace a ≡ false
      → Linked h (with_block os host port h a) ⊎ Abandoned h (with_block os host port h a)
  unfolding with_block with_new is_live
  with_block-Linked a new =
      let h1 = with_new a in
      elim (Bool-cases (eqb_ℤ (os.getaddrinfo h1.trace host) (pos 0))) [
        | inl ok ↦
            simp ok
              (elim (try_all-Tried os fresh port a (os.addresses h1.trace host) (log h1 resolved)) [
                | inl u ↦ inl (Linked-Up a _ new u)
                | inr d ↦ inr (Abandoned-freed a _ new d.link d.blocks)
              ])
        | inr bad ↦ simp bad (inr (Abandoned-freed a _ new refl (λ b. refl)))
      ]

  -- If `malloc` and `socket` give new blocks and descriptors: without memory `supla_cloud_connect` does
  -- nothing and returns 0; else either a connection stands, with the result 1, one block and one
  -- descriptor more, and the address list released; or the new block is free again, with `cloud_link`
  -- pointing to it, and no other block is taken or freed.
  pub supla_cloud_connect_lem :
      ((os.malloc h.trace ≡ none) × (supla_cloud_connect os host port h ≡ (h, pos 0)))
      ⊎ (Linked h (supla_cloud_connect os host port h)
          ⊎ Abandoned h (supla_cloud_connect os host port h))
  unfolding supla_cloud_connect
  supla_cloud_connect_lem = elim (Option-cases (os.malloc h.trace)) [
    | inl e ↦ simp e (inl (refl, refl))
    | inr (a, e) ↦ simp e (inr (with_block-Linked a (fresh.block h.trace a e)))
  ]

-- the device hangs up after a connection
module _ (h : Host) (out : Host × ℤ) (l : Linked h out) where
  -- After a connection has been made, `supla_cloud_disconnect` succeeds, and every block and every
  -- descriptor is as it was before the connection.
  pub disconnect-Linked :
      (h' : Host) × (supla_cloud_disconnect out.0 ≡ some (h', pos 0))
      × ((b : ℕ) → is_live h'.trace b ≡ is_live h.trace b)
      × ((e : ℕ) → is_open h'.trace e ≡ is_open h.trace e)
  unfolding supla_cloud_disconnect disconnect_link release hang_up is_live is_open
  disconnect-Linked =
      let live : is_live out.0.trace l.block ≡ true = ground (arith, l.blocks l.block) in
      (
        log (log (log out.0 (shut l.fd)) (closed l.fd)) (freed l.block),
        simp (l.link, live, l.cell),
        λ b. ground (arith, l.blocks b),
        λ e. ground (arith, l.files e),
      )
