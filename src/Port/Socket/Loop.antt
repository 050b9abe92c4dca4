-- ===== src/Port/Socket/Loop.antt =====
-- The loop of `supla_cloud_connect` over the addresses, in src/port/arch_unix.c built with NOSSL: what
-- it takes and gives back.
use libsupla.Prelude.{
  ℕ, ◌-◌, ◌≡◌, ◌⊎◌, ◌∙◌, refl, sym, Bool, true, false, Option, none, some, List, [], ◌∷◌, ◌==◌,
  if◌then◌else◌, All, inl, inr, arith,
}
use libsupla.Prelude.Int.{ℤ, pos, negsuc, wrap}
use libsupla.Value.{result_true, result_false}
use libsupla.Port.{
  AddrInfo, Attempt, connected, in_progress, refused, freed, released, opened, closed, attempted,
  Os, Host, IsFresh, is_live, is_open, lists_held, log, write_cell,
}
use libsupla.Port.Socket.{has_port, after_attempt, with_family, with_socket, try_all}

-- The loop ends with a connection: one descriptor more is open, in the block, and the list of
-- addresses is released.
pub record Up (a : ℕ) (h : Host) (out : Host × ℤ) : Type 0 where
  pub result : out.1 ≡ pos 1
  pub fd : ℕ
  pub new : is_open h.trace fd ≡ false
  pub link : out.0.link ≡ h.link
  pub cell : out.0.cell a ≡ pos fd
  pub blocks : (b : ℕ) → is_live out.0.trace b ≡ is_live h.trace b
  pub files : (e : ℕ) → is_open out.0.trace e ≡ (if fd == e then true else is_open h.trace e)
  pub lists : lists_held out.0.trace ≡ lists_held h.trace - 1

-- The loop ends without: the block is freed. If no address has a family without a port, all else is
-- given back.
pub record Down (a : ℕ) (ais : List AddrInfo) (h : Host) (out : Host × ℤ) : Type 0 where
  pub result : out.1 ≡ pos 0
  pub link : out.0.link ≡ h.link
  pub blocks : (b : ℕ) → is_live out.0.trace b ≡ (if a == b then false else is_live h.trace b)
  pub files :
      All (λ ai. has_port ai.family ≡ true) ais
      → (e : ℕ) → is_open out.0.trace e ≡ is_open h.trace e
  pub lists :
      All (λ ai. has_port ai.family ≡ true) ais → lists_held out.0.trace ≡ lists_held h.trace - 1

abbrev pub Tried : ℕ → List AddrInfo → Host → Host × ℤ → Type 0
Tried a ais h out = Up a h out ⊎ Down a ais h out

module _ (os : Os) (fresh : IsFresh os) (port : ℤ) (a : ℕ) where
  -- A round that leaves the resources as they were goes over to the next address.
  record Same (h h' : Host) : Type 0 where
    link : h'.link ≡ h.link
    blocks : (b : ℕ) → is_live h'.trace b ≡ is_live h.trace b
    files : (e : ℕ) → is_open h'.trace e ≡ is_open h.trace e
    lists : lists_held h'.trace ≡ lists_held h.trace

  Tried-Same :
      (ai : AddrInfo) (ais : List AddrInfo) (h h' : Host) (out : Host × ℤ)
      → Same h h'
      → Tried a ais h' out
      → Tried a (ai ∷ ais) h out
  Tried-Same ai ais h h' out s (inl u) = inl (record {
    result = u.result;
    fd = u.fd;
    new = sym (s.files u.fd) ∙ u.new;
    link = u.link ∙ s.link;
    cell = u.cell;
    blocks = λ b. u.blocks b ∙ s.blocks b;
    files = λ e. rw (← s.files e) (u.files e);
    lists = rw (← s.lists) u.lists;
  })
  Tried-Same ai ais h h' out s (inr d) = inr (record {
    result = d.result;
    link = d.link ∙ s.link;
    blocks = λ b. rw (← s.blocks b) (d.blocks b);
    files = λ known e. d.files known.1 e ∙ s.files e;
    lists = λ known. rw (← s.lists) (d.lists known.1);
  })

  -- the state before `connect` is called on a new descriptor
  asked : Host → ℕ → Host
  asked h fd = log (write_cell (log h (opened fd)) a (pos fd)) (attempted fd (wrap 65536 port))

  closes-Same :
      (h : Host) (fd : ℕ) → is_open h.trace fd ≡ false → Same h (log (asked h fd) (closed fd))
  unfolding asked is_live is_open lists_held
  closes-Same h fd new = record {
    link = refl;
    blocks = λ b. refl;
    files = λ e. ground arith;
    lists = refl;
  }

  connects-Up :
      (h : Host) (fd : ℕ)
      → is_open h.trace fd ≡ false
      → Up a h (log (asked h fd) released, pos result_true)
  unfolding asked is_live is_open lists_held
  connects-Up h fd new = record {
    result = refl;
    fd = fd;
    new = new;
    link = refl;
    cell = ground arith;
    blocks = λ b. refl;
    files = λ e. refl;
    lists = refl;
  }

  abandons-Down :
      (ais : List AddrInfo) (h : Host)
      → Down a ais h (log (log h released) (freed a), pos result_false)
  unfolding is_live is_open lists_held
  abandons-Down ais h = record {
    result = refl;
    link = refl;
    blocks = λ b. refl;
    files = λ known e. refl;
    lists = λ known. refl;
  }

  -- The early return for an address family without a port keeps the descriptor and the list.
  leaks-Down :
      (ai : AddrInfo) (ais : List AddrInfo) (h : Host) (fd : ℕ)
      → has_port ai.family ≡ false
      → Down a
          (ai ∷ ais)
          h
          (log (write_cell (log h (opened fd)) a (pos fd)) (freed a), pos result_false)
  unfolding is_live is_open lists_held
  leaks-Down ai ais h fd unknown = record {
    result = refl;
    link = refl;
    blocks = λ b. refl;
    files = λ known e. cc;
    lists = λ known. cc;
  }

  skip-Same : (h : Host) → Same h (write_cell h a (negsuc 0))
  skip-Same h = record { link = refl; blocks = λ b. refl; files = λ e. refl; lists = refl }

  after_attempt-Tried :
      (r : Attempt) (ai : AddrInfo) (ais : List AddrInfo) (rest : Host → Host × ℤ) (h : Host)
      (fd : ℕ)
      → is_open h.trace fd ≡ false
      → ((u : Host) → Tried a ais u (rest u))
      → Tried a (ai ∷ ais) h (after_attempt os r fd rest (asked h fd))
  unfolding after_attempt
  after_attempt-Tried connected ai ais rest h fd new ih = inl (connects-Up h fd new)
  after_attempt-Tried in_progress ai ais rest h fd new ih = inl (connects-Up h fd new)
  after_attempt-Tried refused ai ais rest h fd new ih =
      let u = log (asked h fd) (closed fd) in
      Tried-Same ai ais h u (rest u) (closes-Same h fd new) (ih u)

  with_family-Tried :
      (k : Bool) (ai : AddrInfo) (ais : List AddrInfo) (rest : Host → Host × ℤ) (h : Host) (fd : ℕ)
      → has_port ai.family ≡ k
      → is_open h.trace fd ≡ false
      → ((u : Host) → Tried a ais u (rest u))
      → Tried a
          (ai ∷ ais)
          h
          (with_family os k port a ai fd rest (write_cell (log h (opened fd)) a (pos fd)))
  unfolding with_family asked
  with_family-Tried false ai ais rest h fd e new ih = inr (leaks-Down ai ais h fd e)
  with_family-Tried true ai ais rest h fd e new ih = after_attempt-Tried _ ai ais rest h fd new ih

  with_socket-Tried :
      (s : Option ℕ) (ai : AddrInfo) (ais : List AddrInfo) (rest : Host → Host × ℤ) (h : Host)
      → os.socket h.trace ai ≡ s
      → ((u : Host) → Tried a ais u (rest u))
      → Tried a (ai ∷ ais) h (with_socket os s port a ai rest h)
  unfolding with_socket
  with_socket-Tried none ai ais rest h e ih =
      let u = write_cell h a (negsuc 0) in Tried-Same ai ais h u (rest u) (skip-Same h) (ih u)
  with_socket-Tried (some fd) ai ais rest h e ih =
      with_family-Tried (has_port ai.family) ai ais rest h fd refl
        (fresh.descriptor h.trace ai fd e) ih

  pub try_all-Tried : (ais : List AddrInfo) (h : Host) → Tried a ais h (try_all os port a ais h)
  unfolding try_all
  try_all-Tried [] h = inr (abandons-Down [] h)
  try_all-Tried (ai ∷ ais) h =
      with_socket-Tried (os.socket h.trace ai) ai ais (try_all os port a ais) h refl
        (try_all-Tried ais)
