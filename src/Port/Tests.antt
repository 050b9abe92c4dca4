-- ===== src/Port/Tests.antt =====
-- The connection and the clock at concrete inputs.
use libsupla.Prelude.{ℕ, ◌≡◌, ◌⊎◌, refl, none, some, [], ◌∷◌, arith, if◌then◌else◌}
use libsupla.Prelude.Int.{ℤ, pos, negsuc}
use libsupla.Port.{
  Family, inet, inet6, unknown, Attempt, connected, refused, Os, Host, IsFresh, is_live, is_open,
  lists_held,
}
use libsupla.Port.Socket.{supla_cloud_connect, supla_cloud_send, supla_cloud_disconnect}
use libsupla.Port.Socket.Resources.{Linked, Abandoned, supla_cloud_connect_lem, disconnect-Linked}
use libsupla.Port.Socket.Dangling.{IsDangling, refused_faults, unresolved-IsDangling}

-- by the family of the address: only the second address takes the connection
second : Family → Attempt
second inet = connected
second inet6 = refused
second unknown = refused

none_takes : Family → Attempt
none_takes f = refused

-- A system with one block, at 7, and one descriptor, 3; the server has an address of each family.
abbrev system : ℤ → (Family → Attempt) → Os
system rc answer = record {
  malloc = λ tr. if is_live tr 7 then none else some 7;
  getaddrinfo = λ tr name. rc;
  addresses = λ tr name.
      record { family = inet6; address = 1 ∷ [] } ∷ record { family = inet; address = 2 ∷ [] } ∷ [];
  socket = λ tr ai. if is_open tr 3 then none else some 3;
  connect = λ tr fd ai port. answer ai.family;
  send = λ tr sfd buf. sfd;
  recv = λ tr sfd count. ([], sfd);
}

system-IsFresh : (rc : ℤ) (answer : Family → Attempt) → IsFresh (system rc answer)
system-IsFresh rc answer = record {
  block = λ tr a e. ground arith;
  descriptor = λ tr ai fd e. ground arith;
}

-- no connection, and nothing allocated
abbrev unplugged : Host
unplugged = record { link = none; cell = λ b. pos 0; trace = [] }

supla_cloud_connect_lem_example :
    let os = system (pos 0) second in
    ((os.malloc [] ≡ none)
      × (supla_cloud_connect os (1 ∷ []) (pos 2015) unplugged ≡ (unplugged, pos 0)))
    ⊎ (Linked unplugged (supla_cloud_connect os (1 ∷ []) (pos 2015) unplugged)
        ⊎ Abandoned unplugged (supla_cloud_connect os (1 ∷ []) (pos 2015) unplugged))
supla_cloud_connect_lem_example =
    supla_cloud_connect_lem (system (pos 0) second) (system-IsFresh (pos 0) second) (1 ∷ [])
      (pos 2015) unplugged

abbrev plugged : Host × ℤ
plugged = supla_cloud_connect (system (pos 0) second) (1 ∷ []) (pos 2015) unplugged

plugged-Linked : Linked unplugged plugged
unfolding supla_cloud_connect is_live is_open lists_held second
plugged-Linked = record {
  result = refl;
  block = 7;
  fd = 3;
  link = refl;
  cell = refl;
  new_block = refl;
  new_fd = refl;
  blocks = λ b. refl;
  files = λ e. ground arith;
  lists = refl;
}

disconnect-Linked_example :
    (h' : Host) × (supla_cloud_disconnect plugged.0 ≡ some (h', pos 0))
    × ((b : ℕ) → is_live h'.trace b ≡ is_live [] b)
    × ((e : ℕ) → is_open h'.trace e ≡ is_open [] e)
disconnect-Linked_example = disconnect-Linked unplugged plugged plugged-Linked

abbrev refusal : Os
refusal = system (pos 0) none_takes

refused_faults_example :
    let h' = (supla_cloud_connect refusal (1 ∷ []) (pos 2015) unplugged).0 in
    (supla_cloud_disconnect h' ≡ none) × (supla_cloud_send refusal (1 ∷ []) h' ≡ none)
unfolding supla_cloud_connect is_live is_open none_takes
refused_faults_example =
    refused_faults refusal (1 ∷ []) (pos 2015) unplugged (1 ∷ [])
      (system-IsFresh (pos 0) none_takes) (ground arith) (ground arith)

abbrev nameless : Os
nameless = system (negsuc 1) second

unresolved-IsDangling_example :
    let out = supla_cloud_connect nameless (1 ∷ []) (pos 2015) unplugged in
    (out.1 ≡ negsuc 1) × IsDangling out.0
unfolding is_live
unresolved-IsDangling_example =
    unresolved-IsDangling nameless (1 ∷ []) (pos 2015) unplugged 7 refl (ground arith)
