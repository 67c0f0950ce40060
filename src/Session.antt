-- ===== src/Session.antt =====
-- src/security/local_session.[ch]: the fixed pool of connection slots, with each connection's
-- handshake state and keys. A pointer to a slot is the slot's index; a slot never moves.
pub mod Invariant
pub mod Slots
pub mod Reachable
use cything.Prelude.{
  ℕ, suc, ◌+◌, Bool, false, ◌&&◌, not, Option, none, some, List, [], ◌∷◌, map, ℤ, minus_one, pos,
  ◌==ℤ◌, ltb_ℤ, is_neg, pred_ℤ, ◌==◌, if◌then◌else◌, replicate, get_or,
}
use mathlib.Core.Option
use cything.Prelude.Bytes.{Bytes}

-- LOCAL_SESSION_MAX.
abbrev pub local_session_max : ℕ
local_session_max = 8

-- `local_session_state_t`.
pub data State : Type 0 where
  ls_new ls_pake_wait_proof ls_pake_ok ls_auth_wait_proof ls_auth_ok : State

-- `local_session_role_t`.
pub data Role : Type 0 where
  role_none role_user role_owner : Role

-- `local_session_t`. `srp` is the SRP handle that the slot owns, `none` for NULL.
pub record Session : Type 0 where
  pub sock : ℤ
  pub peer_ip : ℕ
  pub rx_len : ℕ
  pub state : State
  pub role : Role
  pub paired_index : ℤ
  pub srp : Option ℕ
  pub key : Bytes
  pub nonce_dev : Bytes
  pub nonce_phone : Bytes
  pub tx_ctr : ℕ
  pub rx_ctr : ℕ
  pub rx_encrypted : Bool

abbrev pub Pool : Type 0
Pool = List Session

-- `memset(p, 0, n)` over a block of n bytes.
unfoldable pub zeros : ℕ → Bytes
zeros n = replicate n 0

-- What `wipe` leaves, and what `local_session_init` writes: a zeroed slot, marked free.
abbrev pub free_slot : Session
free_slot = record {
  sock = minus_one;
  peer_ip = 0;
  rx_len = 0;
  state = ls_new;
  role = role_none;
  paired_index = minus_one;
  srp = none;
  key = zeros 32;
  nonce_dev = zeros 16;
  nonce_phone = zeros 16;
  tx_ctr = 0;
  rx_ctr = 0;
  rx_encrypted = false;
}

-- `wipe`: the SRP handle is freed and every field cleared.
unfoldable pub wipe : Session → Session
wipe s = record s {
  srp = none;
  key = zeros 32;
  nonce_dev = zeros 16;
  nonce_phone = zeros 16;
  tx_ctr = 0;
  rx_ctr = 0;
  rx_encrypted = false;
  state = ls_new;
  role = role_none;
  paired_index = minus_one;
  rx_len = 0;
  peer_ip = 0;
  sock = minus_one;
}

unfoldable pub init : Pool
init = replicate local_session_max free_slot

-- The slot taken, `none` when all are in use.
unfoldable pub acquire : ℤ → ℕ → Pool → Pool × Option ℕ
unfolding wipe
acquire sock peer_ip [] = ([], none)
acquire sock peer_ip (s ∷ pool) =
    let rest = acquire sock peer_ip pool in
    if s.sock ==ℤ minus_one
    then (record (wipe s) { sock = sock; peer_ip = peer_ip } ∷ pool, some 0)
    else (s ∷ rest.0, Option.map suc rest.1)

unfoldable pub find_slot : ℤ → Pool → Option ℕ
find_slot sock [] = none
find_slot sock (s ∷ pool) = if s.sock ==ℤ sock then some 0 else Option.map suc (find_slot sock pool)

unfoldable pub find : ℤ → Pool → Option ℕ
unfolding find_slot
find sock pool = if is_neg sock then none else find_slot sock pool

unfoldable pub release : ℤ → Pool → Pool
unfolding wipe
release sock [] = []
release sock (s ∷ pool) = if s.sock ==ℤ sock then wipe s ∷ pool else s ∷ release sock pool

-- `drop_auth`: forget the keys and the entry, keep the socket.
unfoldable pub drop_auth : Session → Session
drop_auth s = record s {
  srp = none;
  key = zeros 32;
  tx_ctr = 0;
  rx_ctr = 0;
  state = ls_new;
  role = role_none;
  paired_index = minus_one;
}

-- One slot's part of `local_session_on_paired_removed`.
unfoldable pub follow_removed : ℕ → Session → Session
unfolding drop_auth
follow_removed index s =
    if s.sock ==ℤ minus_one
    then s
    else if s.paired_index ==ℤ pos index
    then drop_auth s
    else if ltb_ℤ (pos index) s.paired_index
    then record s { paired_index = pred_ℤ s.paired_index }
    else s

unfoldable pub on_paired_removed : ℕ → Pool → Pool
unfolding follow_removed
on_paired_removed index pool = map (follow_removed index) pool

unfoldable pub reset_handshake : Session → Session
reset_handshake s = record s {
  srp = none;
  key = zeros 32;
  nonce_dev = zeros 16;
  nonce_phone = zeros 16;
  tx_ctr = 0;
  rx_ctr = 0;
  rx_encrypted = false;
  state = ls_new;
  role = role_none;
  paired_index = minus_one;
}

unfoldable pub drop_live : Session → Session
unfolding drop_auth
drop_live s = if s.sock ==ℤ minus_one then s else drop_auth s

unfoldable pub drop_all_auth : Pool → Pool
unfolding drop_live
drop_all_auth pool = map drop_live pool

unfoldable pub count : Pool → ℕ
count [] = 0
count (s ∷ pool) = (if s.sock ==ℤ minus_one then 0 else 1) + count pool

-- The sockets that get `shutdown(sock, SHUT_RDWR)`, in order; the C function returns their number.
unfoldable pub peer_socks : ℕ → Pool → List ℤ
peer_socks ip [] = []
peer_socks ip (s ∷ pool) =
    let rest = peer_socks ip pool in
    if not (s.sock ==ℤ minus_one) && (s.peer_ip == ip) then s.sock ∷ rest else rest

unfoldable pub shutdown_peer : ℕ → Pool → List ℤ
unfolding peer_socks
shutdown_peer ip pool = if ip == 0 then [] else peer_socks ip pool

-- `*s` for a slot pointer.
abbrev pub at : ℕ → Pool → Session
at i pool = get_or pool i free_slot
