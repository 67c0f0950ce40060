-- ===== src/Session/Invariant.antt =====
-- src/security/local_session.c: what holds of every slot of the pool between two calls.
use cything.Prelude.{ℕ, ◌≡◌, ◌≢◌, refl, false, none, [], ◌∷◌, ℤ, minus_one, is_neg, arith}
use cything.Prelude.Every.{Every, Every-map, Every-replicate}
use cything.Session.{
  Session, Pool, ls_new, ls_pake_wait_proof, ls_pake_ok, ls_auth_wait_proof, ls_auth_ok, role_none,
  free_slot, zeros, wipe, init, acquire, release, drop_auth, follow_removed, on_paired_removed,
  reset_handshake, drop_live, drop_all_auth, local_session_max,
}

-- One slot. A free slot holds nothing at all; a slot with no handshake holds no key, no SRP handle
-- and no account; an SRP handle exists only while its proof is awaited; a session that has
-- authenticated has a role and a row of the paired list.
pub record IsSound (s : Session) : Type 0 where
  pub free_is_clean : s.sock ≡ minus_one → s ≡ free_slot
  pub new_is_blank :
      s.state ≡ ls_new
      → (s.key ≡ zeros 32) × (s.srp ≡ none) × (s.role ≡ role_none) × (s.paired_index ≡ minus_one)
  pub srp_awaits_proof : s.srp ≢ none → s.state ≡ ls_pake_wait_proof
  pub pake_waits :
      s.state ≡ ls_pake_wait_proof → (s.role ≡ role_none) × (s.paired_index ≡ minus_one)
  pub pake_ok_role : s.state ≡ ls_pake_ok → s.role ≢ role_none → is_neg s.paired_index ≡ false
  pub pake_ok_row : s.state ≡ ls_pake_ok → is_neg s.paired_index ≡ false → s.role ≢ role_none
  pub auth_waits :
      s.state ≡ ls_auth_wait_proof → (s.role ≡ role_none) × (is_neg s.paired_index ≡ false)
  pub auth_ok : s.state ≡ ls_auth_ok → (s.role ≢ role_none) × (is_neg s.paired_index ≡ false)

pub free_slot-IsSound : IsSound free_slot
free_slot-IsSound = ground arith

pub wipe-eq_free : (s : Session) → wipe s ≡ free_slot
unfolding wipe
wipe-eq_free s = refl

pub fresh-IsSound :
    (sock : ℤ) (ip : ℕ)
    → is_neg sock ≡ false
    → IsSound (record free_slot { sock = sock; peer_ip = ip })
fresh-IsSound sock ip h = ground arith

pub drop_auth-IsSound : (s : Session) → s.sock ≢ minus_one → IsSound (drop_auth s)
unfolding drop_auth
drop_auth-IsSound s h = ground arith

pub reset_handshake-IsSound : (s : Session) → s.sock ≢ minus_one → IsSound (reset_handshake s)
unfolding reset_handshake
reset_handshake-IsSound s h = ground arith

pub follow_removed-IsSound : (i : ℕ) (s : Session) → IsSound s → IsSound (follow_removed i s)
unfolding follow_removed drop_auth
follow_removed-IsSound i s v = ground arith

pub drop_live-IsSound : (s : Session) → IsSound s → IsSound (drop_live s)
unfolding drop_live drop_auth
drop_live-IsSound s v = ground arith

abbrev pub IsSoundPool : Pool → Type 0
IsSoundPool pool = Every IsSound pool

pub init-IsSoundPool : IsSoundPool init
unfolding init
init-IsSoundPool = Every-replicate IsSound local_session_max free_slot free_slot-IsSound

pub acquire-IsSoundPool :
    (sock : ℤ) (ip : ℕ) (pool : Pool)
    → is_neg sock ≡ false
    → IsSoundPool pool
    → IsSoundPool (acquire sock ip pool).0
unfolding acquire
acquire-IsSoundPool sock ip [] n h = tt
acquire-IsSoundPool sock ip (s ∷ pool) n h =
    ground (arith, fresh-IsSound sock ip n, acquire-IsSoundPool sock ip pool n h.1)

pub release-IsSoundPool :
    (sock : ℤ) (pool : Pool) → IsSoundPool pool → IsSoundPool (release sock pool)
unfolding release
release-IsSoundPool sock [] h = tt
release-IsSoundPool sock (s ∷ pool) h =
    ground (arith, free_slot-IsSound, release-IsSoundPool sock pool h.1)

pub on_paired_removed-IsSoundPool :
    (i : ℕ) (pool : Pool) → IsSoundPool pool → IsSoundPool (on_paired_removed i pool)
unfolding on_paired_removed
on_paired_removed-IsSoundPool i =
    Every-map IsSound IsSound (follow_removed i) (follow_removed-IsSound i)

pub drop_all_auth-IsSoundPool : (pool : Pool) → IsSoundPool pool → IsSoundPool (drop_all_auth pool)
unfolding drop_all_auth
drop_all_auth-IsSoundPool = Every-map IsSound IsSound drop_live drop_live-IsSound
