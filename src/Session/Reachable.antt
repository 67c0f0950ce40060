-- ===== src/Session/Reachable.antt =====
-- src/security/local_session.c: the pool as its callers drive it, from boot on.
use cything.Prelude.{
  zero, replicate, ℕ, ◌≡◌, refl, sym, ◌∙◌, ℤ, is_neg, false, [], ◌∷◌, map, arith, length,
  length-map, length-replicate, suc,
}
use cything.Session.{
  Session, Pool, local_session_max, free_slot, init, acquire, release, on_paired_removed,
  follow_removed, drop_auth, drop_all_auth, drop_live,
}
use cything.Session.Invariant.{
  IsSoundPool, init-IsSoundPool, acquire-IsSoundPool, release-IsSoundPool,
  on_paired_removed-IsSoundPool, drop_all_auth-IsSoundPool,
}
use cything.Session.Slots.{Absent, DistinctSocks, acquire-DistinctSocks, release-DistinctSocks}

-- A pool that calls of the module lead to. A new connection has a descriptor that no slot has, since
-- the slot of a closed one is given back before it can be used again.
pub data Reachable : Pool → Type 0 where
  booted : Reachable init
  connected :
      {pool : Pool} (sock : ℤ) (ip : ℕ)
      → is_neg sock ≡ false
      → Absent sock pool
      → Reachable pool
      → Reachable (acquire sock ip pool).0
  disconnected : {pool : Pool} (sock : ℤ) → Reachable pool → Reachable (release sock pool)
  unpaired : {pool : Pool} (index : ℕ) → Reachable pool → Reachable (on_paired_removed index pool)
  cleared : {pool : Pool} → Reachable pool → Reachable (drop_all_auth pool)

pub length-acquire :
    (sock : ℤ) (ip : ℕ) (pool : Pool) → length (acquire sock ip pool).0 ≡ length pool
unfolding acquire
length-acquire sock ip [] = refl
length-acquire sock ip (s ∷ pool) = ground (arith, length-acquire sock ip pool)

pub length-release : (sock : ℤ) (pool : Pool) → length (release sock pool) ≡ length pool
unfolding release
length-release sock [] = refl
length-release sock (s ∷ pool) = ground (arith, length-release sock pool)

follow_removed-sock : (i : ℕ) (s : Session) → (follow_removed i s).sock ≡ s.sock
unfolding follow_removed drop_auth
follow_removed-sock i s = ground arith

drop_live-sock : (s : Session) → (drop_live s).sock ≡ s.sock
unfolding drop_live drop_auth
drop_live-sock s = ground arith

-- A change of each slot that keeps its socket.
module _ (f : Session → Session) (keeps : (s : Session) → (f s).sock ≡ s.sock) where
  Absent-map : (k : ℤ) (pool : Pool) → Absent k pool → Absent k (map f pool)
  Absent-map k [] h = tt
  Absent-map k (s ∷ pool) h = ((λ q. h.0 (sym (keeps s) ∙ q)), Absent-map k pool h.1)

  map-DistinctSocks : (pool : Pool) → DistinctSocks pool → DistinctSocks (map f pool)
  map-DistinctSocks [] h = tt
  map-DistinctSocks (s ∷ pool) h = (
    λ n. rw (keeps s) (Absent-map s.sock pool (h.0 (λ q. n (keeps s ∙ q)))),
    map-DistinctSocks pool h.1,
  )

free-DistinctSocks : (n : ℕ) → DistinctSocks (replicate n free_slot)
free-DistinctSocks zero = tt
free-DistinctSocks (suc n) = (λ h. absurd (h refl), free-DistinctSocks n)

length-init : length init ≡ local_session_max
unfolding init
length-init = length-replicate local_session_max free_slot

init-DistinctSocks : DistinctSocks init
unfolding init
init-DistinctSocks = free-DistinctSocks local_session_max

-- Whatever calls were made, the pool has its eight slots, no two slots serve one socket, and every
-- slot is sound: a free slot holds no key, SRP handle or account, a slot without a handshake neither,
-- and one that has authenticated has a role and a row of the paired list.
pub Reachable-IsSoundPool :
    (pool : Pool)
    → Reachable pool
    → (length pool ≡ local_session_max) × IsSoundPool pool × DistinctSocks pool
unfolding on_paired_removed drop_all_auth
Reachable-IsSoundPool _ booted = (length-init, init-IsSoundPool, init-DistinctSocks)
Reachable-IsSoundPool _ (connected sock ip n a r) =
    let (l, s, d) = Reachable-IsSoundPool _ r in
    (
      length-acquire sock ip _ ∙ l,
      acquire-IsSoundPool sock ip _ n s,
      acquire-DistinctSocks sock ip _ a d,
    )
Reachable-IsSoundPool _ (disconnected sock r) =
    let (l, s, d) = Reachable-IsSoundPool _ r in
    (length-release sock _ ∙ l, release-IsSoundPool sock _ s, release-DistinctSocks sock _ d)
Reachable-IsSoundPool _ (unpaired {pool} index r) =
    let (l, s, d) = Reachable-IsSoundPool _ r in
    (
      length-map pool (follow_removed index) ∙ l,
      on_paired_removed-IsSoundPool index _ s,
      map-DistinctSocks (follow_removed index) (follow_removed-sock index) pool d,
    )
Reachable-IsSoundPool _ (cleared {pool} r) =
    let (l, s, d) = Reachable-IsSoundPool _ r in
    (
      length-map pool drop_live ∙ l,
      drop_all_auth-IsSoundPool _ s,
      map-DistinctSocks drop_live drop_live-sock pool d,
    )

pub on_paired_removed-DistinctSocks :
    (index : ℕ) (pool : Pool) → DistinctSocks pool → DistinctSocks (on_paired_removed index pool)
unfolding on_paired_removed
on_paired_removed-DistinctSocks index pool h =
    map-DistinctSocks (follow_removed index) (follow_removed-sock index) pool h

pub drop_all_auth-DistinctSocks :
    (pool : Pool) → DistinctSocks pool → DistinctSocks (drop_all_auth pool)
unfolding drop_all_auth
drop_all_auth-DistinctSocks pool h = map-DistinctSocks drop_live drop_live-sock pool h
