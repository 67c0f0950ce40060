-- ===== src/Session/Slots.antt =====
-- src/security/local_session.c: which slot a socket has, and what taking and giving back a slot does.
use cything.Prelude.{
  set, ℕ, zero, suc, ◌+◌, ◌≤◌, ◌≡◌, ◌≢◌, refl, ◌↔◌, false, none, some, [], ◌∷◌, ℤ, minus_one,
  ==ℤ_iff, is_neg, arith, length, Option-cases, get_elem?,
}
use cything.Prelude.Every.{Every}
use cything.Session.{Session, Pool, free_slot, wipe, acquire, find_slot, find, release, count}

-- No slot has this socket.
abbrev pub Absent : ℤ → Pool → Type 0
Absent sock pool = Every (λ s. s.sock ≢ sock) pool

-- No two slots have the same live socket.
abbrev pub DistinctSocks : Pool → Type 0
DistinctSocks [] = Unit {0}
DistinctSocks (s ∷ pool) = (s.sock ≢ minus_one → Absent s.sock pool) × DistinctSocks pool

find_slot-Absent : (sock : ℤ) (pool : Pool) → Absent sock pool → find_slot sock pool ≡ none
unfolding find_slot
find_slot-Absent sock [] h = refl
find_slot-Absent sock (s ∷ pool) h =
    ground (arith, ==ℤ_iff s.sock sock, find_slot-Absent sock pool h.1)

pub find-Absent : (sock : ℤ) (pool : Pool) → Absent sock pool → find sock pool ≡ none
unfolding find
find-Absent sock pool h = ground (arith, find_slot-Absent sock pool h)

-- The slot that is found has the socket.
find_slot_sock :
    (sock : ℤ) (pool : Pool) (i : ℕ)
    → find_slot sock pool ≡ some i
    → (s : Session) × (get_elem? pool i ≡ some s) × (s.sock ≡ sock)
unfolding find_slot
find_slot_sock sock [] i h = absurd (cc)
find_slot_sock sock (s ∷ pool) zero h =
    (s, refl, ground (arith, ==ℤ_iff s.sock sock, Option-cases (find_slot sock pool)))
find_slot_sock sock (s ∷ pool) (suc i) h =
    find_slot_sock sock pool i (ground (arith, Option-cases (find_slot sock pool)))

pub find-sock :
    (sock : ℤ) (pool : Pool) (i : ℕ)
    → find sock pool ≡ some i
    → (s : Session) × (get_elem? pool i ≡ some s) × (s.sock ≡ sock)
unfolding find
find-sock sock pool i h = find_slot_sock sock pool i (ground arith)

found_live :
    (sock : ℤ) (pool : Pool) (i : ℕ)
    → find sock pool ≡ some i
    → (find_slot sock pool ≡ some i) × (sock ≢ minus_one)
unfolding find
found_live sock pool i h = ground arith

length-acquire : (sock : ℤ) (ip : ℕ) (pool : Pool) → length (acquire sock ip pool).0 ≡ length pool
unfolding acquire
length-acquire sock ip [] = refl
length-acquire sock ip (s ∷ pool) = ground (arith, length-acquire sock ip pool)

length-release : (sock : ℤ) (pool : Pool) → length (release sock pool) ≡ length pool
unfolding release
length-release sock [] = refl
length-release sock (s ∷ pool) = ground (arith, length-release sock pool)

Absent-acquire :
    (t sock : ℤ) (ip : ℕ) (pool : Pool)
    → t ≢ sock
    → Absent t pool
    → Absent t (acquire sock ip pool).0
unfolding acquire
Absent-acquire t sock ip [] n h = tt
Absent-acquire t sock ip (s ∷ pool) n h = ground (arith, Absent-acquire t sock ip pool n h.1)

pub acquire-DistinctSocks :
    (sock : ℤ) (ip : ℕ) (pool : Pool)
    → Absent sock pool
    → DistinctSocks pool
    → DistinctSocks (acquire sock ip pool).0
unfolding acquire
acquire-DistinctSocks sock ip [] a h = tt
acquire-DistinctSocks sock ip (s ∷ pool) a h =
    ground
      (arith, Absent-acquire s.sock sock ip pool a.0, acquire-DistinctSocks sock ip pool a.1 h.1)

Absent-release :
    (t sock : ℤ) (pool : Pool) → t ≢ minus_one → Absent t pool → Absent t (release sock pool)
unfolding release wipe
Absent-release t sock [] n h = tt
Absent-release t sock (s ∷ pool) n h = ground (arith, Absent-release t sock pool n h.1)

pub release-DistinctSocks :
    (sock : ℤ) (pool : Pool) → DistinctSocks pool → DistinctSocks (release sock pool)
unfolding release wipe
release-DistinctSocks sock [] h = tt
release-DistinctSocks sock (s ∷ pool) h =
    ground (arith, Absent-release s.sock sock pool, release-DistinctSocks sock pool h.1)

Absent-eq : (t sock : ℤ) (pool : Pool) → t ≡ sock → Absent t pool → Absent sock pool
Absent-eq t sock [] e h = tt
Absent-eq t sock (s ∷ pool) e h = ground (arith, Absent-eq t sock pool e h.1)

-- After a release the socket has no slot any more.
pub release-Absent :
    (sock : ℤ) (pool : Pool)
    → sock ≢ minus_one
    → DistinctSocks pool
    → Absent sock (release sock pool)
unfolding release wipe
release-Absent sock [] n h = tt
release-Absent sock (s ∷ pool) n h =
    ground (arith, ==ℤ_iff s.sock sock, Absent-eq s.sock sock pool, release-Absent sock pool n h.1)

-- What `acquire` puts into the slot that it takes.
abbrev pub fresh_slot : ℤ → ℕ → Session
fresh_slot sock ip = record free_slot { sock = sock; peer_ip = ip }

find_slot-acquire :
    (sock : ℤ) (ip : ℕ) (pool : Pool) (i : ℕ)
    → sock ≢ minus_one
    → Absent sock pool
    → (acquire sock ip pool).1 ≡ some i
    → (find_slot sock (acquire sock ip pool).0 ≡ some i)
      × (get_elem? (acquire sock ip pool).0 i ≡ some (fresh_slot sock ip))
unfolding acquire find_slot wipe
find_slot-acquire sock ip [] i n a h = cc
find_slot-acquire sock ip (s ∷ pool) zero n a h =
    ground (arith, ==ℤ_iff sock sock, ==ℤ_iff s.sock sock, Option-cases (acquire sock ip pool).1)
find_slot-acquire sock ip (s ∷ pool) (suc i) n a h = ground (
  arith,
  ==ℤ_iff s.sock sock,
  Option-cases (acquire sock ip pool).1,
  find_slot-acquire sock ip pool i n a.1,
)

acquire-set :
    (sock : ℤ) (ip : ℕ) (pool : Pool) (i : ℕ)
    → (acquire sock ip pool).1 ≡ some i
    → (acquire sock ip pool).0 ≡ set pool i (fresh_slot sock ip)
unfolding acquire wipe
acquire-set sock ip [] i h = cc
acquire-set sock ip (s ∷ pool) zero h = ground (arith, Option-cases (acquire sock ip pool).1)
acquire-set sock ip (s ∷ pool) (suc i) h =
    ground (arith, Option-cases (acquire sock ip pool).1, acquire-set sock ip pool i)

release-set :
    (sock : ℤ) (pool : Pool) (i : ℕ)
    → find_slot sock pool ≡ some i
    → release sock pool ≡ set pool i free_slot
unfolding release find_slot wipe
release-set sock [] i h = cc
release-set sock (s ∷ pool) zero h = ground (arith, Option-cases (find_slot sock pool))
release-set sock (s ∷ pool) (suc i) h =
    ground (arith, Option-cases (find_slot sock pool), release-set sock pool i)

-- A connection with a descriptor that no slot has, and that gets a slot, is found in it, the slot
-- starts out zeroed in state LS_NEW, and no other slot changes.
pub find-acquire :
    (sock : ℤ) (ip : ℕ) (pool : Pool) (i : ℕ)
    → is_neg sock ≡ false
    → Absent sock pool
    → (acquire sock ip pool).1 ≡ some i
    → (find sock (acquire sock ip pool).0 ≡ some i)
      × ((acquire sock ip pool).0 ≡ set pool i (fresh_slot sock ip))
unfolding find
find-acquire sock ip pool i n a h =
    let found = find_slot-acquire sock ip pool i (ground arith) a h in
    (rw n found.0, acquire-set sock ip pool i h)

-- In a pool with distinct sockets, giving back the slot of a socket wipes it whole, keys included,
-- leaves every other slot alone, and the socket is not found any more.
pub find-release :
    (sock : ℤ) (pool : Pool) (i : ℕ)
    → DistinctSocks pool
    → find sock pool ≡ some i
    → (find sock (release sock pool) ≡ none) × (release sock pool ≡ set pool i free_slot)
find-release sock pool i d h =
    let (live, named) = found_live sock pool i h in
    (
      find-Absent sock (release sock pool) (release-Absent sock pool named d),
      release-set sock pool i live,
    )

pub count_le : (pool : Pool) → count pool ≤ length pool
unfolding count
count_le [] = omega arith
count_le (s ∷ pool) = ground (arith, count_le pool)

acquire_full :
    (sock : ℤ) (ip : ℕ) (pool : Pool)
    → ((acquire sock ip pool).1 ≡ none) ↔ (count pool ≡ length pool)
unfolding acquire count
acquire_full sock ip [] = (λ h. refl, λ h. refl)
acquire_full sock ip (s ∷ pool) = (
  λ h. ground (arith, acquire_full sock ip pool, Option-cases (acquire sock ip pool).1),
  λ h. ground (arith, acquire_full sock ip pool, count_le pool),
)

acquire_counts :
    (sock : ℤ) (ip : ℕ) (pool : Pool) (i : ℕ)
    → sock ≢ minus_one
    → (acquire sock ip pool).1 ≡ some i
    → count (acquire sock ip pool).0 ≡ count pool + 1
unfolding acquire count
acquire_counts sock ip [] i n h = cc
acquire_counts sock ip (s ∷ pool) zero n h =
    ground (arith, ==ℤ_iff sock minus_one, Option-cases (acquire sock ip pool).1)
acquire_counts sock ip (s ∷ pool) (suc i) n h =
    ground (arith, Option-cases (acquire sock ip pool).1, acquire_counts sock ip pool i n)

-- A connection is refused exactly when all slots are in use.
pub acquire-none_iff :
    (sock : ℤ) (ip : ℕ) (pool : Pool)
    → ((acquire sock ip pool).1 ≡ none) ↔ (count pool ≡ length pool)
acquire-none_iff sock ip pool = acquire_full sock ip pool
