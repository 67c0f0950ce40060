-- ===== src/Clients/Accepting.antt =====
-- The registry of src/tcp_server/tcp_client_list.c next to the slots of
-- src/security/local_session.c, as connections come and go in src/tcp_server/tcp_server.c and
-- src/tcp_server/tcp_client_recv.c.
use cything.Prelude.{
  min, ℕ, zero, suc, ◌+◌, ◌-◌, ◌≡◌, ◌≢◌, refl, ◌∙◌, arith, true, Bool, ◌&&◌, none, some, List, [],
  ◌∷◌, ◌++◌, ℤ, minus_one, ◌==ℤ◌, ==ℤ_iff, inl, inr, Bool-cases, Option-cases, if◌then◌else◌,
  length, leb, length-append, ◌==◌,
}
use cything.Prelude.Every.{Every}
use cything.Session.{shutdown_peer, Pool, acquire, release, count, wipe}
use cything.Device.{Device}
use cything.Dispatch.{connect, disconnect}
use cything.Clients.{add_account, remove_account, accept, close, tcp_client_max}

-- 1 for two equal sockets, 0 for others.
abbrev same : ℤ → ℤ → ℕ
same t sock = if t ==ℤ sock then 1 else 0

-- How often a socket is in the registry, and how many slots serve it.
unfoldable pub entries : ℤ → List ℤ → ℕ
entries t [] = 0
entries t (s ∷ accounts) = same s t + entries t accounts

unfoldable pub slots : ℤ → Pool → ℕ
slots t [] = 0
slots t (s ∷ pool) = same s.sock t + slots t pool

-- The registry is the sockets of the slots that are in use, in some order.
pub record InStep (accounts : List ℤ) (pool : Pool) : Type 0 where
  pub same_socks : (t : ℤ) → t ≢ minus_one → entries t accounts ≡ slots t pool
  pub same_count : length accounts ≡ count pool

entries-append :
    (t sock : ℤ) (accounts : List ℤ)
    → entries t (accounts ++ (sock ∷ [])) ≡ entries t accounts + same sock t
unfolding entries
entries-append t sock [] = omega arith
entries-append t sock (s ∷ accounts) = omega (arith, entries-append t sock accounts)

entries-remove :
    (t sock : ℤ) (accounts : List ℤ)
    → entries t (remove_account sock accounts) ≡ entries t accounts - same sock t
unfolding entries remove_account
entries-remove t sock [] = ground arith
entries-remove t sock (s ∷ accounts) =
    ground (arith, entries-remove t sock accounts, ==ℤ_iff s sock, ==ℤ_iff s t, ==ℤ_iff sock t)

length-remove :
    (sock : ℤ) (accounts : List ℤ)
    → length (remove_account sock accounts) + min (entries sock accounts) 1 ≡ length accounts
unfolding entries remove_account
length-remove sock [] = ground arith
length-remove sock (s ∷ accounts) = ground (arith, length-remove sock accounts)

slots-acquire :
    (t sock : ℤ) (ip : ℕ) (pool : Pool) (i : ℕ)
    → t ≢ minus_one
    → (acquire sock ip pool).1 ≡ some i
    → (slots t (acquire sock ip pool).0 ≡ slots t pool + same sock t)
      × (count (acquire sock ip pool).0 + same sock minus_one ≡ count pool + 1)
unfolding slots acquire count wipe
slots-acquire t sock ip [] i n h = cc
slots-acquire t sock ip (s ∷ pool) zero n h =
    ground
      (arith, Option-cases (acquire sock ip pool).1, ==ℤ_iff s.sock minus_one, ==ℤ_iff s.sock t)
slots-acquire t sock ip (s ∷ pool) (suc i) n h =
    ground (arith, Option-cases (acquire sock ip pool).1, slots-acquire t sock ip pool i n)

acquire-none :
    (sock : ℤ) (ip : ℕ) (pool : Pool)
    → (acquire sock ip pool).1 ≡ none
    → (acquire sock ip pool).0 ≡ pool
unfolding acquire
acquire-none sock ip [] h = refl
acquire-none sock ip (s ∷ pool) h =
    ground (arith, Option-cases (acquire sock ip pool).1, acquire-none sock ip pool)

slots-release :
    (t sock : ℤ) (pool : Pool)
    → t ≢ minus_one
    → slots t (release sock pool) ≡ slots t pool - same sock t
unfolding slots release wipe
slots-release t sock [] n = ground arith
slots-release t sock (s ∷ pool) n = ground (
  arith,
  slots-release t sock pool n,
  ==ℤ_iff s.sock sock,
  ==ℤ_iff s.sock t,
  ==ℤ_iff sock t,
  ==ℤ_iff minus_one t,
)

count-release :
    (sock : ℤ) (pool : Pool)
    → sock ≢ minus_one
    → count (release sock pool) + min (slots sock pool) 1 ≡ count pool
unfolding slots release wipe count
count-release sock [] n = ground arith
count-release sock (s ∷ pool) n =
    ground (arith, count-release sock pool n, ==ℤ_iff s.sock sock, ==ℤ_iff s.sock minus_one)

entries-add :
    (t sock : ℤ) (accounts : List ℤ)
    → (add_account sock accounts).1 ≡ true
    → (entries t (add_account sock accounts).0 ≡ entries t accounts + same sock t)
      × (length (add_account sock accounts).0 ≡ length accounts + 1)
unfolding add_account
entries-add t sock accounts h =
    ground (arith, h, entries-append t sock accounts, length-append accounts (sock ∷ []))

-- Adding an account and removing it again leaves as many entries.
remove-add :
    (t sock : ℤ) (accounts : List ℤ)
    → (add_account sock accounts).1 ≡ true
    → (entries t (remove_account sock (add_account sock accounts).0) ≡ entries t accounts)
      × (length (remove_account sock (add_account sock accounts).0) ≡ length accounts)
remove-add t sock accounts h =
    let a = entries-add t sock accounts h in
    let b = entries-add sock sock accounts h in
    (
      omega (arith, a.0, entries-remove t sock (add_account sock accounts).0),
      omega (arith, a.1, b.0, one, length-remove sock (add_account sock accounts).0),
    )
  where
    one : same sock sock ≡ 1
    one = ground (arith, ==ℤ_iff sock sock)

close-InStep :
    (sock : ℤ) (accounts : List ℤ) (d : Device)
    → sock ≢ minus_one
    → InStep accounts d.pool
    → InStep (close sock accounts d).0 (close sock accounts d).1.pool
unfolding close disconnect
close-InStep sock accounts d n v = record {
  same_socks = λ t m.
      omega
        (arith, v.same_socks t m, entries-remove t sock accounts, slots-release t sock d.pool m);
  same_count = omega (
    arith,
    v.same_count,
    v.same_socks sock n,
    length-remove sock accounts,
    count-release sock d.pool n,
  );
}

module _ (sock : ℤ) (ip : ℕ) (accounts : List ℤ) (d : Device) (named : sock ≢ minus_one)
    (v : InStep accounts d.pool) (added : (add_account sock accounts).1 ≡ true) where
  no_slot-InStep :
      (acquire sock ip d.pool).1 ≡ none
      → InStep (remove_account sock (add_account sock accounts).0) (connect sock ip d).pool
  unfolding connect
  no_slot-InStep e = rw (acquire-none sock ip d.pool e) (record {
    same_socks = λ t m. (remove-add t sock accounts added).0 ∙ v.same_socks t m;
    same_count = (remove-add sock sock accounts added).1 ∙ v.same_count;
  })

  served-InStep :
      (i : ℕ)
      → (acquire sock ip d.pool).1 ≡ some i
      → InStep (add_account sock accounts).0 (connect sock ip d).pool
  unfolding connect
  served-InStep i e = record {
    same_socks = λ t m. omega (
      arith,
      (entries-add t sock accounts added).0,
      (slots-acquire t sock ip d.pool i m e).0,
      v.same_socks t m,
    );
    same_count = omega (
      arith,
      (entries-add sock sock accounts added).1,
      (slots-acquire sock sock ip d.pool i named e).1,
      live,
      v.same_count,
    );
  }
    where
      live : same sock minus_one ≡ 0
      live = ground (arith, ==ℤ_iff sock minus_one)

-- Whether a new connection is served or refused, because of the limit, a full registry or pool, or a
-- lack of memory for its task, the registry lists the sockets of the slots in use afterwards as it
-- did before.
pub accept-InStep :
    (sock : ℤ) (ip : ℕ) (heap : Bool) (accounts : List ℤ) (d : Device)
    → sock ≢ minus_one
    → InStep accounts d.pool
    → InStep (accept sock ip heap accounts d).0 (accept sock ip heap accounts d).1.pool
unfolding accept close
accept-InStep sock ip heap accounts d n v =
    elim (Bool-cases
      (leb tcp_client_max (count d.pool) && (length (shutdown_peer ip d.pool) == 0))) [
        | inl full ↦ rw (accept, full) v
        | inr room ↦ elim (Bool-cases (add_account sock accounts).1) [
          | inr e ↦ rw (accept, room, e) v
          | inl added ↦ elim (Option-cases (acquire sock ip d.pool).1) [
            | inl e ↦ rw (accept, room, added, e) (no_slot-InStep sock ip accounts d n v added e)
            | inr (i, e) ↦ elim (Bool-cases heap) [
              | inl h ↦
                  rw (accept, room, added, e, h) (served-InStep sock ip accounts d n v added i e)
              | inr h ↦
                  rw (accept, room, added, e, h)
                    (close-InStep sock _ _ n (served-InStep sock ip accounts d n v added i e))
            ]
          ]
        ]
      ]

-- What the TCP server does to both: a connection that is accepted, and one that ends.
pub data Change : Type 0 where
  accepted : ℤ → ℕ → Bool → Change
  closed : ℤ → Change

-- The descriptor is one.
abbrev pub IsNamed : Change → Type 0
IsNamed (accepted sock ip heap) = sock ≢ minus_one
IsNamed (closed sock) = sock ≢ minus_one

unfoldable pub changed : Change → List ℤ → Device → List ℤ × Device
changed (accepted sock ip heap) accounts d =
    let (accounts', d', served) = accept sock ip heap accounts d in (accounts', d')
changed (closed sock) accounts d = close sock accounts d

unfoldable pub changed_all : List Change → List ℤ → Device → List ℤ × Device
changed_all [] accounts d = (accounts, d)
changed_all (e ∷ es) accounts d =
    let (accounts', d') = changed e accounts d in changed_all es accounts' d'

changed-InStep :
    (e : Change) (accounts : List ℤ) (d : Device)
    → IsNamed e
    → InStep accounts d.pool
    → InStep (changed e accounts d).0 (changed e accounts d).1.pool
unfolding changed
changed-InStep (accepted sock ip heap) accounts d n v = accept-InStep sock ip heap accounts d n v
changed-InStep (closed sock) accounts d n v = close-InStep sock accounts d n v

-- However connections with a descriptor other than -1 come and go, the registry lists exactly the
-- sockets of the slots in use, each as often as there are slots for it, if it did before.
pub changed_all-InStep :
    (es : List Change) (accounts : List ℤ) (d : Device)
    → Every IsNamed es
    → InStep accounts d.pool
    → InStep (changed_all es accounts d).0 (changed_all es accounts d).1.pool
unfolding changed_all
changed_all-InStep [] accounts d n v = v
changed_all-InStep (e ∷ es) accounts d n v =
    changed_all-InStep es _ _ n.1 (changed-InStep e accounts d n.0 v)
