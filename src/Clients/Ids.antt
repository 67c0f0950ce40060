-- ===== src/Clients/Ids.antt =====
-- The response ids of src/tcp_server/tcp_client_list.c.
use cything.Prelude.{
  ℕ, zero, suc, ◌+◌, ◌%◌, ◌≤◌, ◌<◌, ◌≡◌, ◌≢◌, refl, ap, ◌∙◌, arith, inl, inr, Bool-cases, leb,
}
use cything.Clients.{next_id}

-- The id after so many responses since boot, where it is 10.
unfoldable pub ids : ℕ → ℕ
ids zero = 10
ids (suc n) = next_id (ids n)

next_id_lem : (n : ℕ) → next_id (10 + n % 245) ≡ 10 + (n + 1) % 245
unfolding next_id
next_id_lem n = elim (Bool-cases (leb 255 (10 + n % 245 + 1))) [
  | inl e ↦ let k : 255 ≤ 10 + n % 245 + 1 = ground (arith, e) in rw e (omega (arith, k))
  | inr e ↦ let k : 10 + n % 245 + 1 < 255 = ground (arith, e) in rw e (omega (arith, k))
]

ids_lem : (n : ℕ) → ids n ≡ 10 + n % 245
unfolding ids
ids_lem zero = refl
ids_lem (suc n) =
    ap next_id (ids_lem n)
    ∙ next_id_lem n
    ∙ ap (λ t. 10 + t % 245) {x = n + 1} {y = suc n} (omega arith)

-- The ids of two responses, of which at most 243 others lie between, differ, and are between 10 and
-- 254, however many responses there were before.
pub ids-distinct :
    (n m : ℕ)
    → n < m
    → m < n + 245
    → (ids n ≢ ids m) × (10 ≤ ids n) × (ids n ≤ 254) × (10 ≤ ids m) × (ids m ≤ 254)
ids-distinct n m h k = (
  λ e. omega (arith, h, k, e, ids_lem n, ids_lem m),
  omega (arith, ids_lem n),
  omega (arith, ids_lem n),
  omega (arith, ids_lem m),
  omega (arith, ids_lem m),
)
