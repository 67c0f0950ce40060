-- ===== src/Mqtt/Table.antt =====
-- The table of outgoing publishes of src/aws/aws_iot_handler.c.
use cything.Prelude.{
  ℕ, zero, suc, ◌+◌, ◌<◌, ◌≤◌, ◌≡◌, ◌≢◌, refl, arith, none, some, List, [], ◌∷◌, ◌==◌,
  if◌then◌else◌, length, set, Option-cases, inl, inr, length-set,
}
use cything.Prelude.Every.{Every}
use cything.Mqtt.{
  Publish, empty_publish, max_outgoing_publishes, free_index, cleanup_at, cleanup_with_id,
  filled_slot,
}

-- A slot with the invalid id holds nothing else.
abbrev pub IsClean : Publish → Type 0
IsClean p = p.packet_id ≡ 0 → p ≡ empty_publish

-- The table's invariant.
pub record IsTable (ps : List Publish) : Type 0 where
  pub size : length ps ≡ max_outgoing_publishes
  pub clean : Every IsClean ps

-- No slot waits for this id.
abbrev pub Absent : ℕ → List Publish → Type 0
Absent id ps = Every (λ p. p.packet_id ≢ id) ps

-- How many slots wait for an acknowledgement.
unfoldable pub waiting : List Publish → ℕ
waiting [] = 0
waiting (p ∷ ps) = (if p.packet_id == 0 then 0 else 1) + waiting ps

pub waiting-le : (ps : List Publish) → waiting ps ≤ length ps
unfolding waiting
waiting-le [] = omega arith
waiting-le (p ∷ ps) = ground (arith, waiting-le ps)

pub free_index-none : (ps : List Publish) → free_index ps ≡ none → waiting ps ≡ length ps
unfolding waiting free_index
free_index-none [] e = refl
free_index-none (p ∷ ps) e = elim (Option-cases (free_index ps)) [
  | inl h ↦ ground (arith, free_index-none ps h)
  | inr (i, h) ↦ ground (arith, h)
]

pub free_index-some :
    (ps : List Publish) (i : ℕ) (v : Publish)
    → free_index ps ≡ some i
    → v.packet_id ≢ 0
    → waiting (set ps i v) ≡ waiting ps + 1
unfolding waiting free_index
free_index-some [] i v e n = cc
free_index-some (p ∷ ps) zero v e n = elim (Option-cases (free_index ps)) [
  | inl h ↦ ground (arith, h)
  | inr (j, h) ↦ ground (arith, h)
]
free_index-some (p ∷ ps) (suc i) v e n = elim (Option-cases (free_index ps)) [
  | inl h ↦ ground (arith, h)
  | inr (j, h) ↦ ground (arith, h, free_index-some ps i v)
]

-- Clearing the slot that was filled gives the table back.
pub cleanup_at-set :
    (ps : List Publish) (i : ℕ) (v : Publish)
    → free_index ps ≡ some i
    → Every IsClean ps
    → cleanup_at i (set ps i v) ≡ ps
unfolding free_index cleanup_at
cleanup_at-set [] i v e c = refl
cleanup_at-set (p ∷ ps) zero v e c = elim (Option-cases (free_index ps)) [
  | inl h ↦ ground (arith, h, c.0)
  | inr (j, h) ↦ ground (arith, h, c.0)
]
cleanup_at-set (p ∷ ps) (suc i) v e c = elim (Option-cases (free_index ps)) [
  | inl h ↦ ground (arith, h)
  | inr (j, h) ↦ ground (arith, h, cleanup_at-set ps i v)
]

pub cleanup_with_id-set :
    (ps : List Publish) (i : ℕ) (v : Publish)
    → free_index ps ≡ some i
    → Every IsClean ps
    → Absent v.packet_id ps
    → cleanup_with_id v.packet_id (set ps i v) ≡ ps
unfolding free_index cleanup_with_id
cleanup_with_id-set [] i v e c a = refl
cleanup_with_id-set (p ∷ ps) zero v e c a = elim (Option-cases (free_index ps)) [
  | inl h ↦ ground (arith, h, c.0)
  | inr (j, h) ↦ ground (arith, h, c.0)
]
cleanup_with_id-set (p ∷ ps) (suc i) v e c a = elim (Option-cases (free_index ps)) [
  | inl h ↦ ground (arith, h)
  | inr (j, h) ↦ ground (arith, h, a.0, cleanup_with_id-set ps i v)
]

pub free_index-lt : (ps : List Publish) (i : ℕ) → free_index ps ≡ some i → waiting ps < length ps
free_index-lt ps i e =
    let v = filled_slot 1 [] [] in
    omega (
      arith,
      free_index-some ps i v e (λ z. omega arith),
      waiting-le (set ps i v),
      length-set ps i v,
    )
