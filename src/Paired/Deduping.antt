-- ===== src/Paired/Deduping.antt =====
-- src/security/paired_list.c: `dedupe_accounts_locked` keeps the first entry of each account.
use mathlib.Core.Path.{subst}
use cything.Prelude.{
  lt→ltb, ℕ, zero, suc, ◌+◌, ◌-◌, ◌≤◌, ◌<◌, ◌≡◌, refl, sym, ap, ◌∙◌, inl, inr, true, List, [], ◌∷◌,
  ◌++◌, arith, length, length-append, length-take, get_or, ltb, Bool-cases, append_assoc,
  if◌then◌else◌,
}
use cything.Prelude.Arrays.{remove_at, take-erase_at, length-erase_at, get_or-take}
use cything.Prelude.Bytes.{Bytes}
use cything.Paired.{
  Entry, Blob, same_sub, zero_entry, paired_list_max, live, erase_row, dedupe_row, dedupe_from,
  dedupe,
}
use cything.Paired.Subs.{NoSub, DistinctSubs, same_sub_comm, same_sub_congr}

-- The entries of other accounts than `sub`.
unfoldable pub without : Bytes → List Entry → List Entry
without sub [] = []
without sub (x ∷ xs) =
    let rest = without sub xs in if same_sub x.user_sub sub then rest else x ∷ rest

-- The first entry of each account, in their order.
unfoldable pub firsts : List Entry → List Entry
firsts [] = []
firsts (e ∷ es) = e ∷ without e.user_sub (firsts es)

without-NoSub : (sub : Bytes) (es : List Entry) → NoSub sub (without sub es)
unfolding without
without-NoSub sub [] = tt
without-NoSub sub (x ∷ xs) = ground (arith, without-NoSub sub xs)

NoSub-without : (a b : Bytes) (es : List Entry) → NoSub a es → NoSub a (without b es)
unfolding without
NoSub-without a b [] h = tt
NoSub-without a b (x ∷ xs) h = ground (arith, NoSub-without a b xs h.1)

DistinctSubs-without :
    (sub : Bytes) (es : List Entry) → DistinctSubs es → DistinctSubs (without sub es)
unfolding without
DistinctSubs-without sub [] h = tt
DistinctSubs-without sub (x ∷ xs) h =
    ground (arith, DistinctSubs-without sub xs h.1, NoSub-without x.user_sub sub xs h.0)

firsts-DistinctSubs : (es : List Entry) → DistinctSubs (firsts es)
unfolding firsts
firsts-DistinctSubs [] = tt
firsts-DistinctSubs (e ∷ es) = (
  without-NoSub e.user_sub (firsts es),
  DistinctSubs-without e.user_sub (firsts es) (firsts-DistinctSubs es),
)

without_comm : (a b : Bytes) (es : List Entry) → without a (without b es) ≡ without b (without a es)
unfolding without
without_comm a b [] = refl
without_comm a b (x ∷ xs) = ground (arith, without_comm a b xs)

without_absorb :
    (a b : Bytes) (es : List Entry) → same_sub a b ≡ true → without b (without a es) ≡ without b es
unfolding without
without_absorb a b [] h = refl
without_absorb a b (x ∷ xs) h = ground (
  arith,
  without_absorb a b xs h,
  same_sub_congr a b x.user_sub h,
  same_sub_comm x.user_sub a,
  same_sub_comm x.user_sub b,
)

firsts-without : (sub : Bytes) (es : List Entry) → firsts (without sub es) ≡ without sub (firsts es)
unfolding firsts without
firsts-without sub [] = refl
firsts-without sub (x ∷ xs) = elim (Bool-cases (same_sub x.user_sub sub)) [
  | inl e ↦ rw e (firsts-without sub xs ∙ sym (without_absorb x.user_sub sub (firsts xs) e))
  | inr e ↦ rw e (
      ap (λ t. x ∷ without x.user_sub t) (firsts-without sub xs)
      ∙ ap (λ t. x ∷ t) (without_comm x.user_sub sub (firsts xs)))
]

length-without : (sub : Bytes) (es : List Entry) → length (without sub es) ≤ length es
unfolding without
length-without sub [] = omega arith
length-without sub (x ∷ xs) = ground (arith, length-without sub xs)

-- The array has its size, and no more of it is in use than there is.
record IsShaped (b : Blob) : Type 0 where
  size : length b.entries ≡ paired_list_max
  within : b.count ≤ paired_list_max

length-live_shaped : (b : Blob) → IsShaped b → length (live b) ≡ b.count
length-live_shaped b v = omega (arith, length-take b.count b.entries, v.size, v.within)

erase_row-IsShaped : (j : ℕ) (b : Blob) → IsShaped b → IsShaped (erase_row j b)
erase_row-IsShaped j b v = record {
  size = length-erase_at zero_entry b.entries b.count j ∙ v.size;
  within = omega (arith, v.within);
}

live-erase_shaped :
    (j : ℕ) (b : Blob) → IsShaped b → j < b.count → live (erase_row j b) ≡ remove_at j (live b)
live-erase_shaped j b v h =
    take-erase_at zero_entry b.entries b.count j h (omega (arith, v.size, v.within))

remove_at-append :
    (front : List Entry) (x : Entry) (rest : List Entry)
    → remove_at (length front) (front ++ (x ∷ rest)) ≡ front ++ rest
remove_at-append [] x rest = refl
remove_at-append (y ∷ front) x rest = ap (λ t. y ∷ t) (remove_at-append front x rest)

get_or-append :
    (front : List Entry) (x : Entry) (rest : List Entry)
    → get_or (front ++ (x ∷ rest)) (length front) zero_entry ≡ x
get_or-append [] x rest = refl
get_or-append (y ∷ front) x rest = get_or-append front x rest

get_or-append_left :
    (front rest : List Entry) (i : ℕ)
    → i < length front
    → get_or (front ++ rest) i zero_entry ≡ get_or front i zero_entry
get_or-append_left [] rest i h = absurd (omega arith)
get_or-append_left (y ∷ front) rest zero h = refl
get_or-append_left (y ∷ front) rest (suc i) h = get_or-append_left front rest i (omega arith)

-- Rows are read from the part in use.
row_live :
    (b : Blob) (es : List Entry) (j : ℕ)
    → IsShaped b
    → live b ≡ es
    → j < length es
    → get_or b.entries j zero_entry ≡ get_or es j zero_entry
row_live b es j v e h =
    sym (
      get_or-take b.count j zero_entry b.entries
        (omega (arith, h, length-live_shaped b v, ap length e)))
    ∙ ap (λ t. get_or t j zero_entry) e

-- The inner loop drops the entries of row `i`'s account from the rows behind those it has seen.
dedupe_row_lem :
    (rest seen : List Entry) (e : Entry) (n i j : ℕ) (b : Blob)
    → IsShaped b
    → live b ≡ seen ++ rest
    → n ≡ length rest
    → j ≡ length seen
    → i < length seen
    → get_or seen i zero_entry ≡ e
    → IsShaped (dedupe_row n i j b) × (live (dedupe_row n i j b) ≡ seen ++ without e.user_sub rest)
unfolding dedupe_row without
dedupe_row_lem [] seen e zero i j b v l hn hj hi he = (v, l)
dedupe_row_lem [] seen e (suc n) i j b v l hn hj hi he = absurd (omega arith)
dedupe_row_lem (x ∷ rest) seen e zero i j b v l hn hj hi he = absurd (omega arith)
dedupe_row_lem (x ∷ rest) seen e (suc n) i j b v l hn hj hi he =
    elim (Bool-cases (same_sub x.user_sub e.user_sub)) [
      | inl s ↦
          let erased : live (erase_row j b) ≡ seen ++ rest =
            live-erase_shaped j b v (omega (arith, count))
            ∙ ap (remove_at j) l
            ∙ ap (λ t. remove_at t (seen ++ (x ∷ rest))) hj
            ∙ remove_at-append seen x rest in
          rw (dedupe_row, row_j, row_i, s)
            (dedupe_row_lem rest seen e n i j (erase_row j b) (erase_row-IsShaped j b v) erased
              (omega arith) hj hi he)
      | inr s ↦
          let longer : length (seen ++ (x ∷ [])) ≡ length seen + 1 = length-append seen (x ∷ []) in
          let q =
            dedupe_row_lem rest (seen ++ (x ∷ [])) e n i (j + 1) b v
              (l ∙ sym (append_assoc seen (x ∷ []) rest)) (omega arith) (omega (arith, longer, hj))
              (omega (arith, longer, hi)) (get_or-append_left seen (x ∷ []) i hi ∙ he) in
          rw (dedupe_row, row_j, row_i, s)
            (q.0, q.1 ∙ append_assoc seen (x ∷ []) (without e.user_sub rest))
    ]
  where
    whole : length (seen ++ (x ∷ rest)) ≡ length seen + suc (length rest)
    whole = length-append seen (x ∷ rest)

    count : b.count ≡ j + suc (length rest)
    count = omega (arith, whole, ap length l, length-live_shaped b v, hj)

    row_j : get_or b.entries j zero_entry ≡ x
    row_j =
        row_live b (seen ++ (x ∷ rest)) j v l (omega (arith, whole, hj))
        ∙ ap (λ t. get_or (seen ++ (x ∷ rest)) t zero_entry) hj
        ∙ get_or-append seen x rest

    row_i : get_or b.entries i zero_entry ≡ e
    row_i =
        row_live b (seen ++ (x ∷ rest)) i v l (omega (arith, whole, hi))
        ∙ get_or-append_left seen (x ∷ rest) i hi
        ∙ he

-- The outer loop keeps the first entry of each account among the rows behind those it has seen.
dedupe_from_lem :
    (n : ℕ) (rest seen : List Entry) (i : ℕ) (b : Blob)
    → IsShaped b
    → live b ≡ seen ++ rest
    → length rest ≤ n
    → i ≡ length seen
    → live (dedupe_from n i b) ≡ seen ++ firsts rest
unfolding dedupe_from firsts
dedupe_from_lem zero [] seen i b v l hn hi = l
dedupe_from_lem zero (x ∷ rest) seen i b v l hn hi = absurd (omega arith)
dedupe_from_lem (suc n) [] seen i b v l hn hi =
    let none_left : b.count ≡ i =
      omega (arith, hi, ap length l, length-live_shaped b v, length-append seen []) in
    ground (arith, l, none_left)
dedupe_from_lem (suc n) (x ∷ rest) seen i b v l hn hi =
    let count : b.count ≡ i + suc (length rest) =
      omega (arith, hi, ap length l, length-live_shaped b v, length-append seen (x ∷ rest)) in
    let longer : length (seen ++ (x ∷ [])) ≡ length seen + 1 = length-append seen (x ∷ []) in
    let here : get_or (seen ++ (x ∷ [])) i zero_entry ≡ x =
      ap (λ t. get_or (seen ++ (x ∷ [])) t zero_entry) hi ∙ get_or-append seen x [] in
    let inner =
      dedupe_row_lem rest (seen ++ (x ∷ [])) x (b.count - (i + 1)) i (i + 1) b v
        (l ∙ sym (append_assoc seen (x ∷ []) rest)) (omega (arith, count))
        (omega (arith, longer, hi)) (omega (arith, longer, hi)) here in
    let outer =
      dedupe_from_lem n (without x.user_sub rest) (seen ++ (x ∷ [])) (i + 1)
        (dedupe_row (b.count - (i + 1)) i (i + 1) b) inner.0 inner.1
        (omega (arith, hn, length-without x.user_sub rest)) (omega (arith, longer, hi)) in
    let more : ltb i b.count ≡ true = lt→ltb i b.count (omega (arith, count)) in
    rw (dedupe_from, more)
      (outer
        ∙ append_assoc seen (x ∷ []) (firsts (without x.user_sub rest))
        ∙ ap (λ t. seen ++ (x ∷ t)) (firsts-without x.user_sub rest))

-- Loading collapses a list of the right shape to the first entry of each account, in their order, and
-- no account has two entries after it.
pub dedupe_lem :
    (b : Blob)
    → length b.entries ≡ paired_list_max
    → b.count ≤ paired_list_max
    → (live (dedupe b).0 ≡ firsts (live b)) × DistinctSubs (live (dedupe b).0)
unfolding dedupe
dedupe_lem b size within =
    let v : IsShaped b = record { size = size; within = within } in
    let same =
      dedupe_from_lem b.count (live b) [] 0 b v refl (omega (arith, length-live_shaped b v)) refl in
    (same, subst DistinctSubs (sym same) (firsts-DistinctSubs (live b)))
