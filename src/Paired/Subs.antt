-- ===== src/Paired/Subs.antt =====
-- src/security/paired_list.c: accounts are compared on the first PAIRED_SUB_MAX bytes of their sub.
use cything.Prelude.{
  Bool-eq_of_imp, sym, ℕ, zero, suc, ◌+◌, ◌<◌, ◌≡◌, refl, ap, true, false, none, some, List, [],
  ◌∷◌, ◌++◌, arith, length, get_or, set, take, Option-cases,
}
use cything.Prelude.Arrays.{remove_at}
use cything.Prelude.Bytes.{Bytes, bytes_eq→eq, bytes_eq_iff}
use cything.Prelude.Every.{Every}
use cything.Paired.{Entry, same_sub, copy_field, role_for, find_row, paired_sub_max, zero_entry}

pub take-take {ℓ} : {A : Type ℓ} (n : ℕ) (xs : List A) → take n (take n xs) ≡ take n xs
take-take zero xs = refl
take-take (suc n) [] = refl
take-take (suc n) (x ∷ xs) = ap (λ t. x ∷ t) (take-take n xs)

pub same_sub→eq :
    (a b : Bytes) → same_sub a b ≡ true → take paired_sub_max a ≡ take paired_sub_max b
unfolding same_sub
same_sub→eq a b h = bytes_eq→eq (take paired_sub_max a) (take paired_sub_max b) h

pub same_sub_of_eq :
    (a b : Bytes) → take paired_sub_max a ≡ take paired_sub_max b → same_sub a b ≡ true
unfolding same_sub
same_sub_of_eq a b h = (bytes_eq_iff (take paired_sub_max a) (take paired_sub_max b)).1 h

pub same_sub_refl : (a : Bytes) → same_sub a a ≡ true
same_sub_refl a = same_sub_of_eq a a refl

-- Subs that are the same may replace one another in a comparison.
pub same_sub_congr : (a b c : Bytes) → same_sub a b ≡ true → same_sub a c ≡ same_sub b c
unfolding same_sub
same_sub_congr a b c h = rw (bytes_eq→eq (take paired_sub_max a) (take paired_sub_max b) h)

pub same_sub_comm : (a b : Bytes) → same_sub a b ≡ same_sub b a
same_sub_comm a b =
    Bool-eq_of_imp (same_sub a b) (same_sub b a) (λ h. same_sub_of_eq b a (sym (same_sub→eq a b h)))
      (λ h. same_sub_of_eq a b (sym (same_sub→eq b a h)))

-- The copy that an entry stores is the same sub.
pub same_sub-copy_field : (a : Bytes) → same_sub (copy_field (paired_sub_max + 1) a) a ≡ true
unfolding copy_field
same_sub-copy_field a = same_sub_of_eq (take 40 a) a (take-take 40 a)

pub role_for_congr : (owner a b : Bytes) → same_sub a b ≡ true → role_for owner a ≡ role_for owner b
unfolding role_for
role_for_congr owner a b h = rw (same_sub_congr a b owner h)

-- No entry of the list is of this account.
abbrev pub NoSub : Bytes → List Entry → Type 0
NoSub sub es = Every (λ e. same_sub e.user_sub sub ≡ false) es

-- One entry for each account.
abbrev pub DistinctSubs : List Entry → Type 0
DistinctSubs [] = Unit {0}
DistinctSubs (e ∷ es) = NoSub e.user_sub es × DistinctSubs es

pub NoSub-congr : (a b : Bytes) (es : List Entry) → same_sub a b ≡ true → NoSub a es → NoSub b es
NoSub-congr a b [] h k = tt
NoSub-congr a b (e ∷ es) h k = (
  rw (same_sub_comm e.user_sub b, ← same_sub_congr a b e.user_sub h, same_sub_comm a e.user_sub)
      k.0,
  NoSub-congr a b es h k.1,
)

pub find_row-none : (sub : Bytes) (es : List Entry) → find_row sub es ≡ none → NoSub sub es
unfolding find_row
find_row-none sub [] h = tt
find_row-none sub (e ∷ es) h = ground (arith, find_row-none sub es, Option-cases (find_row sub es))

pub find_row-some :
    (sub : Bytes) (es : List Entry) (i : ℕ)
    → find_row sub es ≡ some i
    → (i < length es) × (same_sub (get_or es i zero_entry).user_sub sub ≡ true)
unfolding find_row
find_row-some sub [] i h = cc
find_row-some sub (e ∷ es) zero h = ground (arith, Option-cases (find_row sub es))
find_row-some sub (e ∷ es) (suc i) h =
    ground (arith, find_row-some sub es i, Option-cases (find_row sub es))

pub find_row_absent : (sub : Bytes) (es : List Entry) → NoSub sub es → find_row sub es ≡ none
unfolding find_row
find_row_absent sub [] h = refl
find_row_absent sub (e ∷ es) h = ground (arith, find_row_absent sub es h.1)

NoSub-append :
    (sub : Bytes) (es : List Entry) (e : Entry)
    → NoSub sub es
    → same_sub e.user_sub sub ≡ false
    → NoSub sub (es ++ (e ∷ []))
NoSub-append sub [] e h k = (k, tt)
NoSub-append sub (x ∷ es) e h k = (h.0, NoSub-append sub es e h.1 k)

pub append-DistinctSubs :
    (es : List Entry) (e : Entry)
    → DistinctSubs es
    → NoSub e.user_sub es
    → DistinctSubs (es ++ (e ∷ []))
append-DistinctSubs [] e h k = (tt, tt)
append-DistinctSubs (x ∷ es) e h k = (
  NoSub-append x.user_sub es e h.0 (rw (same_sub_comm e.user_sub x.user_sub) k.0),
  append-DistinctSubs es e h.1 k.1,
)

NoSub-set :
    (sub : Bytes) (es : List Entry) (i : ℕ) (e : Entry)
    → e.user_sub ≡ (get_or es i zero_entry).user_sub
    → NoSub sub es
    → NoSub sub (set es i e)
NoSub-set sub [] i e q h = tt
NoSub-set sub (x ∷ es) zero e q h = (rw q h.0, h.1)
NoSub-set sub (x ∷ es) (suc i) e q h = (h.0, NoSub-set sub es i e q h.1)

-- Rewriting an entry of the same account keeps the accounts distinct.
pub set-DistinctSubs :
    (es : List Entry) (i : ℕ) (e : Entry)
    → e.user_sub ≡ (get_or es i zero_entry).user_sub
    → DistinctSubs es
    → DistinctSubs (set es i e)
set-DistinctSubs [] i e q h = tt
set-DistinctSubs (x ∷ es) zero e q h = (rw q h.0, h.1)
set-DistinctSubs (x ∷ es) (suc i) e q h =
    (NoSub-set x.user_sub es i e q h.0, set-DistinctSubs es i e q h.1)

NoSub-remove_at :
    (sub : Bytes) (i : ℕ) (es : List Entry) → NoSub sub es → NoSub sub (remove_at i es)
NoSub-remove_at sub i [] h = tt
NoSub-remove_at sub zero (x ∷ es) h = h.1
NoSub-remove_at sub (suc i) (x ∷ es) h = (h.0, NoSub-remove_at sub i es h.1)

pub remove_at-DistinctSubs :
    (i : ℕ) (es : List Entry) → DistinctSubs es → DistinctSubs (remove_at i es)
remove_at-DistinctSubs i [] h = tt
remove_at-DistinctSubs zero (x ∷ es) h = h.1
remove_at-DistinctSubs (suc i) (x ∷ es) h =
    (NoSub-remove_at x.user_sub i es h.0, remove_at-DistinctSubs i es h.1)

-- A row that is rewritten for the same account is found where it was.
pub find_row-set :
    (sub : Bytes) (es : List Entry) (i : ℕ) (e : Entry)
    → e.user_sub ≡ (get_or es i zero_entry).user_sub
    → find_row sub es ≡ some i
    → find_row sub (set es i e) ≡ some i
unfolding find_row
find_row-set sub [] i e q h = h
find_row-set sub (x ∷ es) zero e q h = rw (q, (find_row-some sub (x ∷ es) zero h).1)
find_row-set sub (x ∷ es) (suc i) e q h =
    ground (arith, find_row-set sub es i e q, Option-cases (find_row sub es))

-- A new account is found behind the others.
pub find_row-append :
    (sub : Bytes) (es : List Entry) (e : Entry)
    → NoSub sub es
    → same_sub e.user_sub sub ≡ true
    → find_row sub (es ++ (e ∷ [])) ≡ some (length es)
unfolding find_row
find_row-append sub [] e h k = rw k
find_row-append sub (x ∷ es) e h k = rw (h.0, find_row-append sub es e h.1 k)
