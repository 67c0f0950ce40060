-- ===== src/Prelude/Every.antt =====
-- A predicate on each element of a list, and what the list operations do to it.
use Prim.Native.Nat.{ℕ, zero, suc}
use Prim.Native.Nat.{◌<◌}
use native.Mathlib.Omega.{arith}
use mathlib.Core.List.{List, [], ◌∷◌, ◌++◌, map}
use mathlib.Core.Path.{◌≡◌, subst}
use mathlib.Core.Option.{some, some-injective}
use cything.Prelude.Lists.{length, get_or, get_elem?, set, replicate}
use cything.Prelude.Arrays.{remove_at}

module _ {ℓ κ} {A : Type ℓ} (P : A → Type κ) where
  abbrev pub Every : List A → Type κ
  Every [] = Unit
  Every (x ∷ xs) = P x × Every xs

  pub Every-set : (xs : List A) (i : ℕ) (v : A) → Every xs → P v → Every (set xs i v)
  Every-set [] i v h p = tt
  Every-set (x ∷ xs) zero v h p = (p, h.1)
  Every-set (x ∷ xs) (suc i) v h p = (h.0, Every-set xs i v h.1 p)

  pub Every-get_or : (xs : List A) (i : ℕ) (d : A) → Every xs → P d → P (get_or xs i d)
  Every-get_or [] i d h p = p
  Every-get_or (x ∷ xs) zero d h p = h.0
  Every-get_or (x ∷ xs) (suc i) d h p = Every-get_or xs i d h.1 p

  pub Every-get_in : (xs : List A) (i : ℕ) (d : A) → Every xs → i < length xs → P (get_or xs i d)
  Every-get_in [] i d h k = absurd (omega arith)
  Every-get_in (x ∷ xs) zero d h k = h.0
  Every-get_in (x ∷ xs) (suc i) d h k = Every-get_in xs i d h.1 (omega arith)

  pub Every-get_elem? : (xs : List A) (i : ℕ) (v : A) → Every xs → get_elem? xs i ≡ some v → P v
  Every-get_elem? [] i v h e = cc
  Every-get_elem? (x ∷ xs) zero v h e = subst P (some-injective x v e) h.0
  Every-get_elem? (x ∷ xs) (suc i) v h e = Every-get_elem? xs i v h.1 e

  pub Every-replicate : (n : ℕ) (v : A) → P v → Every (replicate n v)
  Every-replicate zero v p = tt
  Every-replicate (suc n) v p = (p, Every-replicate n v p)

  pub Every-remove_at : (i : ℕ) (xs : List A) → Every xs → Every (remove_at i xs)
  Every-remove_at i [] h = tt
  Every-remove_at zero (x ∷ xs) h = h.1
  Every-remove_at (suc i) (x ∷ xs) h = (h.0, Every-remove_at i xs h.1)

  pub Every-append : (xs ys : List A) → Every xs → Every ys → Every (xs ++ ys)
  Every-append [] ys h k = k
  Every-append (x ∷ xs) ys h k = (h.0, Every-append xs ys h.1 k)

module _ {ℓ κ} {A : Type ℓ} (P Q : A → Type κ) (f : A → A) (keep : (x : A) → P x → Q (f x)) where
  pub Every-map : (xs : List A) → Every P xs → Every Q (map f xs)
  Every-map [] h = tt
  Every-map (x ∷ xs) h = (keep x h.0, Every-map xs h.1)
