-- ===== src/Prelude/Arrays.antt =====
-- C arrays as lists: the loop that closes the gap an erased element leaves, and what it computes.
use Prim.Native.Nat.{ℕ, zero, suc, ◌+◌, ◌-◌, ◌≤◌, ◌<◌}
use mathlib.Core.List.{List, [], ◌∷◌, ◌++◌}
use mathlib.Core.Path.{◌≡◌, refl, ap, ◌∙◌}
use native.Mathlib.Omega.{arith}
use cything.Prelude.Lists.{length, get_or, get_elem?, set, take, drop, length-set}

module _ {ℓ} {A : Type ℓ} where
  -- The list without its `i`-th element.
  abbrev pub remove_at : ℕ → List A → List A
  remove_at i [] = []
  remove_at zero (x ∷ xs) = xs
  remove_at (suc i) (x ∷ xs) = x ∷ remove_at i xs

  pub length-remove_at :
      (i : ℕ) (xs : List A) → i < length xs → length (remove_at i xs) + 1 ≡ length xs
  length-remove_at i [] h = absurd (omega arith)
  length-remove_at zero (x ∷ xs) h = omega arith
  length-remove_at (suc i) (x ∷ xs) h = omega (arith, length-remove_at i xs)

  -- What stands at `j` afterwards stood at `j`, or behind the gap at `j + 1`.
  pub get_elem?-remove_at_lt :
      (i j : ℕ) (xs : List A) → j < i → get_elem? (remove_at i xs) j ≡ get_elem? xs j
  get_elem?-remove_at_lt i j [] h = refl
  get_elem?-remove_at_lt zero j (x ∷ xs) h = absurd (omega arith)
  get_elem?-remove_at_lt (suc i) zero (x ∷ xs) h = refl
  get_elem?-remove_at_lt (suc i) (suc j) (x ∷ xs) h = get_elem?-remove_at_lt i j xs (omega arith)

  pub get_elem?-remove_at_ge :
      (i j : ℕ) (xs : List A) → i ≤ j → get_elem? (remove_at i xs) j ≡ get_elem? xs (suc j)
  get_elem?-remove_at_ge i j [] h = refl
  get_elem?-remove_at_ge zero j (x ∷ xs) h = refl
  get_elem?-remove_at_ge (suc i) zero (x ∷ xs) h = absurd (omega arith)
  get_elem?-remove_at_ge (suc i) (suc j) (x ∷ xs) h = get_elem?-remove_at_ge i j xs (omega arith)

  pub take-set_ge : (m j : ℕ) (v : A) (a : List A) → m ≤ j → take m (set a j v) ≡ take m a
  take-set_ge zero j v a h = refl
  take-set_ge (suc m) j v [] h = refl
  take-set_ge (suc m) zero v (x ∷ a) h = absurd (omega arith)
  take-set_ge (suc m) (suc j) v (x ∷ a) h = ap (λ t. x ∷ t) (take-set_ge m j v a (omega arith))

  pub drop-set_self :
      (j : ℕ) (v : A) (a : List A) → j < length a → drop j (set a j v) ≡ v ∷ drop (suc j) a
  drop-set_self j v [] h = absurd (omega arith)
  drop-set_self zero v (x ∷ a) h = refl
  drop-set_self (suc j) v (x ∷ a) h = drop-set_self j v a (omega arith)

  pub drop-set_lt : (m i : ℕ) (v : A) (a : List A) → i < m → drop m (set a i v) ≡ drop m a
  drop-set_lt m i v [] h = refl
  drop-set_lt zero i v (x ∷ a) h = absurd (omega arith)
  drop-set_lt (suc m) zero v (x ∷ a) h = refl
  drop-set_lt (suc m) (suc i) v (x ∷ a) h = drop-set_lt m i v a (omega arith)

  -- Writing the first slot behind those in use appends to them.
  pub take-set_end :
      (c : ℕ) (v : A) (a : List A) → c < length a → take (suc c) (set a c v) ≡ take c a ++ (v ∷ [])
  take-set_end c v [] h = absurd (omega arith)
  take-set_end zero v (x ∷ a) h = refl
  take-set_end (suc c) v (x ∷ a) h = ap (λ t. x ∷ t) (take-set_end c v a (omega arith))

  pub take-set : (c j : ℕ) (v : A) (a : List A) → take c (set a j v) ≡ set (take c a) j v
  take-set zero j v a = refl
  take-set (suc c) j v [] = refl
  take-set (suc c) zero v (x ∷ a) = refl
  take-set (suc c) (suc j) v (x ∷ a) = ap (λ t. x ∷ t) (take-set c j v a)

  pub drop-suc : (c : ℕ) (x : A) (r a : List A) → drop c a ≡ x ∷ r → drop (suc c) a ≡ r
  drop-suc zero x r [] h = cc
  drop-suc zero x r (y ∷ a) h = cc
  drop-suc (suc c) x r [] h = cc
  drop-suc (suc c) x r (y ∷ a) h = drop-suc c x r a h

  pub get_or-drop : (c : ℕ) (x d : A) (r a : List A) → drop c a ≡ x ∷ r → get_or a c d ≡ x
  get_or-drop zero x d r [] h = cc
  get_or-drop zero x d r (y ∷ a) h = cc
  get_or-drop (suc c) x d r [] h = cc
  get_or-drop (suc c) x d r (y ∷ a) h = get_or-drop c x d r a h

  pub get_or-take : (c i : ℕ) (d : A) (a : List A) → i < c → get_or (take c a) i d ≡ get_or a i d
  get_or-take zero i d a h = absurd (omega arith)
  get_or-take (suc c) i d [] h = refl
  get_or-take (suc c) zero d (x ∷ a) h = refl
  get_or-take (suc c) (suc i) d (x ∷ a) h = get_or-take c i d a (omega arith)

  -- Writing back what a slot held undoes a write to it.
  pub set-set_back : (a : List A) (i : ℕ) (v d : A) → set (set a i v) i (get_or a i d) ≡ a
  set-set_back [] i v d = refl
  set-set_back (x ∷ a) zero v d = refl
  set-set_back (x ∷ a) (suc i) v d = ap (λ t. x ∷ t) (set-set_back a i v d)

module _ {ℓ} {A : Type ℓ} (d : A) where
  -- `for (k = i; k < i + n; k++) a[k] = a[k + 1];`
  unfoldable pub shift_down : List A → ℕ → ℕ → List A
  shift_down a i zero = a
  shift_down a i (suc n) = shift_down (set a i (get_or a (suc i) d)) (suc i) n

  pub length-shift_down : (a : List A) (i n : ℕ) → length (shift_down a i n) ≡ length a
  unfolding shift_down
  length-shift_down a i zero = refl
  length-shift_down a i (suc n) =
      length-shift_down (set a i (get_or a (suc i) d)) (suc i) n
      ∙ length-set a i (get_or a (suc i) d)

  shift_down-cons :
      (x : A) (xs : List A) (i n : ℕ) → shift_down (x ∷ xs) (suc i) n ≡ x ∷ shift_down xs i n
  unfolding shift_down
  shift_down-cons x xs i zero = refl
  shift_down-cons x xs i (suc n) = shift_down-cons x (set xs i (get_or xs (suc i) d)) (suc i) n

  take-shift_down-zero :
      (x : A) (xs : List A) (n : ℕ)
      → n ≤ length xs
      → take n (shift_down (x ∷ xs) zero n) ≡ take n xs
  unfolding shift_down
  take-shift_down-zero x xs zero h = refl
  take-shift_down-zero x [] (suc n) h = absurd (omega arith)
  take-shift_down-zero x (y ∷ xs) (suc n) h =
      ap (take (suc n)) (shift_down-cons y (y ∷ xs) zero n)
      ∙ ap (λ t. y ∷ t) (take-shift_down-zero y xs n (omega arith))

  -- The loop leaves the first `i + n` elements as they are once the `i`-th is erased.
  pub take-shift_down :
      (a : List A) (i n m : ℕ)
      → m ≡ i + n
      → m < length a
      → take m (shift_down a i n) ≡ remove_at i (take (suc m) a)
  take-shift_down [] i n m e h = absurd (omega arith)
  take-shift_down (x ∷ xs) zero n m e h =
      ap (λ k. take m (shift_down (x ∷ xs) zero k)) {x = n} {y = m} (omega arith)
      ∙ take-shift_down-zero x xs m (omega arith)
  take-shift_down (x ∷ xs) (suc i) n zero e h = absurd (omega arith)
  take-shift_down (x ∷ xs) (suc i) n (suc m) e h =
      ap (take (suc m)) (shift_down-cons x xs i n)
      ∙ ap (λ t. x ∷ t) (take-shift_down xs i n m (omega arith) (omega arith))

  -- Behind the gap's end nothing moves.
  pub drop-shift_down : (a : List A) (i n m : ℕ) → i + n ≤ m → drop m (shift_down a i n) ≡ drop m a
  unfolding shift_down
  drop-shift_down a i zero m h = refl
  drop-shift_down a i (suc n) m h =
      drop-shift_down (set a i (get_or a (suc i) d)) (suc i) n m (omega arith)
      ∙ drop-set_lt m i (get_or a (suc i) d) a (omega arith)

  -- Erasing slot `i` of the first `c`: close the gap, and wipe the last slot with `d`.
  unfoldable pub erase_at : List A → ℕ → ℕ → List A
  erase_at a c i = set (shift_down a i (c - 1 - i)) (c - 1) d

  pub length-erase_at : (a : List A) (c i : ℕ) → length (erase_at a c i) ≡ length a
  unfolding erase_at
  length-erase_at a c i =
      length-set (shift_down a i (c - 1 - i)) (c - 1) d ∙ length-shift_down a i (c - 1 - i)

  -- The elements in use lose the erased one and keep their order.
  pub take-erase_at :
      (a : List A) (c i : ℕ)
      → i < c
      → c ≤ length a
      → take (c - 1) (erase_at a c i) ≡ remove_at i (take c a)
  unfolding erase_at
  take-erase_at a c i h k =
      take-set_ge (c - 1) (c - 1) d (shift_down a i (c - 1 - i)) (omega arith)
      ∙ take-shift_down a i (c - 1 - i) (c - 1) (omega arith) (omega arith)
      ∙ ap (λ t. remove_at i (take t a)) {x = suc (c - 1)} {y = c} (omega arith)

  -- The slots behind them gain one wiped slot.
  pub drop-erase_at :
      (a : List A) (c i : ℕ) → i < c → c ≤ length a → drop (c - 1) (erase_at a c i) ≡ d ∷ drop c a
  unfolding erase_at
  drop-erase_at a c i h k =
      drop-set_self (c - 1) d (shift_down a i (c - 1 - i))
        (omega (arith, length-shift_down a i (c - 1 - i)))
      ∙ ap (λ t. d ∷ t)
          (drop-shift_down a i (c - 1 - i) (suc (c - 1)) (omega arith)
            ∙ ap (λ t. drop t a) {x = suc (c - 1)} {y = c} (omega arith))
