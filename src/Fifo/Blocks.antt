-- ===== src/Fifo/Blocks.antt =====
-- Taking, dropping and overwriting part of a block of bytes, for src/common/response_fifo.c.
use cything.Prelude.{
  ℕ, zero, suc, ◌+◌, ◌-◌, ◌≤◌, ◌≡◌, refl, sym, ap, ◌∙◌, List, [], ◌∷◌, ◌++◌, length, take, drop,
  replicate, arith, length-append, length-take, length-drop, append_assoc, length-replicate,
}
use cything.Prelude.Bytes.{Bytes}
use cything.Fifo.{overwrite, cleared}

pub take-exact {ℓ} : {A : Type ℓ} (n : ℕ) (xs ys : List A) → n ≡ length xs → take n (xs ++ ys) ≡ xs
take-exact zero [] ys h = refl
take-exact zero (x ∷ xs) ys h = absurd (omega arith)
take-exact (suc n) [] ys h = absurd (omega arith)
take-exact (suc n) (x ∷ xs) ys h = ap (λ t. x ∷ t) (take-exact n xs ys (omega arith))

pub drop-exact {ℓ} : {A : Type ℓ} (n : ℕ) (xs ys : List A) → n ≡ length xs → drop n (xs ++ ys) ≡ ys
drop-exact zero [] ys h = refl
drop-exact zero (x ∷ xs) ys h = absurd (omega arith)
drop-exact (suc n) [] ys h = absurd (omega arith)
drop-exact (suc n) (x ∷ xs) ys h = drop-exact n xs ys (omega arith)

pub drop-nil {ℓ} : (A : Type ℓ) (n : ℕ) → drop {A = A} n [] ≡ []
drop-nil A zero = refl
drop-nil A (suc n) = refl

pub drop-drop {ℓ} : {A : Type ℓ} (m n : ℕ) (xs : List A) → drop m (drop n xs) ≡ drop (n + m) xs
drop-drop m zero xs = ap (λ t. drop t xs) {x = m} {y = 0 + m} (omega arith)
drop-drop {A} m (suc n) [] = drop-nil A m ∙ sym (drop-nil A (suc n + m))
drop-drop m (suc n) (x ∷ xs) =
    drop-drop m n xs ∙ ap (λ t. drop t (x ∷ xs)) {x = suc (n + m)} {y = suc n + m} (omega arith)

pub take-nil {ℓ} : (A : Type ℓ) (n : ℕ) → take {A = A} n [] ≡ []
take-nil A zero = refl
take-nil A (suc n) = refl

pub take-add {ℓ} :
    {A : Type ℓ} (n m : ℕ) (xs : List A) → take n xs ++ take m (drop n xs) ≡ take (n + m) xs
take-add zero m xs = ap (λ t. take t xs) {x = m} {y = 0 + m} (omega arith)
take-add {A} (suc n) m [] = take-nil A m ∙ sym (take-nil A (suc n + m))
take-add (suc n) m (x ∷ xs) =
    ap (λ t. x ∷ t) (take-add n m xs)
    ∙ ap (λ t. take t (x ∷ xs)) {x = suc (n + m)} {y = suc n + m} (omega arith)

pub drop-cleared : (n m : ℕ) → drop n (cleared m) ≡ cleared (m - n)
unfolding cleared
drop-cleared zero m = ap (λ t. replicate t 0) {x = m} {y = m - 0} (omega arith)
drop-cleared (suc n) zero = ap (λ t. replicate t 0) {x = 0} {y = 0 - suc n} (omega arith)
drop-cleared (suc n) (suc m) =
    drop-cleared n m ∙ ap (λ t. replicate t 0) {x = m - n} {y = suc m - suc n} (omega arith)

pub cleared-append : (n m : ℕ) → cleared n ++ cleared m ≡ cleared (n + m)
unfolding cleared
cleared-append zero m = ap (λ t. replicate t 0) {x = m} {y = 0 + m} (omega arith)
cleared-append (suc n) m =
    ap (λ t. 0 ∷ t) (cleared-append n m)
    ∙ ap (λ t. replicate t 0) {x = suc (n + m)} {y = suc n + m} (omega arith)

pub length-cleared : (n : ℕ) → length (cleared n) ≡ n
unfolding cleared
length-cleared n = length-replicate n 0

-- A block copied behind the bytes in use extends them by it.
pub contents-overwrite :
    (buf bytes : Bytes) (n : ℕ)
    → n + length bytes ≤ length buf
    → take (n + length bytes) (overwrite buf n bytes) ≡ take n buf ++ bytes
contents-overwrite buf bytes n h =
    ap (take (n + length bytes))
      (sym (append_assoc (take n buf) bytes (drop (n + length bytes) buf)))
    ∙ take-exact (n + length bytes) (take n buf ++ bytes) (drop (n + length bytes) buf)
        (omega (arith, length-append (take n buf) bytes, length-take n buf))

pub rest-overwrite :
    (buf bytes : Bytes) (n : ℕ)
    → n + length bytes ≤ length buf
    → drop (n + length bytes) (overwrite buf n bytes) ≡ drop (n + length bytes) buf
rest-overwrite buf bytes n h =
    ap (drop (n + length bytes))
      (sym (append_assoc (take n buf) bytes (drop (n + length bytes) buf)))
    ∙ drop-exact (n + length bytes) (take n buf ++ bytes) (drop (n + length bytes) buf)
        (omega (arith, length-append (take n buf) bytes, length-take n buf))

pub length-overwrite :
    (buf bytes : Bytes) (n : ℕ)
    → n + length bytes ≤ length buf
    → length (overwrite buf n bytes) ≡ length buf
length-overwrite buf bytes n h = omega (
  arith,
  length-append (take n buf) (bytes ++ drop (n + length bytes) buf),
  length-append bytes (drop (n + length bytes) buf),
  length-take n buf,
  length-drop (n + length bytes) buf,
)
