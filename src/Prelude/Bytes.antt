-- ===== src/Prelude/Bytes.antt =====
-- Byte strings. A C string is the list of its bytes before the NUL.
use cything.Prelude.{◌≤◌, inr, ltb→lt, inl, Bool-cases, ap, ◌-◌, leb, ◌<◌, ◌*◌}
use Prim.Native.Char.{code}
use Prim.Native.String.{String}
use Prim.Native.Nat.{◌<◌, ◌*◌, ℕ}
use mathlib.Core.List.{List, [], ◌∷◌}
use Prim.Native.Nat.{ℕ, zero, suc, ◌+◌, ◌/◌, ◌%◌}
use mathlib.Core.Option
use mathlib.Core.Option.{Option, none, some}
use cything.Prelude.Tests.{ltb, if◌then◌else◌}
use mathlib.Core.Path.{◌≡◌, refl, ◌∙◌, ap}
use mathlib.Core.Logic.{◌↔◌}
use mathlib.Core.Bool.{Bool, true, false, ◌&&◌}
use native.Mathlib.Omega.{arith}
use cything.Prelude.Tests.{◌==◌}

abbrev pub Bytes : Type 0
Bytes = List ℕ

-- The bytes of an ASCII literal.
abbrev pub codes : String → Bytes
codes String.[] = []
codes (String.◌∷◌ c s) = code c ∷ codes s

-- `memcmp` over the whole of two blocks, or `strcmp`, as an equality test.
unfoldable pub bytes_eq : Bytes → Bytes → Bool
bytes_eq [] [] = true
bytes_eq [] (y ∷ ys) = false
bytes_eq (x ∷ xs) [] = false
bytes_eq (x ∷ xs) (y ∷ ys) = x == y && bytes_eq xs ys

pub bytes_eq→eq : (a b : Bytes) → bytes_eq a b ≡ true → a ≡ b
unfolding bytes_eq
bytes_eq→eq [] [] h = refl
bytes_eq→eq [] (y ∷ ys) h = cc
bytes_eq→eq (x ∷ xs) [] h = cc
bytes_eq→eq (x ∷ xs) (y ∷ ys) h = ground (arith, bytes_eq→eq xs ys)

pub bytes_eq_refl : (a : Bytes) → bytes_eq a a ≡ true
unfolding bytes_eq
bytes_eq_refl [] = refl
bytes_eq_refl (x ∷ xs) = ground (arith, bytes_eq_refl xs)

pub bytes_eq_iff : (a b : Bytes) → (bytes_eq a b ≡ true) ↔ (a ≡ b)
bytes_eq_iff a b = (bytes_eq→eq a b, λ e. ground (arith, bytes_eq_refl b))

-- `len >= strlen(prefix) && memcmp(line, prefix, strlen(prefix)) == 0`.
unfoldable pub has_prefix : Bytes → Bytes → Bool
has_prefix line [] = true
has_prefix [] (y ∷ ys) = false
has_prefix (x ∷ xs) (y ∷ ys) = x == y && has_prefix xs ys

-- The decimal digits of `n` in front of `acc`, on fuel above `n`.
unfoldable pub digits : ℕ → ℕ → Bytes → Bytes
digits zero n acc = acc
digits (suc f) n acc =
    let rest = digits f (n / 10) ((48 + n % 10) ∷ acc) in if ltb n 10 then (48 + n) ∷ acc else rest

-- `%u` and `%lu`.
unfoldable pub decimal : ℕ → Bytes
unfolding digits
decimal n = digits (suc n) n []

-- The part of `s` before the first comma and that behind it (`memchr(p, ',', …)`).
unfoldable pub split_comma : Bytes → Option (Bytes × Bytes)
split_comma [] = none
split_comma (c ∷ s) =
    let rest = Option.map (λ (r : Bytes × Bytes). (c ∷ r.0, r.1)) (split_comma s) in
    if c == b',' then some ([], s) else rest

-- The part of `s` before the first byte `sep` and that behind it (`memchr(s, sep, …)`).
unfoldable pub split_byte : ℕ → Bytes → Option (Bytes × Bytes)
split_byte sep [] = none
split_byte sep (c ∷ s) =
    let rest = Option.map (λ (r : Bytes × Bytes). (c ∷ r.0, r.1)) (split_byte sep s) in
    if c == sep then some ([], s) else rest

-- The number that decimal digits go on to write, whose value so far is `n`; `none` at another byte.
unfoldable pub digits_value : ℕ → Bytes → Option ℕ
digits_value n [] = some n
digits_value n (c ∷ s) =
    let rest = digits_value (n * 10 + (c - 48)) s in if leb 48 c && leb c 57 then rest else none

digits_value-digits :
    (f n : ℕ) (acc : Bytes) → n < f → digits_value 0 (digits f n acc) ≡ digits_value n acc
unfolding digits digits_value
digits_value-digits zero n acc h = absurd (omega arith)
digits_value-digits (suc f) n acc h = elim (Bool-cases (ltb n 10)) [
  | inl e ↦ rw e (
      digit n (ltb→lt n 10 e) 0 acc
      ∙ ap (λ t. digits_value t acc) {x = 0 * 10 + n} {y = n} (omega arith))
  | inr e ↦
      let k : 10 ≤ n = ground (arith, e) in
      rw e (
        digits_value-digits f (n / 10) ((48 + n % 10) ∷ acc) (omega (arith, h, k))
        ∙ digit (n % 10) (omega arith) (n / 10) acc
        ∙ ap (λ t. digits_value t acc) {x = n / 10 * 10 + n % 10} {y = n} (omega arith))
]
  where
    digit :
        (k : ℕ)
        → k < 10
        → (m : ℕ) (s : Bytes) → digits_value m ((48 + k) ∷ s) ≡ digits_value (m * 10 + k) s
    digit k h m s =
        rw (leb_low, leb_high)
          (ap (λ t. digits_value (m * 10 + t) s) {x = 48 + k - 48} {y = k} (omega arith))
      where
        leb_low : leb 48 (48 + k) ≡ true
        leb_low = ground arith

        leb_high : leb (48 + k) 57 ≡ true
        leb_high = ground (arith, h)

-- What `%d` writes of a number that is not negative is read back as that number.
pub digits_value-decimal : (n : ℕ) → digits_value 0 (decimal n) ≡ some n
unfolding decimal digits_value
digits_value-decimal n = digits_value-digits (suc n) n [] (omega arith)
