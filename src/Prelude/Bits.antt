-- ===== src/Prelude/Bits.antt =====
-- Numbers whose bitwise or, or exclusive or, is zero.
use Prim.Native.Nat.{
  bit_or, bit_xor, digits, differ, bit_or-bitwise, bit_xor-bitwise, max, ◌/◌, ◌%◌,
}
use cything.Prelude.{ℕ, zero, suc, ◌≤◌, ◌≡◌, refl, sym, ◌∙◌, arith}

or_digits-zero : (n a b : ℕ) → a ≤ n → digits (λ b. b) max n a b ≡ 0 → (a ≡ 0) × (b ≡ 0)
or_digits-zero zero zero b h e = (refl, e)
or_digits-zero zero (suc a) b h e = absurd (omega arith)
or_digits-zero (suc n) zero b h e = (refl, e)
or_digits-zero (suc n) (suc a) b h e =
    let (high, high') =
      or_digits-zero n (suc a / 2) (b / 2) (omega (arith, h)) (omega (arith, e)) in
    (omega (arith, e, high), omega (arith, e, high'))

pub bit_or-zero : (a b : ℕ) → bit_or a b ≡ 0 → (a ≡ 0) × (b ≡ 0)
bit_or-zero a b e = or_digits-zero a a b (omega arith) (sym (bit_or-bitwise a b) ∙ e)

differ-zero : (a b : ℕ) → differ a b ≡ 0 → a ≡ b
differ-zero zero b e = sym e
differ-zero (suc a) zero e = e
differ-zero (suc a) (suc b) e = let same = differ-zero a b e in omega arith

xor_digits-zero : (n a b : ℕ) → a ≤ n → digits (λ b. b) differ n a b ≡ 0 → a ≡ b
xor_digits-zero zero zero b h e = sym e
xor_digits-zero zero (suc a) b h e = absurd (omega arith)
xor_digits-zero (suc n) zero b h e = sym e
xor_digits-zero (suc n) (suc a) b h e =
    let high = xor_digits-zero n (suc a / 2) (b / 2) (omega (arith, h)) (omega (arith, e)) in
    let low = differ-zero (suc a % 2) (b % 2) (omega (arith, e)) in omega (arith, high, low)

pub bit_xor-zero : (a b : ℕ) → bit_xor a b ≡ 0 → a ≡ b
bit_xor-zero a b e = xor_digits-zero a a b (omega arith) (sym (bit_xor-bitwise a b) ∙ e)
