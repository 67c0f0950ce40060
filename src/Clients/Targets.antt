-- ===== src/Clients/Targets.antt =====
-- The "<sock>:" prefix between the producers and the sending task of
-- src/tcp_server/tcp_client_list.c.
use mathlib.Core.Path.{subst}
use cything.Prelude.{
  ℤ, minus_one, ℕ, zero, suc, ◌+◌, ◌/◌, ◌%◌, ◌≤◌, ◌≡◌, ◌≢◌, refl, ap, sym, ◌∙◌, arith, some, [],
  ◌∷◌, ◌++◌, inl, inr, Bool-cases, ltb, pos, ltb→lt,
}
use cything.Prelude.Bytes.{Bytes, decimal, digits, split_byte, digits_value, digits_value-decimal}
use cything.Prelude.Every.{Every}
use cything.Clients.{
  ℤ, minus_one, strtol, skip_space, signed_long, unsigned_long, parse_target, decimal_ℤ,
}

-- Decimal digits only.
abbrev pub IsDigits : Bytes → Type 0
IsDigits = Every (λ c. (48 ≤ c) × (c ≤ 57))

digits-IsDigits : (f n : ℕ) (acc : Bytes) → IsDigits acc → IsDigits (digits f n acc)
unfolding digits
digits-IsDigits zero n acc h = h
digits-IsDigits (suc f) n acc h = elim (Bool-cases (ltb n 10)) [
  | inl e ↦ rw e ((omega arith, omega (arith, ltb→lt n 10 e)), h)
  | inr e ↦ rw e (digits-IsDigits f (n / 10) _ ((omega arith, omega arith), h))
]

pub decimal-IsDigits : (n : ℕ) → IsDigits (decimal n)
unfolding decimal
decimal-IsDigits n = digits-IsDigits (suc n) n [] tt

digits-cons : (f n c : ℕ) (acc : Bytes) → (d : ℕ) × (s : Bytes) × (digits f n (c ∷ acc) ≡ d ∷ s)
unfolding digits
digits-cons zero n c acc = (c, acc, refl)
digits-cons (suc f) n c acc = elim (Bool-cases (ltb n 10)) [
  | inl e ↦ (48 + n, c ∷ acc, rw e refl)
  | inr e ↦ let (d, s, h) = digits-cons f (n / 10) (48 + n % 10) (c ∷ acc) in (d, s, rw e h)
]

decimal-cons : (n : ℕ) → (d : ℕ) × (s : Bytes) × (decimal n ≡ d ∷ s)
unfolding decimal digits
decimal-cons n = elim (Bool-cases (ltb n 10)) [
  | inl e ↦ (48 + n, [], rw e refl)
  | inr e ↦ let (d, s, h) = digits-cons n (n / 10) (48 + n % 10) [] in (d, s, rw e h)
]

strtol_digits :
    (d : ℕ) (s : Bytes) (n : ℕ)
    → IsDigits (d ∷ s)
    → digits_value 0 (d ∷ s) ≡ some n
    → n ≤ 2147483647
    → strtol (d ∷ s) ≡ some (pos n)
unfolding strtol skip_space signed_long unsigned_long
strtol_digits d s n h e k = ground (arith, h, e, k)

strtol-decimal : (n : ℕ) → n ≤ 2147483647 → strtol (decimal n) ≡ some (pos n)
strtol-decimal n k =
    let (d, s, e) = decimal-cons n in
    ap strtol e
    ∙ strtol_digits d s n (subst IsDigits e (decimal-IsDigits n))
        (sym (ap (digits_value 0) e) ∙ digits_value-decimal n) k

pub split_byte-append :
    (sep : ℕ) (s t : Bytes) → Every (λ c. c ≢ sep) s → split_byte sep (s ++ (sep ∷ t)) ≡ some (s, t)
unfolding split_byte
split_byte-append sep [] t h = ground arith
split_byte-append sep (c ∷ s) t h = ground (arith, split_byte-append sep s t h.1, h.0)

no_colon : (s : Bytes) → IsDigits s → Every (λ c. c ≢ b':') s
no_colon [] h = tt
no_colon (c ∷ s) h = (λ e. omega (arith, e, h.0), no_colon s h.1)

parse_target_split :
    (line prefix rest : Bytes) (target : ℤ)
    → split_byte b':' line ≡ some (prefix, rest)
    → strtol prefix ≡ some target
    → parse_target line ≡ some (target, rest)
unfolding parse_target
parse_target_split line prefix rest target h k = ground (arith, h, k)

-- A prefix that the producers wrote for a socket is read back by the sending task as that socket, and
-- what they wrote behind it is the payload, untouched.
pub parse_target-decimal_ℤ :
    (n : ℕ) (rest : Bytes)
    → n ≤ 2147483647
    → parse_target (decimal_ℤ (pos n) ++ (b':' ∷ rest)) ≡ some (pos n, rest)
unfolding decimal_ℤ
parse_target-decimal_ℤ n rest h =
    parse_target_split (decimal n ++ (b':' ∷ rest)) (decimal n) rest (pos n)
      (split_byte-append b':' (decimal n) rest (no_colon (decimal n) (decimal-IsDigits n)))
      (strtol-decimal n h)

pub parse_target_everyone :
    (rest : Bytes) → parse_target (decimal_ℤ minus_one ++ (b':' ∷ rest)) ≡ some (minus_one, rest)
unfolding parse_target decimal_ℤ decimal digits split_byte strtol skip_space signed_long
    unsigned_long digits_value
parse_target_everyone rest = refl
