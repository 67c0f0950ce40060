-- ===== src/Owner/Listing.antt =====
-- src/security/owner_commands.c: the lines of LIST, and how `security_send_line` sends them.
use cything.Prelude.{
  ℕ, zero, suc, ◌%◌, ◌+◌, ◌*◌, ◌/◌, ◌≤◌, ◌≡◌, [], ◌∷◌, ◌++◌, ℤ, length, arith, length-append,
}
use cything.Prelude.Bytes.{Bytes, codes, decimal, digits}
use cything.Paired.{Entry}
use cything.Device.{Env, Device, send}
use cything.Frame.{send_line}
use cything.Auth.{role_word}
use cything.Owner.{list_line}

digits_pos : (f n : ℕ) (acc : Bytes) → 1 ≤ length acc → 1 ≤ length (digits f n acc)
unfolding digits
digits_pos zero n acc h = h
digits_pos (suc f) n acc h = ground (arith, digits_pos f (n / 10) ((48 + n % 10) ∷ acc))

decimal_pos : (n : ℕ) → 1 ≤ length (decimal n)
unfolding decimal digits
decimal_pos n = ground (arith, digits_pos n (n / 10) ((48 + n % 10) ∷ []))

role_word_long : (role : ℕ) → 4 ≤ length (role_word role)
role_word_long role = ground arith

-- The fields of a line of LIST, with the commas between them.
length-list_line :
    (env : Env) (e : Entry)
    → length (list_line env e)
      ≡ 10
        + length (env.base64_encode e.user_sub)
        + length (env.base64_encode e.user_email)
        + length (decimal e.paired_at)
        + length (role_word e.role)
unfolding list_line
length-list_line env e =
    let sub = env.base64_encode e.user_sub in
    let email = sub ++ codes "," ++ env.base64_encode e.user_email in
    let time = email ++ codes "," ++ decimal e.paired_at in
    omega (
      arith,
      length-append sub (codes ","),
      length-append (sub ++ codes ",") (env.base64_encode e.user_email),
      length-append email (codes ","),
      length-append (email ++ codes ",") (decimal e.paired_at),
      length-append time (codes ","),
      length-append (time ++ codes ",") (role_word e.role),
    )

list_line_long :
    (env : Env) (e : Entry)
    → ((s : Bytes) → length (env.base64_encode s) ≡ (length s + 2) / 3 * 4)
    → length e.user_sub ≡ 36
    → 63 ≤ length (list_line env e)
list_line_long env e b64 h = omega (
  arith,
  length-list_line env e,
  b64 e.user_sub,
  h,
  decimal_pos e.paired_at,
  role_word_long e.role,
)

-- The line of an account with a sub of 36 characters, which is what a UUID has, is longer than the
-- buffer of `security_send_line` when base64 takes four characters for each three bytes begun. It
-- goes out in the clear, whatever the session, in two packets.
pub list_line_clear :
    (env : Env) (sock : ℤ) (e : Entry) (d : Device)
    → ((s : Bytes) → length (env.base64_encode s) ≡ (length s + 2) / 3 * 4)
    → length e.user_sub ≡ 36
    → send_line env sock (list_line env e) d
      ≡ send sock (codes "\n") (send sock (list_line env e) d)
unfolding send_line
list_line_clear env sock e d b64 h = ground (arith, list_line_long env e b64 h)
