-- ===== src/Auth/Proofs.antt =====
-- src/security/local_auth.c: what it takes for AUTH3 to authenticate a connection.
use cything.Prelude.Bits.{bit_or-zero, bit_xor-zero}
use Prim.Native.Nat.{bit_or, bit_xor}
use cything.Prelude.{
  ap, sym, ◌∙◌, ◌++◌, ◌+◌, ◌==◌, length, ℕ, ◌≡◌, ◌≢◌, refl, true, Option, none, some, List, [], ◌∷◌,
  inl, inr, Bool-cases, arith,
}
use cything.Prelude.Bytes.{Bytes, codes}
use cything.Session.{ls_auth_wait_proof, ls_auth_ok, ls_new, at}
use cything.Device.{Env, Device, slot, update_slot}
use cything.Frame.{send_err}
use cything.Frame.Effects.{send_err-Replies, replied-state, updated-state}
use cything.Auth.{
  handle_auth3, auth3_proof, decode_fields, proof, ct_equal, ct_diff, mac_len, drop_proof,
}

dropped-state : (i : ℕ) (d : Device) → (slot i (update_slot i drop_proof d)).state ≡ ls_new
unfolding update_slot
dropped-state i d = updated-state d.pool i (drop_proof (at i d.pool)) refl

module _ (env : Env) (line : Bytes) (i : ℕ) (d : Device)
    (w : (slot i d).state ≡ ls_auth_wait_proof) where
  replied_early : (code : Bytes) → (slot i (send_err env (slot i d).sock code d)).state ≢ ls_auth_ok
  replied_early code h =
      let same = replied-state i (send_err-Replies env (slot i d).sock code d) in ground arith

  refused_late :
      (code : Bytes)
      → (slot i (send_err env (slot i d).sock code (update_slot i drop_proof d))).state ≢ ls_auth_ok
  refused_late code h =
      let same =
        replied-state i (send_err-Replies env (slot i d).sock code (update_slot i drop_proof d)) in
      let new = dropped-state i d in ground arith

  -- The proof that the phone owes.
  abbrev owed : Bytes
  owed = proof env (slot i d).key (codes "phn") (slot i d).nonce_dev (slot i d).nonce_phone

  auth3_decoded :
      (o : Option (List Bytes))
      → decode_fields env ((mac_len + 1) ∷ []) 6 line ≡ o
      → (slot i (auth3_proof env line i d)).state ≡ ls_auth_ok
      → (got : Bytes) × (o ≡ some (got ∷ [])) × (length got ≡ mac_len) × (ct_equal got owed ≡ true)
  unfolding auth3_proof
  auth3_decoded none e h = absurd (replied_early (codes "BADFMT") (rw (auth3_proof, e) at h))
  auth3_decoded (some []) e h = absurd (replied_early (codes "BADFMT") (rw (auth3_proof, e) at h))
  auth3_decoded (some (got ∷ [])) e h = elim (Bool-cases (length got == mac_len)) [
    | inr n ↦ absurd (replied_early (codes "BADFMT") (rw (auth3_proof, e, n) at h))
    | inl n ↦ elim (Bool-cases (ct_equal got owed)) [
      | inr c ↦ absurd (refused_late (codes "BADAUTH") (rw (auth3_proof, e, n, c) at h))
      | inl c ↦ (got, refl, ground (arith, n), c)
    ]
  ]
  auth3_decoded (some (got ∷ x ∷ xs)) e h =
      absurd (replied_early (codes "BADFMT") (rw (auth3_proof, e) at h))

ct_diff-zero : (a b : Bytes) (d : ℕ) → length a ≡ length b → ct_diff a b d ≡ 0 → (d ≡ 0) × (a ≡ b)
unfolding ct_diff
ct_diff-zero [] [] d l e = (e, refl)
ct_diff-zero [] (y ∷ b) d l e = absurd (omega (arith, l))
ct_diff-zero (x ∷ a) [] d l e = absurd (omega (arith, l))
ct_diff-zero (x ∷ a) (y ∷ b) d l e =
    let (none_yet, rest) = ct_diff-zero a b (bit_or d (bit_xor x y)) (omega (arith, l)) e in
    let (before, here) = bit_or-zero d (bit_xor x y) none_yet in
    (before, ap-cons (bit_xor-zero x y here) rest)
  where
    ap-cons : x ≡ y → a ≡ b → x ∷ a ≡ y ∷ b
    ap-cons p q = cc

-- The comparison holds of two blocks of one length only if they are the same.
pub ct_equal-eq : (a b : Bytes) → length a ≡ length b → ct_equal a b ≡ true → a ≡ b
unfolding ct_equal
ct_equal-eq a b l e = (ct_diff-zero a b 0 l (ground (arith, e))).1

-- With an HMAC of always 32 bytes: a connection that awaits the phone's proof is authenticated by
-- AUTH3 only if the line carries exactly the HMAC of "phn", the device's nonce and the phone's
-- nonce under the account's key.
pub handle_auth3_right :
    (env : Env) (line : Bytes) (i : ℕ) (d : Device)
    → ((key message : Bytes) → length (env.hmac key message) ≡ mac_len)
    → (slot i d).state ≡ ls_auth_wait_proof
    → (slot i (handle_auth3 env line i d)).state ≡ ls_auth_ok
    → decode_fields env ((mac_len + 1) ∷ []) 6 line
      ≡ some (
          env.hmac (slot i d).key (codes "phn" ++ (slot i d).nonce_dev ++ (slot i d).nonce_phone)
          ∷ [])
unfolding handle_auth3 proof
handle_auth3_right env line i d size w h =
    let (got, decoded, n, same) =
      auth3_decoded env line i d w (decode_fields env ((mac_len + 1) ∷ []) 6 line) refl
        (rw (handle_auth3, w) at h) in
    decoded
    ∙ ap (λ t. some (t ∷ []))
        (ct_equal-eq got (owed env line i d w) (n ∙ sym (size (slot i d).key _)) same)
