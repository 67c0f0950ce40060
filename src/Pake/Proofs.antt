-- ===== src/Pake/Proofs.antt =====
-- src/security/pake_handler.c: what it takes for PAKE3 to establish a key, and what a wrong proof
-- costs.
use cything.Prelude.{
  ℤ, ◌+◌, ℕ, ◌≡◌, ◌≢◌, refl, some, inl, inr, Bool-cases, Option-cases, arith, length, ◌==◌,
}
use cything.Prelude.Bytes.{Bytes, codes}
use cything.Session.{ls_pake_wait_proof, ls_pake_ok, ls_new, at}
use cything.Password
use cything.Device.{Env, Device, slot, update_slot}
use cything.Frame.{send_err}
use cything.Frame.Effects.{replied-state, send_err-Replies, updated-state}
use cything.Pake.{handle_pake3, pake3_proof, abort_pake, decode_payload, srp_proof_len}

aborted-state : (i : ℕ) (d : Device) → (slot i (update_slot i abort_pake d)).state ≡ ls_new
unfolding update_slot abort_pake
aborted-state i d = updated-state d.pool i (abort_pake (at i d.pool)) refl

refused-state :
    (env : Env) (i : ℕ) (d : Device) (code : Bytes) (sock : ℤ)
    → (slot i (send_err env sock code (update_slot i abort_pake d))).state ≢ ls_pake_ok
refused-state env i d code sock h =
    let same = replied-state i (send_err-Replies env sock code (update_slot i abort_pake d)) in
    let new = aborted-state i d in ground arith

-- The device with a wrong proof counted against the connection's peer.
abbrev counted : Env → ℕ → Device → Device
counted env i d = record d {
  password = Password.note_failure (env.flash_ok d.writes) env.now_us (slot i d).peer_ip d.password;
  writes = d.writes + 1;
}

module _ (env : Env) (line : Bytes) (i handle : ℕ) (d : Device) where
  proved :
      (m1 : Bytes)
      → decode_payload env line srp_proof_len ≡ some m1
      → (slot i (pake3_proof env line i handle d)).state ≡ ls_pake_ok
      → (length m1 ≡ srp_proof_len) × ((m2 : Bytes) × (env.srp_proof handle m1 ≡ some m2))
  unfolding pake3_proof
  proved m1 e h = elim (Bool-cases (length m1 == srp_proof_len)) [
    | inr n ↦
        absurd
          (refused-state env i d (codes "BADFMT") (slot i d).sock (rw (pake3_proof, e, n) at h))
    | inl n ↦ elim (Option-cases (env.srp_proof handle m1)) [
      | inl p ↦ absurd (
          refused-state env i (counted env i d) (codes "BADPW") (slot i d).sock
            (rw (pake3_proof, e, n, p) at h))
      | inr p ↦ (ground (arith, n), p)
    ]
  ]

  decoded :
      (slot i (pake3_proof env line i handle d)).state ≡ ls_pake_ok
      → (m1 m2 : Bytes) × (decode_payload env line srp_proof_len ≡ some m1)
        × (length m1 ≡ srp_proof_len)
        × (env.srp_proof handle m1 ≡ some m2)
  unfolding pake3_proof
  decoded h = elim (Option-cases (decode_payload env line srp_proof_len)) [
    | inl e ↦
        absurd (refused-state env i d (codes "BADFMT") (slot i d).sock (rw (pake3_proof, e) at h))
    | inr (m1, e) ↦ let q = proved m1 e h in (m1, q.1.0, e, q.0, q.1.1)
  ]

-- A connection that awaits the proof for SRP handle `handle` reaches LS_PAKE_OK by PAKE3 only if the
-- line carries a proof of 64 bytes that esp_srp accepts for that handle.
pub handle_pake3_right :
    (env : Env) (line : Bytes) (i handle : ℕ) (d : Device)
    → (slot i d).state ≡ ls_pake_wait_proof
    → (slot i d).srp ≡ some handle
    → (slot i (handle_pake3 env line i d)).state ≡ ls_pake_ok
    → (m1 m2 : Bytes) × (decode_payload env line srp_proof_len ≡ some m1)
      × (length m1 ≡ srp_proof_len)
      × (env.srp_proof handle m1 ≡ some m2)
unfolding handle_pake3
handle_pake3_right env line i handle d w s h =
    decoded env line i handle d (rw (handle_pake3, w, s) at h)
