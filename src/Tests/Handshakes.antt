-- ===== src/Tests/Handshakes.antt =====
-- The theorems on proofs, on RESET and on LIST.
use cything.Tests.{echo, device, alice_row}
use cything.Prelude.{
  ℕ, ◌+◌, ◌*◌, ◌/◌, refl, false, some, [], ◌∷◌, ◌++◌, ◌≡◌, pos, replicate, arith, length,
  length-replicate,
}
use cything.Prelude.Bytes.{Bytes, codes, split_comma}
use cything.Prelude.Every.{Every}
use cything.Session
use cything.Session.{
  Session, free_slot, ls_auth_wait_proof, ls_pake_wait_proof, ls_auth_ok, ls_pake_ok,
}
use cything.Session.Invariant.{IsSoundPool}
use cything.Paired.{Entry, empty_blob}
use cything.Password
use cything.Device.{Device, slot, send, update_slot, decode}
use cything.Frame.{send_line, frame_send, keyed}
use cything.Auth.{handle_auth3, decode_fields, proof, ct_equal, mac_len}
use cything.Auth.Proofs.{handle_auth3_right}
use cything.Device.{Env}
use cything.Pake.{handle_pake3, decode_payload, srp_proof_len}
use cything.Pake.Proofs.{handle_pake3_right}
use cything.Owner.{handle_reset, list_line}
use cything.Owner.Listing.{list_line_clear}
use cything.Owner.Resetting.{IsBlank, handle_reset_lem}

-- A device whose only connection is in the middle of a handshake.
abbrev with_session : Session → Device
with_session s = record device { pool = s ∷ [] }

abbrev awaits_auth : Device
awaits_auth =
    with_session
      (record free_slot { sock = pos 4; state = ls_auth_wait_proof; paired_index = pos 0 })

abbrev awaits_pake : ℕ → Device
awaits_pake handle =
    with_session (record free_slot { sock = pos 4; state = ls_pake_wait_proof; srp = some handle })

abbrev auth3_line : Bytes
auth3_line = codes "AUTH3:" ++ replicate 32 0

abbrev pake3_line : Bytes
pake3_line = codes "PAKE3:" ++ replicate 64 1

handle_auth3_right_example :
    decode_fields echo ((mac_len + 1) ∷ []) 6 auth3_line
    ≡ some (
        echo.hmac
          (slot 0 awaits_auth).key
          (codes "phn" ++ (slot 0 awaits_auth).nonce_dev ++ (slot 0 awaits_auth).nonce_phone)
        ∷ [])
unfolding handle_auth3 decode_fields split_comma decode ct_equal proof update_slot send_line
    cything.Paired.get frame_send Session.find keyed send
handle_auth3_right_example =
    handle_auth3_right echo auth3_line 0 awaits_auth (λ k m. refl) refl refl

handle_pake3_right_example :
    (m1 m2 : Bytes) × (decode_payload echo pake3_line srp_proof_len ≡ some m1)
    × (length m1 ≡ srp_proof_len)
    × (echo.srp_proof 3 m1 ≡ some m2)
unfolding handle_pake3 decode_payload decode update_slot send_line frame_send Session.find keyed
    send
handle_pake3_right_example = handle_pake3_right echo pake3_line 0 3 (awaits_pake 3) refl refl refl

-- The twentieth wrong proof, half a minute before a new attempt.
abbrev nineteen_before : Device
nineteen_before = record (awaits_pake 4) { password = record device.password { global_fails = 19 } }

abbrev later : Env
later = record echo { now_us = 30000000 }

device-IsSoundPool : IsSoundPool device.pool
device-IsSoundPool = ground arith

handle_reset_lem_example :
    let d' = handle_reset echo 0 device in
    (d'.paired.ram ≡ empty_blob) × (Password.is_set d'.password ≡ false) × Every IsBlank d'.pool
handle_reset_lem_example = handle_reset_lem echo 0 device device-IsSoundPool

abbrev uuid_row : Entry
uuid_row = record alice_row { user_sub = replicate 36 b'a' }

list_line_clear_example :
    send_line echo (pos 4) (list_line echo uuid_row) device
    ≡ send (pos 4) (codes "\n") (send (pos 4) (list_line echo uuid_row) device)
list_line_clear_example =
    list_line_clear echo (pos 4) uuid_row device (λ s. length-replicate ((length s + 2) / 3 * 4) 65)
      refl
