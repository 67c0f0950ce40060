-- ===== src/Pake.antt =====
-- src/security/pake_handler.[ch]: the password handshake, PAKE1 to PAKE4.
pub mod Proofs
use cything.Prelude.{
  ℕ, ◌+◌, ◌&&◌, ◌||◌, not, Option, none, some, ◌++◌, ℤ, ◌==◌, ltb, leb, if◌then◌else◌, length, take,
  drop,
}
use cything.Prelude.Bytes.{Bytes, codes, has_prefix, decimal}
use cything.Session
use cything.Session.{Session, State, ls_new, ls_pake_wait_proof, ls_pake_ok, reset_handshake, zeros}
use cything.Password
use cything.Device.{Env, Device, slot, update_slot, decode}
use cything.Frame.{send_line, send_err}

abbrev pub srp_bytes_max : ℕ
srp_bytes_max = 384

abbrev pub srp_proof_len : ℕ
srp_proof_len = 64

-- `decode_payload` behind a prefix of six bytes.
unfoldable pub decode_payload : Env → Bytes → ℕ → Option Bytes
decode_payload env line size =
    if leb (length line) 6 then none else elim (decode env size (drop 6 line)) [
      | none ↦ none
      | some b ↦ if length b == 0 then none else some b
    ]

-- `abort_pake`.
unfoldable pub abort_pake : Session → Session
abort_pake s = record s { srp = none; key = zeros 32; state = ls_new }

abbrev pub pake2 : Env → Bytes → Bytes → Bytes
pake2 env salt b = codes "PAKE2:" ++ env.base64_encode salt ++ codes "," ++ env.base64_encode b

-- K_pake is held from now on, and the SRP handle with it.
abbrev pub await_proof : ℕ → Bytes → Session → Session
await_proof handle k s = record s { key = take 32 k; srp = some handle; state = ls_pake_wait_proof }

-- `handle_pake1` once the handshake was reset.
unfoldable pub pake1_fresh : Env → Bytes → ℕ → Device → Device
pake1_fresh env line i d =
    let sock = (slot i d).sock in
    let lock = Password.lock_remaining_s env.now_us (slot i d).peer_ip d.password in
    if ltb 0 lock
    then send_err env sock (codes "LOCKED," ++ decimal lock) d
    else elim (decode_payload env line srp_bytes_max) [
      | none ↦ send_err env sock (codes "BADFMT") d
      | some a ↦
          let (pw, pair) = Password.get (env.srp_make env.initial_password) d.password in
          let d' = record d { password = pw } in
          elim pair [
            | none ↦ send_err env sock (codes "NOPW") d'
            | some (salt, verifier) ↦ elim (env.srp_setup salt verifier a) [
              | none ↦ send_err env sock (codes "NOMEM") d'
              | some (handle, b, k) ↦
                  if ltb (length k) 32 || ltb srp_bytes_max (length b)
                  then send_err env sock (codes "NOMEM") d'
                  else send_line env sock (pake2 env salt b)
                      (update_slot i (await_proof handle k) d')
            ]
          ]
    ]

unfoldable pub handle_pake1 : Env → Bytes → ℕ → Device → Device
unfolding pake1_fresh
handle_pake1 env line i d = pake1_fresh env line i (update_slot i reset_handshake d)

-- The state moves once the reply is on the wire.
abbrev pub established : State → Session → Session
established st s = record s { tx_ctr = 0; rx_ctr = 0; state = st }

-- `handle_pake3` with the handle of an exchange that awaits its proof.
unfoldable pub pake3_proof : Env → Bytes → ℕ → ℕ → Device → Device
unfolding abort_pake
pake3_proof env line i handle d = elim (decode_payload env line srp_proof_len) [
  | none ↦ send_err env sock (codes "BADFMT") (update_slot i abort_pake d)
  | some m1 ↦
      if not (length m1 == srp_proof_len)
      then send_err env sock (codes "BADFMT") (update_slot i abort_pake d)
      else elim (env.srp_proof handle m1) [
        | none ↦
            let pw =
              Password.note_failure (env.flash_ok d.writes) env.now_us (slot i d).peer_ip
                d.password in
            send_err env sock (codes "BADPW")
              (update_slot i abort_pake (record d { password = pw; writes = d.writes + 1 }))
        | some m2 ↦
            let pw =
              Password.note_success (env.flash_ok d.writes) env.now_us (slot i d).peer_ip
                d.password in
            let d' = update_slot i (λ s. record s { srp = none }) d in
            let reply = codes "PAKE4:" ++ env.base64_encode m2 in
            update_slot i (established ls_pake_ok)
              (send_line env sock reply (record d' { password = pw; writes = d.writes + 1 }))
      ]
]
  where
    sock : ℤ
    sock = (slot i d).sock

unfoldable pub handle_pake3 : Env → Bytes → ℕ → Device → Device
unfolding pake3_proof
handle_pake3 env line i d =
    let refused = send_err env (slot i d).sock (codes "SEQ") d in
    elim (slot i d).state [
      | ls_pake_wait_proof ↦ elim (slot i d).srp [
        | none ↦ refused
        | some handle ↦ pake3_proof env line i handle d
      ]
      | _ ↦ refused
    ]

-- `pake_handle_line`: `none` if the line is not of this handshake.
unfoldable pub pake_handle_line : Env → Bytes → ℤ → Device → Option Device
unfolding handle_pake1 handle_pake3
pake_handle_line env line sock d =
    let is1 = has_prefix line (codes "PAKE1:") in
    let is3 = has_prefix line (codes "PAKE3:") in
    if not is1 && not is3 then none else elim (Session.find sock d.pool) [
      | none ↦ some (send_err env sock (codes "NOSESSION") d)
      | some i ↦ some (if is1 then handle_pake1 env line i d else handle_pake3 env line i d)
    ]
