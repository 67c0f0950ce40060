-- ===== src/Dispatch/Handshakes.antt =====
-- src/security/pake_handler.c and local_auth.c: the handshakes keep the shared state valid.
use cything.Prelude.{
  ℕ, ◌≡◌, ◌≢◌, refl, sym, ◌++◌, minus_one, arith, inl, inr, Bool-cases, Option-cases, Option, none,
  some, false, ltb, ◌||◌, length, ◌+◌, ◌==◌, ℤ,
}
use cything.Prelude.Bytes.{Bytes, codes}
use cything.Session
use cything.Session.{
  Session, Pool, at, free_slot, reset_handshake, ls_new, ls_pake_wait_proof, ls_pake_ok, role_none,
  zeros,
}
use cything.Session.Invariant.{IsSound, reset_handshake-IsSound}
use cything.Password
use cything.Device.{Env, Device, slot, update_slot}
use mathlib.Core.Path.{subst}
use cything.Frame.{send_line, keyed}
use cything.Frame.Effects.{send_line-Replies}
use cything.Pake.{
  pake_handle_line, pake1_fresh, handle_pake1, handle_pake3, pake3_proof, await_proof, abort_pake,
  established, decode_payload, srp_bytes_max, srp_proof_len,
}
use cything.Dispatch.Slots.{
  IsLive, slot-update_slot, same-IsValid, finish-IsValid, replied-slot, slot-IsSound, found-IsLive,
  State-cases,
}
use cything.Dispatch.Invariant.{IsValid, send_err-IsValid, send_line-IsValid, update_slot-IsValid}

-- A connection whose handshake was reset.
pub record Fresh (i : ℕ) (d : Device) : Type 0 where
  pub live : IsLive i d
  pub new : (slot i d).state ≡ ls_new
  pub sound : IsSound (slot i d)
  pub valid : IsValid d

pub reset_slot :
    (i : ℕ) (d : Device) → IsLive i d → IsValid d → Fresh i (update_slot i reset_handshake d)
unfolding reset_handshake
reset_slot i d l v =
    let blank = reset_handshake-IsSound (slot i d) l in
    let put = sym (slot-update_slot i reset_handshake d l) in
    record {
      live = subst (λ s. s.sock ≢ minus_one) put l;
      new = subst (λ s. s.state ≡ ls_new) put refl;
      sound = subst IsSound put blank;
      valid = update_slot-IsValid i reset_handshake d refl blank v;
    }

await_proof-IsSound :
    (handle : ℕ) (k : Bytes) (s : Session)
    → IsSound s
    → s.sock ≢ minus_one
    → s.state ≡ ls_new
    → IsSound (await_proof handle k s)
await_proof-IsSound handle k s v n h = ground arith

pake1_fresh-IsValid :
    (env : Env) (line : Bytes) (i : ℕ) (d : Device)
    → IsLive i d
    → (slot i d).state ≡ ls_new
    → IsSound (slot i d)
    → IsValid d
    → IsValid (pake1_fresh env line i d)
unfolding pake1_fresh
pake1_fresh-IsValid env line i d l n s v =
    elim (Bool-cases (ltb 0 (Password.lock_remaining_s env.now_us (slot i d).peer_ip d.password))) [
      | inl e ↦ rw (pake1_fresh, e) (send_err-IsValid env _ _ d v)
      | inr e ↦ elim (Option-cases (decode_payload env line srp_bytes_max)) [
        | inl f ↦ rw (pake1_fresh, e, f) (send_err-IsValid env _ _ d v)
        | inr (a, f) ↦ elim (Option-cases pw.1) [
          | inl g ↦ rw (pake1_fresh, e, f, g) (send_err-IsValid env _ _ _ v')
          | inr ((salt, verifier), g) ↦ elim (Option-cases (env.srp_setup salt verifier a)) [
            | inl h ↦ rw (pake1_fresh, e, f, g, h) (send_err-IsValid env _ _ _ v')
            | inr ((handle, b, k), h) ↦
                elim (Bool-cases (ltb (length k) 32 || ltb srp_bytes_max (length b))) [
                  | inl m ↦ rw (pake1_fresh, e, f, g, h, m) (send_err-IsValid env _ _ _ v')
                  | inr m ↦
                      rw (pake1_fresh, e, f, g, h, m)
                        (send_line-IsValid env _ _ _ (
                          update_slot-IsValid i (await_proof handle k) _ refl
                            (await_proof-IsSound handle k _ s l n) v'))
                ]
          ]
        ]
      ]
    ]
  where
    pw : Password.Password × Option (Bytes × Bytes)
    pw = Password.get (env.srp_make env.initial_password) d.password

    v' : IsValid (record d { password = pw.0 })
    v' = same-IsValid refl refl v

-- PAKE1 keeps the state valid.
pub handle_pake1-IsValid :
    (env : Env) (line : Bytes) (i : ℕ) (d : Device)
    → IsLive i d
    → IsValid d
    → IsValid (handle_pake1 env line i d)
unfolding handle_pake1
handle_pake1-IsValid env line i d l v =
    let fresh = reset_slot i d l v in
    pake1_fresh-IsValid env line i (update_slot i reset_handshake d) fresh.live fresh.new
      fresh.sound fresh.valid

abort_pake-IsSound :
    (s : Session)
    → IsSound s
    → s.sock ≢ minus_one
    → s.state ≡ ls_pake_wait_proof
    → IsSound (abort_pake s)
unfolding abort_pake
abort_pake-IsSound s v n w = ground arith

established-IsSound :
    (s : Session)
    → IsSound s
    → s.sock ≢ minus_one
    → s.state ≡ ls_pake_wait_proof
    → IsSound (established ls_pake_ok (record s { srp = none }))
established-IsSound s v n w = ground arith

pake3_proof-IsValid :
    (env : Env) (line : Bytes) (i handle : ℕ) (d : Device)
    → IsLive i d
    → (slot i d).state ≡ ls_pake_wait_proof
    → IsValid d
    → IsValid (pake3_proof env line i handle d)
unfolding pake3_proof update_slot keyed abort_pake
pake3_proof-IsValid env line i handle d l w v =
    elim (Option-cases (decode_payload env line srp_proof_len)) [
      | inl e ↦ rw (pake3_proof, e) (send_err-IsValid env _ _ _ (aborted d v refl))
      | inr (m1, e) ↦ elim (Bool-cases (length m1 == srp_proof_len)) [
        | inr f ↦ rw (pake3_proof, e, f) (send_err-IsValid env _ _ _ (aborted d v refl))
        | inl f ↦ elim (Option-cases (env.srp_proof handle m1)) [
          | inl g ↦
              rw (pake3_proof, e, f, g)
                (send_err-IsValid env _ _ _ (aborted _ (same-IsValid refl refl v) refl))
          | inr (m2, g) ↦
              rw (pake3_proof, e, f, g) (accepted (codes "PAKE4:" ++ env.base64_encode m2))
        ]
      ]
    ]
  where
    aborted :
        (d' : Device) → IsValid d' → slot i d' ≡ slot i d → IsValid (update_slot i abort_pake d')
    aborted d' v' q =
        update_slot-IsValid i abort_pake d' refl
          (rw q (abort_pake-IsSound (slot i d) (slot-IsSound i d v) l w)) v'

    no_handle : Session → Session
    no_handle s = record s { srp = none }

    proved : Device
    proved = record d {
      password =
          Password.note_success (env.flash_ok d.writes) env.now_us (slot i d).peer_ip d.password;
      writes = d.writes + 1;
    }

    sent : Bytes → Device
    sent reply = send_line env (slot i d).sock reply (update_slot i no_handle proved)

    accepted : (reply : Bytes) → IsValid (update_slot i (established ls_pake_ok) (sent reply))
    accepted reply =
        let r = send_line-Replies env (slot i d).sock reply (update_slot i no_handle proved) in
        let keyless : keyed (slot i d).state ≡ false = rw w refl in
        let held = replied-slot i no_handle proved (sent reply) l r keyless in
        finish-IsValid i no_handle (established ls_pake_ok) proved (sent reply) l refl r refl
          (rw held (established-IsSound (slot i d) (slot-IsSound i d v) l w))
          (same-IsValid refl refl v)

handle_pake3-IsValid :
    (env : Env) (line : Bytes) (i : ℕ) (d : Device)
    → IsLive i d
    → IsValid d
    → IsValid (handle_pake3 env line i d)
unfolding handle_pake3
handle_pake3-IsValid env line i d l v = elim (State-cases ls_pake_wait_proof (slot i d).state) [
  | inr n ↦ ground (arith, send_err-IsValid env (slot i d).sock (codes "SEQ") d v)
  | inl w ↦ elim (Option-cases (slot i d).srp) [
    | inl e ↦ rw (handle_pake3, w, e) (send_err-IsValid env _ _ _ v)
    | inr (handle, e) ↦ rw (handle_pake3, w, e) (pake3_proof-IsValid env line i handle d l w v)
  ]
]

-- Every line of the password handshake keeps the state valid.
pub pake_handle_line-IsValid :
    (env : Env) (line : Bytes) (sock : ℤ) (d d' : Device)
    → IsValid d
    → pake_handle_line env line sock d ≡ some d'
    → IsValid d'
unfolding pake_handle_line
pake_handle_line-IsValid env line sock d d' v h = elim (Option-cases (Session.find sock d.pool)) [
  | inl e ↦ ground (arith, e, send_err-IsValid env sock (codes "NOSESSION") d v)
  | inr (i, e) ↦
      let l = found-IsLive sock i d e in
      ground
        (arith, e, handle_pake1-IsValid env line i d l v, handle_pake3-IsValid env line i d l v)
]
