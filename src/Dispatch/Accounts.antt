-- ===== src/Dispatch/Accounts.antt =====
-- src/security/local_auth.c: enrolment and authentication keep the shared state valid.
use cything.Prelude.{
  ℕ, ◌≡◌, ◌≢◌, refl, [], ◌∷◌, minus_one, arith, inl, inr, Bool-cases, Option-cases, List, Option,
  none, some, false, length, ◌+◌, ◌==◌, pos, ℤ, take,
}
use cything.Prelude.Bytes.{Bytes, codes}
use cything.Session
use cything.Session.{
  Session, Role, reset_handshake, ls_new, ls_auth_wait_proof, ls_auth_ok, ls_pake_ok, role_none,
}
use cything.Session.Invariant.{IsSound}
use cything.Paired
use cything.Paired.Stored.{add-IsStored}
use cything.Device.{Env, Device, slot, update_slot}
use cything.Frame.{send_err, send_line, keyed}
use cything.Frame.Effects.{send_line-Replies}
use cything.Pake.{established}
use cything.Auth.{
  auth_nonce_len, mac_len, parse_auth1, await_auth, auth1_fresh, handle_auth1, proof, drop_proof,
  auth3_proof, handle_auth3, decode_fields, ct_equal, role_of_row, session_role, parse_enroll,
  enroll_account, handle_enroll, drop_replace, unix_time, local_auth_handle_line,
}
use cything.Dispatch.Invariant.{IsValid, send_err-IsValid, send_line-IsValid, update_slot-IsValid}
use cything.Dispatch.Slots.{
  IsLive, same-IsValid, finish-IsValid, replied-slot, slot-IsSound, found-IsLive, State-cases,
}
use cything.Dispatch.Handshakes.{Fresh, reset_slot}

await_auth-IsSound :
    (np nd key : Bytes) (index : ℕ) (s : Session)
    → IsSound s
    → s.sock ≢ minus_one
    → s.state ≡ ls_new
    → IsSound (await_auth np nd key index s)
await_auth-IsSound np nd key index s v n w = ground arith

auth1_fresh-IsValid :
    (env : Env) (line : Bytes) (i : ℕ) (d : Device) → Fresh i d → IsValid (auth1_fresh env line i d)
unfolding auth1_fresh
auth1_fresh-IsValid env line i d f = elim (Option-cases (parse_auth1 env line)) [
  | inl a ↦ rw (auth1_fresh, a) (send_err-IsValid env _ _ _ f.valid)
  | inr ((sub, np), a) ↦ elim (Option-cases (Paired.find sub d.paired.ram)) [
    | inl b ↦ rw (auth1_fresh, a, b) (send_err-IsValid env _ _ _ f.valid)
    | inr (index, b) ↦ elim (Option-cases (Paired.get (pos index) d.paired.ram)) [
      | inl c ↦ rw (auth1_fresh, a, b, c) (send_err-IsValid env _ _ _ f.valid)
      | inr (entry, c) ↦
          let nd = take auth_nonce_len (env.random d.draws) in
          rw (auth1_fresh, a, b, c)
            (send_line-IsValid env _ _ _ (
              update_slot-IsValid i (await_auth np nd entry.key index)
                (record d { draws = d.draws + 1 }) refl
                (await_auth-IsSound np nd entry.key index (slot i d) f.sound f.live f.new)
                (same-IsValid refl refl f.valid)))
    ]
  ]
]

handle_auth1-IsValid :
    (env : Env) (line : Bytes) (i : ℕ) (d : Device)
    → IsLive i d
    → IsValid d
    → IsValid (handle_auth1 env line i d)
unfolding handle_auth1
handle_auth1-IsValid env line i d l v =
    auth1_fresh-IsValid env line i (update_slot i reset_handshake d) (reset_slot i d l v)

drop_proof-IsSound :
    (s : Session)
    → IsSound s
    → s.sock ≢ minus_one
    → s.state ≡ ls_auth_wait_proof
    → IsSound (drop_proof s)
drop_proof-IsSound s v n w = ground arith

-- The two writes of an accepted proof, around the reply.
authenticated-IsSound :
    (key : Bytes) (role : Role) (s : Session)
    → IsSound s
    → s.sock ≢ minus_one
    → s.state ≡ ls_auth_wait_proof
    → role ≢ role_none
    → IsSound (established ls_auth_ok (record s { key = key; role = role }))
authenticated-IsSound key role s v n w r = ground arith

session_role_some : (role : ℕ) → session_role role ≢ role_none
session_role_some role h = ground arith

role_of_row_some : (s : Session) (d : Device) → role_of_row s d ≢ role_none
role_of_row_some s d h = elim (Option-cases (Paired.get s.paired_index d.paired.ram)) [
  | inl e ↦ ground (arith, e)
  | inr (row, e) ↦ session_role_some row.role (ground (arith, e))
]

module _ (env : Env) (line : Bytes) (i : ℕ) (d : Device) (l : IsLive i d) (v : IsValid d)
    (w : (slot i d).state ≡ ls_auth_wait_proof) where
  refused :
      (code : Bytes) → IsValid (send_err env (slot i d).sock code (update_slot i drop_proof d))
  refused code = send_err-IsValid env _ _ _ (
      update_slot-IsValid i drop_proof d refl
        (drop_proof-IsSound (slot i d) (slot-IsSound i d v) l w) v)

  keep : Bytes → Session → Session
  keep key s = record s { key = key; role = role_of_row (slot i d) d }

  accepted :
      (key reply : Bytes)
      → IsValid (
          update_slot i
            (established ls_auth_ok)
            (send_line env (slot i d).sock reply (update_slot i (keep key) d)))
  unfolding keep keyed
  accepted key reply =
      let sent = send_line env (slot i d).sock reply (update_slot i (keep key) d) in
      let r = send_line-Replies env (slot i d).sock reply (update_slot i (keep key) d) in
      let keyless : keyed (slot i d).state ≡ false = rw w refl in
      let held = replied-slot i (keep key) d sent l r keyless in
      finish-IsValid i (keep key) (established ls_auth_ok) d sent l refl r refl
        (rw held (
          authenticated-IsSound key _ (slot i d) (slot-IsSound i d v) l w
            (role_of_row_some (slot i d) d)))
        v

  auth3_decoded-IsValid :
      (o : Option (List Bytes))
      → decode_fields env ((mac_len + 1) ∷ []) 6 line ≡ o
      → IsValid (auth3_proof env line i d)
  unfolding auth3_proof keep
  auth3_decoded-IsValid none e = rw (auth3_proof, e) (send_err-IsValid env _ _ _ v)
  auth3_decoded-IsValid (some []) e = rw (auth3_proof, e) (send_err-IsValid env _ _ _ v)
  auth3_decoded-IsValid (some (got ∷ [])) e = elim (Bool-cases (length got == mac_len)) [
    | inr f ↦ rw (auth3_proof, e, f) (send_err-IsValid env _ _ _ v)
    | inl f ↦
        elim (Bool-cases (
          ct_equal got
            (proof env (slot i d).key (codes "phn") (slot i d).nonce_dev (slot i d).nonce_phone))) [
              | inr g ↦ rw (auth3_proof, e, f, g) (refused (codes "BADAUTH"))
              | inl g ↦ rw (auth3_proof, e, f, g) (accepted _ _)
            ]
  ]
  auth3_decoded-IsValid (some (got ∷ x ∷ xs)) e = rw (auth3_proof, e) (send_err-IsValid env _ _ _ v)

handle_auth3-IsValid :
    (env : Env) (line : Bytes) (i : ℕ) (d : Device)
    → IsLive i d
    → IsValid d
    → IsValid (handle_auth3 env line i d)
unfolding handle_auth3
handle_auth3-IsValid env line i d l v = elim (State-cases ls_auth_wait_proof (slot i d).state) [
  | inr n ↦ ground (arith, send_err-IsValid env (slot i d).sock (codes "SEQ") d v)
  | inl w ↦ rw (handle_auth3, w) (auth3_decoded-IsValid env line i d l v w _ refl)
]

enrolled-IsSound :
    (index role : ℕ) (s : Session)
    → IsSound s
    → s.sock ≢ minus_one
    → s.state ≡ ls_pake_ok
    → IsSound (record s { paired_index = pos index; role = session_role role })
enrolled-IsSound index role s v n w = let some_role = session_role_some role in ground arith

enroll_account-IsValid :
    (env : Env) (sub email : Bytes) (i : ℕ) (d : Device)
    → IsLive i d
    → (slot i d).state ≡ ls_pake_ok
    → IsValid d
    → IsValid (enroll_account env sub email i d)
unfolding enroll_account
enroll_account-IsValid env sub email i d l w v = elim (Option-cases added.1) [
  | inl e ↦ rw (enroll_account, e) (send_err-IsValid env _ _ _ listed)
  | inr (a, e) ↦
      rw (enroll_account, e)
        (same-IsValid refl refl (
          send_line-IsValid env _ _ _ (
            update_slot-IsValid i
              (λ s. record s { paired_index = pos a.index; role = session_role a.role }) _ refl
              (enrolled-IsSound a.index a.role (slot i d) (slot-IsSound i d v) l w) listed)))
]
  where
    added : Paired.Paired × Option Paired.Added
    added =
        Paired.add sub email (env.random d.draws) (unix_time env) (env.flash_ok d.writes) d.paired

    listed : IsValid (record d { paired = added.0; draws = d.draws + 1; writes = d.writes + 1 })
    listed = record {
      pool_size = v.pool_size;
      sound = v.sound;
      distinct = v.distinct;
      paired =
          add-IsStored sub email (env.random d.draws) (unix_time env) (env.flash_ok d.writes)
            d.paired v.paired;
    }

handle_enroll-IsValid :
    (env : Env) (line : Bytes) (i : ℕ) (d : Device)
    → IsLive i d
    → IsValid d
    → IsValid (handle_enroll env line i d)
unfolding handle_enroll
handle_enroll-IsValid env line i d l v = elim (State-cases ls_pake_ok (slot i d).state) [
  | inr n ↦ ground (arith, send_err-IsValid env (slot i d).sock (codes "SEQ") d v)
  | inl w ↦ elim (Bool-cases (slot i d).rx_encrypted) [
    | inr e ↦ rw (handle_enroll, w, e) (send_err-IsValid env _ _ _ v)
    | inl e ↦ elim (Option-cases (parse_enroll env (drop_replace line))) [
      | inl f ↦ rw (handle_enroll, w, e, f) (send_err-IsValid env _ _ _ v)
      | inr ((sub, email), f) ↦
          rw (handle_enroll, w, e, f) (enroll_account-IsValid env sub email i d l w v)
    ]
  ]
]

-- Every line of enrolment and authentication keeps the state valid.
pub local_auth_handle_line-IsValid :
    (env : Env) (line : Bytes) (sock : ℤ) (d d' : Device)
    → IsValid d
    → local_auth_handle_line env line sock d ≡ some d'
    → IsValid d'
unfolding local_auth_handle_line
local_auth_handle_line-IsValid env line sock d d' v h =
    elim (Option-cases (Session.find sock d.pool)) [
      | inl e ↦ ground (arith, e, send_err-IsValid env sock (codes "NOSESSION") d v)
      | inr (i, e) ↦
          let l = found-IsLive sock i d e in
          ground (
            arith,
            e,
            handle_enroll-IsValid env line i d l v,
            handle_auth1-IsValid env line i d l v,
            handle_auth3-IsValid env line i d l v,
          )
    ]
