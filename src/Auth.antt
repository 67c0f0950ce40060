-- ===== src/Auth.antt =====
-- src/security/local_auth.[ch]: enrolment, and the reconnect handshake AUTH1 to AUTHOK.
pub mod Proofs
use cything.Prelude.{
  ℕ, ◌+◌, ◌-◌, Bool, true, false, ◌&&◌, ◌||◌, not, Option, none, some, List, [], ◌∷◌, ◌++◌, ℤ, pos,
  minus_one, ◌==◌, ltb, leb, if◌then◌else◌, length, take, drop, get_elem?,
}
use Prim.Native.Nat.{bit_or, bit_xor}
use mathlib.Core.Option
use cything.Prelude.Bytes.{Bytes, codes, has_prefix, bytes_eq, split_comma}
use cything.Session
use cything.Session.{
  Session, Role, role_none, role_user, role_owner, ls_new, ls_pake_ok, ls_auth_wait_proof,
  ls_auth_ok, reset_handshake, zeros,
}
use cything.Paired
use cything.Paired.{Entry, Added, paired_sub_max, paired_email_max, paired_role_owner}
use cything.Events
use cything.Device.{Env, Device, slot, update_slot, decode}
use cything.Frame.{send_line, send_err}
use cything.Pake.{established}

abbrev pub auth_nonce_len : ℕ
auth_nonce_len = 16

abbrev pub mac_len : ℕ
mac_len = 32

-- `local_auth_hkdf32`: RFC 5869 for one block of output.
unfoldable pub hkdf32 : Env → Bytes → Bytes → Bytes → Bytes
hkdf32 env ikm salt info = env.hmac (env.hmac salt ikm) (take 63 info ++ (1 ∷ []))

-- The loop of `local_auth_ct_equal`, over two blocks of one length.
unfoldable pub ct_diff : Bytes → Bytes → ℕ → ℕ
ct_diff [] b d = d
ct_diff (x ∷ a) [] d = d
ct_diff (x ∷ a) (y ∷ b) d = ct_diff a b (bit_or d (bit_xor x y))

unfoldable pub ct_equal : Bytes → Bytes → Bool
unfolding ct_diff
ct_equal a b = ct_diff a b 0 == 0

-- `proof`: HMAC(key, label ‖ first ‖ second).
unfoldable pub proof : Env → Bytes → Bytes → Bytes → Bytes → Bytes
proof env key label first second = env.hmac key (label ++ first ++ second)

-- The loop of `decode_fields`: one field of the text for each buffer size.
unfoldable pub decode_list : Env → List ℕ → Bytes → Option (List Bytes)
decode_list env [] text = some []
decode_list env (size ∷ []) text = elim (split_comma text) [
  | none ↦ Option.map (λ b. b ∷ []) (decode env size text)
  | some r ↦ none
]
decode_list env (size ∷ next ∷ sizes) text = elim (split_comma text) [
  | none ↦ none
  | some (field, rest) ↦ elim (decode env size field) [
    | none ↦ none
    | some b ↦ Option.map (λ bs. b ∷ bs) (decode_list env (next ∷ sizes) rest)
  ]
]

-- `decode_fields` behind a prefix of `n` bytes.
unfoldable pub decode_fields : Env → List ℕ → ℕ → Bytes → Option (List Bytes)
unfolding decode_list
decode_fields env sizes n line =
    if leb (length line) n then none else decode_list env sizes (drop n line)

unfoldable pub commas : Bytes → ℕ
commas [] = 0
commas (c ∷ s) = (if c == b',' then 1 else 0) + commas s

-- `count_fields` behind a prefix of `n` bytes.
unfoldable pub count_fields : ℕ → Bytes → ℕ
unfolding commas
count_fields n line = if leb (length line) n then 0 else 1 + commas (drop n line)

unfoldable pub printable : Bytes → Bool
printable [] = true
printable (c ∷ s) = not (ltb c 0x20) && (not (c == 0x7f) && printable s)

-- `to_cstr` into a buffer of `size` bytes.
unfoldable pub to_cstr : ℕ → Bytes → Option Bytes
unfolding printable
to_cstr size s =
    if (length s == 0) || (leb size (length s) || not (printable s)) then none else some s

-- `now_unix`: 0 until the clock is set.
abbrev pub unix_time : Env → ℕ
unix_time env = if ltb 1600000000 env.now_unix then env.now_unix else 0

abbrev pub role_word : ℕ → Bytes
role_word role = if role == paired_role_owner then codes "owner" else codes "user"

abbrev pub session_role : ℕ → Role
session_role role = if role == paired_role_owner then role_owner else role_user

-- A trailing ",replace" is dropped.
unfoldable pub drop_replace : Bytes → Bytes
drop_replace line =
    let n = length line - 8 in
    if ltb 8 (length line) && bytes_eq (drop n line) (codes ",replace") then take n line else line

-- The sub and the label of an ENROLL line.
unfoldable pub parse_enroll : Env → Bytes → Option (Bytes × Bytes)
unfolding decode_fields count_fields to_cstr
parse_enroll env line =
    let n = count_fields 7 line in
    let sizes =
      (paired_sub_max + 1)
      ∷ (paired_email_max + 1)
      ∷ (if n == 3 then (paired_sub_max + 1) ∷ [] else []) in
    if not (n == 2) && not (n == 3) then none else elim (decode_fields env sizes 7 line) [
      | some (f_sub ∷ f_email ∷ rest) ↦ elim (to_cstr (paired_sub_max + 1) f_sub) [
        | none ↦ none
        | some sub ↦ Option.map (λ email. (sub, email)) (to_cstr (paired_email_max + 1) f_email)
      ]
      | _ ↦ none
    ]

-- `handle_enroll` with a line that was read, in a session that may enrol.
unfoldable pub enroll_account : Env → Bytes → Bytes → ℕ → Device → Device
enroll_account env sub email i d =
    let (paired, added) =
      Paired.add sub email (env.random d.draws) (unix_time env) (env.flash_ok d.writes) d.paired in
    let d' = record d { paired = paired; draws = d.draws + 1; writes = d.writes + 1 } in
    elim added [
      | none ↦ send_err env (slot i d).sock (codes "FULL") d'
      | some a ↦
          let enrolled =
            update_slot i (λ s. record s { paired_index = pos a.index; role = session_role a.role })
              d' in
          let reply =
            codes "ENROLLED:" ++ env.base64_encode a.key ++ codes "," ++ role_word a.role in
          let sent = send_line env (slot i d).sock reply enrolled in
          record sent {
            events =
                Events.push (codes "paired") sub (role_word a.role) (unix_time env)
                  (env.flash_ok sent.writes) sent.events;
            writes = sent.writes + 1;
          }
    ]

unfoldable pub handle_enroll : Env → Bytes → ℕ → Device → Device
unfolding enroll_account parse_enroll drop_replace
handle_enroll env line i d =
    let refused = send_err env (slot i d).sock (codes "SEQ") d in
    let read : Device = elim (parse_enroll env (drop_replace line)) [
      | none ↦ send_err env (slot i d).sock (codes "BADFMT") d
      | some (sub, email) ↦ enroll_account env sub email i d
    ] in
    elim (slot i d).state [
      | ls_pake_ok ↦ (if (slot i d).rx_encrypted then read else refused)
      | _ ↦ refused
    ]

-- The sub and the phone's nonce of an AUTH1 line.
unfoldable pub parse_auth1 : Env → Bytes → Option (Bytes × Bytes)
unfolding decode_fields count_fields to_cstr
parse_auth1 env line =
    let n = count_fields 6 line in
    let sizes =
      (paired_sub_max + 1)
      ∷ (if n == 3
          then (paired_sub_max + 1) ∷ (auth_nonce_len + 1) ∷ []
          else (auth_nonce_len + 1) ∷ []) in
    if not (n == 2) && not (n == 3) then none else elim (decode_fields env sizes 6 line) [
      | none ↦ none
      | some fs ↦ elim (get_elem? fs 0) [
        | none ↦ none
        | some f_sub ↦ elim (to_cstr (paired_sub_max + 1) f_sub) [
          | none ↦ none
          | some sub ↦ elim (get_elem? fs (n - 1)) [
            | none ↦ none
            | some f_np ↦ if length f_np == auth_nonce_len then some (sub, f_np) else none
          ]
        ]
      ]
    ]

-- What AUTH1 puts into the slot for an entry: K_account until AUTHOK.
abbrev pub await_auth : Bytes → Bytes → Bytes → ℕ → Session → Session
await_auth np nd key index s = record s {
  nonce_phone = np;
  nonce_dev = nd;
  key = key;
  paired_index = pos index;
  state = ls_auth_wait_proof;
}

-- `handle_auth1` once the handshake was reset.
unfoldable pub auth1_fresh : Env → Bytes → ℕ → Device → Device
unfolding parse_auth1
auth1_fresh env line i d =
    let sock = (slot i d).sock in
    elim (parse_auth1 env line) [
      | none ↦ send_err env sock (codes "BADFMT") d
      | some (sub, np) ↦ elim (Paired.find sub d.paired.ram) [
        | none ↦ send_err env sock (codes "UNKNOWN") d
        | some index ↦ elim (Paired.get (pos index) d.paired.ram) [
          | none ↦ send_err env sock (codes "UNKNOWN") d
          | some entry ↦
              let nd = take auth_nonce_len (env.random d.draws) in
              let mac = proof env entry.key (codes "dev") np nd in
              let reply =
                codes "AUTH2:" ++ env.base64_encode nd ++ codes "," ++ env.base64_encode mac in
              send_line env sock reply (
                update_slot i (await_auth np nd entry.key index) (record d { draws = d.draws + 1 }))
        ]
      ]
    ]

unfoldable pub handle_auth1 : Env → Bytes → ℕ → Device → Device
unfolding auth1_fresh
handle_auth1 env line i d = auth1_fresh env line i (update_slot i reset_handshake d)

abbrev pub drop_proof : Session → Session
drop_proof s = record s { key = zeros 32; paired_index = minus_one; state = ls_new }

-- The role of the session's row, when its proof is accepted.
abbrev pub role_of_row : Session → Device → Role
role_of_row s d = elim (Paired.get s.paired_index d.paired.ram) [
  | none ↦ role_user
  | some entry ↦ session_role entry.role
]

abbrev pub role_is_owner : Role → Bool
role_is_owner role_owner = true
role_is_owner _ = false

-- `handle_auth3` for a session that awaits its proof.
unfoldable pub auth3_proof : Env → Bytes → ℕ → Device → Device
auth3_proof env line i d =
    let s = slot i d in
    let bad = send_err env s.sock (codes "BADFMT") d in
    elim (decode_fields env ((mac_len + 1) ∷ []) 6 line) [
      | some (got ∷ []) ↦
          let expected = proof env s.key (codes "phn") s.nonce_dev s.nonce_phone in
          let key = hkdf32 env s.key (s.nonce_phone ++ s.nonce_dev) (codes "cy-local-v1") in
          let role = role_of_row s d in
          let reply = (if role_is_owner role then codes "AUTHOK:owner" else codes "AUTHOK:user") in
          if not (length got == mac_len)
          then bad
          else if not (ct_equal got expected)
          then send_err env s.sock (codes "BADAUTH") (update_slot i drop_proof d)
          else update_slot i (established ls_auth_ok) (
              send_line env s.sock reply
                (update_slot i (λ t. record t { key = key; role = role }) d))
      | _ ↦ bad
    ]

unfoldable pub handle_auth3 : Env → Bytes → ℕ → Device → Device
unfolding auth3_proof
handle_auth3 env line i d = elim (slot i d).state [
  | ls_auth_wait_proof ↦ auth3_proof env line i d
  | _ ↦ send_err env (slot i d).sock (codes "SEQ") d
]

-- `local_auth_handle_line`: `none` if the line is not of these.
unfoldable pub local_auth_handle_line : Env → Bytes → ℤ → Device → Option Device
unfolding handle_enroll handle_auth1 handle_auth3
local_auth_handle_line env line sock d =
    let is_enroll = has_prefix line (codes "ENROLL:") in
    let is_auth1 = has_prefix line (codes "AUTH1:") in
    let is_auth3 = has_prefix line (codes "AUTH3:") in
    if not is_enroll && (not is_auth1 && not is_auth3)
    then none
    else elim (Session.find sock d.pool) [
      | none ↦ some (send_err env sock (codes "NOSESSION") d)
      | some i ↦ some (
          if is_enroll
          then handle_enroll env line i d
          else if is_auth1
          then handle_auth1 env line i d
          else handle_auth3 env line i d)
    ]
