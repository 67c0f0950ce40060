-- ===== src/Frame.antt =====
-- src/security/enc_frame.[ch]: encrypted lines in both directions, with a counter nonce for each, and
-- `security_send_line` of src/security/pake_handler.c. A line is handled by one task from its arrival
-- to its last reply, so the second look at the session under the send lock finds what the first did.
pub mod Effects
pub mod Nonces
use cything.Prelude.{
  ℕ, ◌+◌, ◌-◌, ◌*◌, ◌/◌, ◌%◌, ◌^◌, Bool, true, false, ◌&&◌, ◌||◌, not, Option, none, some, [], ◌∷◌,
  ◌++◌, ℤ, ◌==◌, ltb, leb, if◌then◌else◌, length, take, drop,
}
use cything.Prelude.Bytes.{Bytes, codes, has_prefix, split_comma}
use cything.Session
use cything.Session.{Session, State, ls_pake_ok, ls_auth_ok}
use cything.Device.{Env, Device, slot, update_slot, send, decode}

abbrev pub nonce_len : ℕ
nonce_len = 12

abbrev pub tag_len : ℕ
tag_len = 16

abbrev pub plain_max : ℕ
plain_max = 768

abbrev pub dir_to_dev : ℕ
dir_to_dev = 1

abbrev pub dir_to_app : ℕ
dir_to_app = 2

-- The receive buffer, TCP_RECEIVE_DATA_LENGTH.
abbrev pub rx_capacity : ℕ
rx_capacity = 5120

-- `session_keyed` for a session that exists.
unfoldable pub keyed : State → Bool
keyed ls_pake_ok = true
keyed ls_auth_ok = true
keyed _ = false

-- `put_u32` and `put_u64`, big end first.
unfoldable pub put_u32 : ℕ → Bytes
put_u32 v = (v / 2 ^ 24 % 256) ∷ (v / 2 ^ 16 % 256) ∷ (v / 2 ^ 8 % 256) ∷ (v % 256) ∷ []

unfoldable pub put_u64 : ℕ → Bytes
put_u64 v = put_u32 (v / 2 ^ 32 % 2 ^ 32) ++ put_u32 (v % 2 ^ 32)

-- `get_u32` and `get_u64` of the first bytes of a block.
unfoldable pub get_u32 : Bytes → ℕ
get_u32 (a ∷ b ∷ c ∷ d ∷ s) = a * 2 ^ 24 + b * 2 ^ 16 + c * 2 ^ 8 + d
get_u32 _ = 0

unfoldable pub get_u64 : Bytes → ℕ
get_u64 p = get_u32 p * 2 ^ 32 + get_u32 (drop 4 p)

abbrev pub enc_prefix : Bytes
enc_prefix = codes "ENC:"

-- What the parts of a frame decode to: the nonce and the ciphertext.
unfoldable pub split_frame : Env → Bytes → Option (Bytes × Bytes)
split_frame env body = elim (split_comma body) [
  | none ↦ none
  | some (left, right) ↦ elim (decode env (nonce_len + 1) left) [
    | none ↦ none
    | some nonce ↦
        if not (length nonce == nonce_len) then none else elim (decode env rx_capacity right) [
          | none ↦ none
          | some ct ↦ if ltb (length ct) tag_len then none else some (nonce, ct)
        ]
  ]
]

-- From the parts of a frame to its plaintext: direction, replay, size and authentication.
unfoldable pub open_frame : Env → Session → Bytes → Bytes → Option Bytes
open_frame env s nonce ct =
    let plain_len = length ct - tag_len in
    if not (get_u32 nonce == dir_to_dev) || leb (get_u64 (drop 4 nonce)) s.rx_ctr
    then none
    else if ltb plain_max plain_len
    then none
    else elim (env.aead_decrypt s.key nonce ct) [
      | none ↦ none
      | some plain ↦ if length plain == plain_len then some plain else none
    ]

-- An accepted frame moves the counter and marks the line as encrypted.
abbrev pub accepted : Bytes → Session → Session
accepted nonce s = record s { rx_ctr = get_u64 (drop 4 nonce); rx_encrypted = true }

-- `send_plain_err`, and the line is dropped.
abbrev refuse : ℤ → Device → Device × Option Bytes
refuse sock d = (send sock (codes "ERR:ENC\n") d, none)

-- `enc_frame_unwrap`: the line to dispatch, `none` if it is dropped.
unfoldable pub unwrap : Env → Bytes → ℤ → Device → Device × Option Bytes
unwrap env line sock d =
    let is_enc = ltb 4 (length line) && has_prefix line enc_prefix in
    if not is_enc
    then elim (Session.find sock d.pool) [
      | none ↦ (d, some line)
      | some i ↦ (update_slot i (λ s. record s { rx_encrypted = false }) d, some line)
    ]
    else elim (Session.find sock d.pool) [
      | none ↦ refuse sock d
      | some i ↦
          if not (keyed (slot i d).state)
          then refuse sock d
          else elim (split_frame env (drop 4 line)) [
            | none ↦ refuse sock d
            | some (nonce, ct) ↦ elim (open_frame env (slot i d) nonce ct) [
              | none ↦ refuse sock d
              | some plain ↦ (update_slot i (accepted nonce) d, some plain)
            ]
          ]
    ]

-- The payload without the line ends behind it.
unfoldable pub strip_eol : Bytes → Bytes
strip_eol [] = []
strip_eol (c ∷ s) =
    let rest = strip_eol s in
    elim rest [ [] ↦ (if (c == b'\n') || (c == b'\r') then [] else c ∷ []) | x ∷ r ↦ c ∷ x ∷ r ]

-- The nonce of the `n`-th encrypted line to the phone.
abbrev pub tx_nonce : ℕ → Bytes
tx_nonce n = put_u32 dir_to_app ++ put_u64 n

-- `tx_ctr++` on a `uint64_t`.
abbrev pub next_ctr : ℕ → ℕ
next_ctr n = (n + 1) % 2 ^ 64

-- The frame that carries a ciphertext.
abbrev pub frame : Env → Bytes → Bytes → Bytes
frame env nonce ct =
    enc_prefix ++ env.base64_encode nonce ++ codes "," ++ env.base64_encode ct ++ codes "\n"

-- `enc_frame_send` for a session that exists.
unfoldable pub frame_to : Env → ℤ → Bytes → ℕ → Device → Device
frame_to env sock payload i d =
    let plain = strip_eol payload in
    let ctr = next_ctr (slot i d).tx_ctr in
    let d' = update_slot i (λ s. record s { tx_ctr = ctr }) d in
    if not (keyed (slot i d).state)
    then send sock payload d
    else if ltb plain_max (length plain)
    then d
    else elim (env.aead_encrypt (slot i d).key (tx_nonce ctr) plain) [
      | none ↦ d'
      | some ct ↦ send sock (frame env (tx_nonce ctr) ct) d'
    ]

-- `enc_frame_send`.
unfoldable pub frame_send : Env → ℤ → Bytes → Device → Device
unfolding frame_to
frame_send env sock payload d = elim (Session.find sock d.pool) [
  | none ↦ send sock payload d
  | some i ↦ frame_to env sock payload i d
]

-- `security_send_line`: lines that do not fit its buffer go out in the clear.
unfoldable pub send_line : Env → ℤ → Bytes → Device → Device
send_line env sock text d =
    if ltb (length text + 1) 64
    then frame_send env sock (text ++ codes "\n") d
    else send sock (codes "\n") (send sock text d)

-- `send_err`, which cuts its text to the buffer.
unfoldable pub send_err : Env → ℤ → Bytes → Device → Device
send_err env sock code d = send_line env sock (take 31 (codes "ERR:" ++ code)) d
