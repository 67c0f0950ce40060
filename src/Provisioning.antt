-- ===== src/Provisioning.antt =====
-- src/aws/provisioning.c: giving the device its identity in the cloud, line by line. A line is the C
-- string in the receive buffer; each handled line is answered with one line.
pub mod Certificate
pub mod Finishing
pub mod Loading
use mathlib.Core.Option
use cything.Prelude.{
  ℕ, suc, ◌+◌, ◌-◌, ◌*◌, Bool, true, false, ◌&&◌, ◌||◌, not, Option, none, some, List, [], ◌∷◌,
  ◌++◌, ◌==◌, leb, ltb, if◌then◌else◌, length, take, drop, ℤ, pos, negsuc, ◌==ℤ◌,
}
use cything.Prelude.Bytes.{Bytes, codes, has_prefix, split_byte}

-- The sizes of the identity's fields, and CERT_B64_BUF_LEN.
abbrev pub device_id_max : ℕ
device_id_max = 40

abbrev pub source_terminal_id_max : ℕ
source_terminal_id_max = 40

abbrev pub endpoint_max : ℕ
endpoint_max = 128

abbrev pub cert_pem_max : ℕ
cert_pem_max = 2048

abbrev pub cert_b64_buf_len : ℕ
cert_b64_buf_len = 2732

-- `handshake_state_t`.
pub data HandshakeState : Type 0 where
  hs_idle hs_got_prov hs_sent_csr hs_receiving_cert : HandshakeState

-- What a line's handling takes from outside: the claim credentials' answer to a request id, the
-- parts of mbedTLS that make a key and a request, and the outcome of each write to NVS.
pub record ProvEnv : Type 0 where
  pub claim : Bytes → Option Bytes
  pub parses : Bytes → Bool
  pub generate_key : Option Bytes
  -- `mbedtls_x509write_csr_der` under a key, then base64.
  pub write_csr : Bytes → Option Bytes
  pub base64_decode : Bytes → Option Bytes
  pub nvs_ok : ℕ → Bool

-- The four globals, or the four keys in NVS.
pub record Identity : Type 0 where
  pub device_id : Bytes
  pub source_terminal_id : Bytes
  pub iot_endpoint : Bytes
  pub cert_pem : Bytes

-- The file's state, what NVS holds of the identity and of the key, and whether a reboot is armed.
pub record Prov : Type 0 where
  pub active : Bool
  pub state : HandshakeState
  pub pending_source_terminal_id : Bytes
  pub pending_iot_endpoint : Bytes
  pub pending_device_id : Bytes
  pub cert_b64 : Bytes
  pub cert_total_chunks : ℤ
  pub cert_next_seq : ℤ
  pub identity : Identity
  pub key_pem : Bytes
  pub nvs : Identity
  pub nvs_opkey : Option Bytes
  pub rebooting : Bool

unfoldable pub trim_trailing_ws : Bytes → Bytes
trim_trailing_ws [] = []
trim_trailing_ws (c ∷ s) =
    let rest = trim_trailing_ws s in
    elim rest [
      | [] ↦ (if (c == 10) || ((c == 13) || (c == 32)) then [] else c ∷ [])
      | x ∷ r ↦ c ∷ x ∷ r
    ]

-- `snprintf(buf, size, "%s", s)`.
abbrev pub clamp : ℕ → Bytes → Bytes
clamp size s = take (size - 1) s

-- The value of the digits in front of a text.
unfoldable pub leading_digits : ℕ → Bytes → ℕ
leading_digits n [] = n
leading_digits n (c ∷ s) =
    let rest = leading_digits (n * 10 + (c - 48)) s in if leb 48 c && leb c 57 then rest else n

-- `atoi`, for numbers that an `int` holds: white space, a sign, digits.
unfoldable pub atoi : Bytes → ℤ
unfolding leading_digits
atoi [] = pos 0
atoi (c ∷ s) =
    let rest = atoi s in
    if (c == 32) || (leb 9 c && leb c 13)
    then rest
    else if c == b'-'
    then negated (leading_digits 0 s)
    else if c == b'+'
    then pos (leading_digits 0 s)
    else pos (leading_digits 0 (c ∷ s))
  where
    negated : ℕ → ℤ
    negated ℕ.zero = pos 0
    negated (suc n) = negsuc n

unfoldable pub next_seq : ℤ → ℤ
next_seq (pos n) = pos (suc n)
next_seq (negsuc ℕ.zero) = pos 0
next_seq (negsuc (suc n)) = negsuc n

unfoldable pub reset_handshake : Prov → Prov
reset_handshake p = record p {
  state = hs_idle;
  pending_source_terminal_id = [];
  pending_iot_endpoint = [];
  pending_device_id = [];
  cert_b64 = [];
  cert_total_chunks = pos 0;
  cert_next_seq = pos 1;
}

-- `load_or_generate_keypair`: a key that is stored and parses is used again, another is made, parsed
-- and stored. The result is the key.
unfoldable pub load_or_generate_keypair : ProvEnv → Prov → Prov × Option Bytes
load_or_generate_keypair env p = elim p.nvs_opkey [
  | some pem ↦
      if env.parses pem
      then (record p { key_pem = pem }, some pem)
      else generated (record p { key_pem = pem }) env.generate_key
  | none ↦ generated p env.generate_key
]
  where
    generated : Prov → Option Bytes → Prov × Option Bytes
    generated q none = (q, none)
    generated q (some pem) =
        if not (env.parses pem)
        then (record q { key_pem = pem }, none)
        else if env.nvs_ok 0
        then (record q { key_pem = pem; nvs_opkey = some pem }, some pem)
        else (record q { key_pem = pem }, none)

-- `build_csr_base64`.
unfoldable pub build_csr_base64 : ProvEnv → Prov → Prov × Option Bytes
unfolding load_or_generate_keypair
build_csr_base64 env p =
    let (p', key) = load_or_generate_keypair env p in
    (p', elim key [ none ↦ none | some pem ↦ env.write_csr pem ])

abbrev pub ack : Bytes
ack = codes "ACK"

-- The line "PROV:<sourceTerminalId>,<deviceType>,<iotEndpoint>".
unfoldable pub handle_prov : Bytes → Prov → Prov × Bytes
handle_prov rest p = elim (split_byte b',' rest) [
  | none ↦ (p, ack)
  | some (source, tail) ↦ elim (split_byte b',' tail) [
    | none ↦ (p, ack)
    | some (kind, endpoint) ↦ (
      record p {
        pending_source_terminal_id = clamp source_terminal_id_max source;
        pending_iot_endpoint = clamp endpoint_max endpoint;
        state = hs_got_prov;
      },
      ack,
    )
  ]
]

unfoldable pub handle_csrreq : ProvEnv → Prov → Prov × Bytes
unfolding build_csr_base64
handle_csrreq env p =
    let (p', csr) = build_csr_base64 env p in
    elim csr [
      | none ↦ (p', ack)
      | some b64 ↦ (record p' { state = hs_sent_csr }, codes "CSR:" ++ b64)
    ]

unfoldable pub handle_devid : Bytes → Prov → Prov × Bytes
handle_devid id p = (
  record p {
    pending_device_id = clamp device_id_max id;
    state = hs_receiving_cert;
    cert_b64 = [];
    cert_total_chunks = pos 0;
    cert_next_seq = pos 1;
  },
  ack,
)

-- `mbedtls_base64_decode` of what was collected, into a buffer of `cert_pem_max` - 1 bytes.
unfoldable pub decode_cert : ProvEnv → Prov → Prov × Bytes
unfolding reset_handshake
decode_cert env p = elim (env.base64_decode p.cert_b64) [
  | none ↦ (reset_handshake p, ack)
  | some pem ↦
      if ltb (cert_pem_max - 1) (length pem)
      then (reset_handshake p, ack)
      else (record p { identity = record p.identity { cert_pem = pem } }, codes "CERTOK")
]

-- `s_state == HS_RECEIVING_CERT`.
unfoldable pub is_receiving : HandshakeState → Bool
is_receiving hs_receiving_cert = true
is_receiving hs_idle = false
is_receiving hs_got_prov = false
is_receiving hs_sent_csr = false

-- The part of the line "CERT:<seq>:<total>:<chunk>" behind the parsing.
unfoldable pub take_chunk : ProvEnv → ℤ → ℤ → Bytes → Prov → Prov × Bytes
unfolding decode_cert next_seq reset_handshake is_receiving
take_chunk env seq total chunk p =
    let known_total = not (p.cert_total_chunks ==ℤ pos 0) in
    let added = record p {
      cert_total_chunks = total;
      cert_b64 = p.cert_b64 ++ chunk;
      cert_next_seq = next_seq p.cert_next_seq;
    } in
    if not (is_receiving p.state)
      || (not (seq ==ℤ p.cert_next_seq) || (known_total && not (total ==ℤ p.cert_total_chunks)))
    then (p, ack)
    else if leb cert_b64_buf_len (length p.cert_b64 + length chunk)
    then (reset_handshake (record p { cert_total_chunks = total }), ack)
    else if seq ==ℤ total
    then decode_cert env added
    else (added, ack)

unfoldable pub handle_cert : ProvEnv → Bytes → Prov → Prov × Bytes
unfolding take_chunk atoi
handle_cert env rest p = elim (split_byte b':' rest) [
  | none ↦ (p, ack)
  | some (seq, tail) ↦ elim (split_byte b':' tail) [
    | none ↦ (p, ack)
    | some (total, chunk) ↦ take_chunk env (atoi rest) (atoi tail) chunk p
  ]
]

-- The four writes of PFIN, up to the first that fails: what NVS holds, and whether all succeeded.
unfoldable pub store_identity : ProvEnv → Identity → Identity → Identity × Bool
store_identity env new old =
    let n1 = record old { device_id = new.device_id } in
    let n2 = record n1 { source_terminal_id = new.source_terminal_id } in
    let n3 = record n2 { iot_endpoint = new.iot_endpoint } in
    if not (env.nvs_ok 0)
    then (old, false)
    else if not (env.nvs_ok 1)
    then (n1, false)
    else if not (env.nvs_ok 2)
    then (n2, false)
    else if not (env.nvs_ok 3)
    then (n3, false)
    else (new, true)

-- PFIN without a handshake that got as far as a certificate: at most the channel changes.
unfoldable pub repair : ProvEnv → Prov → Prov
unfolding reset_handshake
repair env p =
    let id = record p.identity {
      source_terminal_id = clamp source_terminal_id_max p.pending_source_terminal_id;
    } in
    if p.active && not (length p.pending_source_terminal_id == 0)
    then reset_handshake (record p {
      identity = id;
      nvs =
          (if env.nvs_ok 0
            then record p.nvs { source_terminal_id = id.source_terminal_id }
            else p.nvs);
    })
    else reset_handshake p

-- The identity that PFIN commits.
unfoldable pub new_identity : Prov → Identity
new_identity p = record {
  device_id = clamp device_id_max p.pending_device_id;
  source_terminal_id = clamp source_terminal_id_max p.pending_source_terminal_id;
  iot_endpoint = clamp endpoint_max p.pending_iot_endpoint;
  cert_pem = p.identity.cert_pem;
}

unfoldable pub handle_pfin : ProvEnv → Prov → Prov × Bytes
unfolding repair new_identity store_identity reset_handshake is_receiving
handle_pfin env p =
    let (nvs, ok) = store_identity env (new_identity p) p.nvs in
    let committed = record p { identity = new_identity p; nvs = nvs } in
    if not (is_receiving p.state)
      || ((length p.identity.cert_pem == 0) || (length p.pending_device_id == 0))
    then (repair env p, ack)
    else if not ok
    then (reset_handshake committed, ack)
    else (record (reset_handshake committed) { rebooting = true }, ack)

-- `provisioning_handle_tcp_line`: `none` for a line that is not one of provisioning.
unfoldable pub provisioning_handle_tcp_line : ProvEnv → Bytes → Prov → Option (Prov × Bytes)
unfolding trim_trailing_ws handle_prov handle_csrreq handle_devid handle_cert handle_pfin
provisioning_handle_tcp_line env raw p =
    let line = trim_trailing_ws raw in
    if has_prefix raw (codes "REQID:")
    then elim (env.claim (drop 6 line)) [ none ↦ some (p, ack) | some reply ↦ some (p, reply) ]
    else if has_prefix raw (codes "PROV:")
    then some (handle_prov (drop 5 line) p)
    else if has_prefix raw (codes "CSRREQ")
    then some (handle_csrreq env p)
    else if has_prefix raw (codes "DEVID:")
    then some (handle_devid (drop 6 line) p)
    else if has_prefix raw (codes "CERT:")
    then some (handle_cert env (drop 5 line) p)
    else if has_prefix raw (codes "PFIN")
    then some (handle_pfin env p)
    else none
