-- ===== src/Device.antt =====
-- The state that the handlers of a received line share, and what they take from outside: the parts
-- of mbedTLS, esp_srp, the NVS driver, the clock and the application that they call.
use cything.Prelude.{ℕ, Bool, Option, none, some, List, ◌∷◌, ℤ, leb, if◌then◌else◌, length, set}
use cything.Prelude.Bytes.{Bytes}
use cything.Session.{Session, Pool, at}
use cything.Paired.{Paired}
use cything.Password.{Password}
use cything.Events.{Events}

-- What runs outside this repository while one line is handled. `random n` is the n-th block that
-- `esp_fill_random` gives, `flash_ok n` the outcome of the n-th write to flash.
pub record Env : Type 0 where
  pub base64_encode : Bytes → Bytes
  -- `mbedtls_base64_decode` with a buffer that is large enough; `none` for invalid text.
  pub base64_decode : Bytes → Option Bytes
  -- AES-256-GCM with key, nonce and text; the tag is the end of the ciphertext.
  pub aead_encrypt : Bytes → Bytes → Bytes → Option Bytes
  pub aead_decrypt : Bytes → Bytes → Bytes → Option Bytes
  -- `mbedtls_md_hmac` with SHA-256: key, then message.
  pub hmac : Bytes → Bytes → Bytes
  -- `esp_srp_gen_salt_verifier` of a password: the salt and the verifier.
  pub srp_make : Bytes → Option (Bytes × Bytes)
  -- `esp_srp_init` up to `esp_srp_get_session_key` with salt, verifier and A: handle, B and K.
  pub srp_setup : Bytes → Bytes → Bytes → Option (ℕ × Bytes × Bytes)
  -- `esp_srp_exchange_proofs` on a handle with M1: M2, if the proof is right.
  pub srp_proof : ℕ → Bytes → Option Bytes
  pub random : ℕ → Bytes
  pub flash_ok : ℕ → Bool
  -- `esp_timer_get_time` and `time(NULL)`.
  pub now_us : ℕ
  pub now_unix : ℕ
  -- `cy_scan_command`, `cy_initial_password` and the application's hook.
  pub scan_command : Bytes
  pub initial_password : Bytes
  pub app_command_is_public : Bytes → Bool

-- Bytes given to `send`, and for which socket.
pub record Packet : Type 0 where
  pub to : ℤ
  pub bytes : Bytes

-- `out` has the latest packet first. `draws` and `writes` count the uses of `random` and `flash_ok`;
-- `mode` is the discovery mode in force.
pub record Device : Type 0 where
  pub pool : Pool
  pub paired : Paired
  pub password : Password
  pub events : Events
  pub mode : ℕ
  pub out : List Packet
  pub draws : ℕ
  pub writes : ℕ

-- `*s` for the slot of a session.
abbrev pub slot : ℕ → Device → Session
slot i d = at i d.pool

-- `*s = f(*s)`.
unfoldable pub update_slot : ℕ → (Session → Session) → Device → Device
update_slot i f d = record d { pool = set d.pool i (f (at i d.pool)) }

-- `send(sock, bytes, …)`.
unfoldable pub send : ℤ → Bytes → Device → Device
send sock bytes d = record d { out = record { to = sock; bytes = bytes } ∷ d.out }

-- `mbedtls_base64_decode` into a buffer of `size` bytes.
unfoldable pub decode : Env → ℕ → Bytes → Option Bytes
decode env size text = elim (env.base64_decode text) [
  | none ↦ none
  | some b ↦ if leb (length b) size then some b else none
]
