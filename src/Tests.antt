-- ===== src/Tests.antt =====
-- The theorems applied to small concrete inputs.
mod Lists
mod Receiving
pub mod Pairing
pub mod Provisioning
mod Cloud
mod Power
mod Whole
mod Passwords
mod Lines
mod Sessions
mod Handshakes
use cything.Prelude.{
  ◌==◌, if◌then◌else◌, ◌*◌, ◌/◌, ◌+◌, length, ℕ, none, some, [], ◌∷◌, ◌++◌, true, false, pos,
  replicate, List, Bool, Option, ◌≡◌, refl,
}
use cything.Prelude.Bytes.{Bytes, codes}
use cything.Session.{Session, Pool, free_slot, zeros, ls_auth_ok, ls_new, role_user, role_owner}
use cything.Paired.{Entry, Blob, Paired, zero_entry, paired_role_owner, paired_role_user, image}
use cything.Password.{Password, free_ip_slot, ip_slots}
use cything.Device.{Env, Device}

-- An outside that accepts the proof for SRP handle 3 alone. Base64 only has the right length, and
-- the ciphertext is the plaintext with a tag of zeros behind it.
abbrev pub echo : Env
echo = record {
  base64_encode = λ s. replicate ((length s + 2) / 3 * 4) 65;
  base64_decode = λ s. some s;
  aead_encrypt = λ k n p. some (p ++ replicate 16 0);
  aead_decrypt = λ k n c. some [];
  hmac = λ k m. replicate 32 0;
  srp_make = λ pw. some (codes "salt", codes "verifier");
  srp_setup = λ s v a. none;
  srp_proof = λ h m. if h == 3 then some [] else none;
  random = λ n. replicate 32 n;
  flash_ok = λ n. true;
  now_us = 5;
  now_unix = 1700000000;
  scan_command = codes "CY?";
  initial_password = codes "cything0";
  app_command_is_public = λ line. false;
}

-- An owner and a user.
abbrev pub alice : Bytes
alice = codes "alice"

abbrev pub bob : Bytes
bob = codes "bob"

abbrev pub row : Bytes → ℕ → ℕ → Entry
row sub k role = record {
  user_sub = sub;
  user_email = [];
  key = replicate 32 k;
  paired_at = 7;
  role = role;
}

abbrev pub alice_row : Entry
alice_row = row alice 1 paired_role_owner

abbrev pub bob_row : Entry
bob_row = row bob 2 paired_role_user

abbrev pub two_rows : Blob
two_rows = record {
  version = 3;
  count = 2;
  owner_sub = alice;
  entries = alice_row ∷ bob_row ∷ replicate 14 zero_entry;
}

abbrev pub two_paired : Paired
two_paired = record { ram = two_rows; flash = image two_rows }

abbrev pub set_password : Password
set_password = record {
  salt = codes "salt";
  verifier = codes "verifier";
  ips = replicate ip_slots free_ip_slot;
  global_fails = 0;
  global_until_us = 0;
  initial = none;
  stored = record { pair = some (codes "salt", codes "verifier"); fails = 0; lock_s = 0 };
}

-- The owner on socket 4, a user on socket 5, and six free slots.
abbrev pub owner_session : Session
owner_session = record free_slot {
  sock = pos 4;
  state = ls_auth_ok;
  role = role_owner;
  paired_index = pos 0;
  rx_encrypted = true;
}

abbrev pub user_session : Session
user_session = record free_slot {
  sock = pos 5;
  state = ls_auth_ok;
  role = role_user;
  paired_index = pos 1;
  rx_encrypted = true;
}

abbrev pub two_sessions : Pool
two_sessions = owner_session ∷ user_session ∷ replicate 6 free_slot

abbrev pub device : Device
device = record {
  pool = two_sessions;
  paired = two_paired;
  password = set_password;
  events = record { queue = []; flash = [] };
  mode = 0;
  out = [];
  draws = 0;
  writes = 0;
}
