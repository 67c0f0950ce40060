-- ===== src/Password.antt =====
-- src/security/device_password.[ch]: the stored password verifier, and the lockout after wrong
-- proofs. Times are microseconds since boot. What esp_srp makes of a password, and whether a write
-- to flash succeeds, are arguments.
pub mod Lockout
use cything.Prelude.{
  ℕ, zero, suc, ◌+◌, ◌-◌, ◌*◌, ◌/◌, Bool, true, false, ◌&&◌, ◌||◌, not, Option, none, some, List,
  [], ◌∷◌, ◌==◌, ltb, leb, if◌then◌else◌, replicate, length, get_or, set,
}
use cything.Prelude.Bytes.{Bytes}

abbrev pub pw_min_len : ℕ
pw_min_len = 8

abbrev pub pw_max_len : ℕ
pw_max_len = 64

abbrev pub pw_verifier_max : ℕ
pw_verifier_max = 384

abbrev pub ip_max_fails : ℕ
ip_max_fails = 5

abbrev pub global_max_fails : ℕ
global_max_fails = 20

abbrev pub lock_base_s : ℕ
lock_base_s = 60

abbrev pub lock_max_s : ℕ
lock_max_s = 3600

abbrev pub ip_slots : ℕ
ip_slots = 8

-- `ip_slot_t`.
pub record IpSlot : Type 0 where
  pub ip : ℕ
  pub fails : ℕ
  pub until_us : ℕ

abbrev pub free_ip_slot : IpSlot
free_ip_slot = record { ip = 0; fails = 0; until_us = 0 }

-- What the flash holds: the pair, the global failures and the seconds left of the global lock.
pub record Stored : Type 0 where
  pub pair : Option (Bytes × Bytes)
  pub fails : ℕ
  pub lock_s : ℕ

-- The static state. A length of zero stands for an array that is not filled; `initial` is the pair
-- derived from the public initial password, once that was done.
pub record Password : Type 0 where
  pub salt : Bytes
  pub verifier : Bytes
  pub ips : List IpSlot
  pub global_fails : ℕ
  pub global_until_us : ℕ
  pub initial : Option (Bytes × Bytes)
  pub stored : Stored

nonempty : Bytes → Bool
nonempty [] = false
nonempty (c ∷ s) = true

unfoldable pub is_set : Password → Bool
unfolding nonempty
is_set p = nonempty p.salt && nonempty p.verifier

-- The loop of `lock_seconds` with `n` rounds left.
unfoldable pub lock_doubled : ℕ → ℕ → ℕ
lock_doubled zero s = s
lock_doubled (suc n) s = let rest = lock_doubled n (s * 2) in if ltb s lock_max_s then rest else s

unfoldable pub lock_seconds : ℕ → ℕ → ℕ
lock_seconds fails threshold =
    let s = lock_doubled (fails - threshold) lock_base_s in
    if ltb fails threshold then 0 else if ltb lock_max_s s then lock_max_s else s

-- `remaining_s` at time `now`: whole seconds, rounded up.
unfoldable pub remaining_s : ℕ → ℕ → ℕ
remaining_s now until_us = if leb until_us now then 0 else (until_us - now + 999999) / 1000000

-- The loop of `ip_slot` from index `i`, with the victim so far and its time: whether the address has
-- a slot, and which.
unfoldable pub pick_slot : ℕ → List IpSlot → ℕ → ℕ → ℕ → Bool × ℕ
pick_slot ip [] i victim until = (false, victim)
pick_slot ip (s ∷ ss) i victim until =
    let rest =
      pick_slot ip ss (i + 1) (if ltb s.until_us until then i else victim)
        (if ltb s.until_us until then s.until_us else until) in
    if s.ip == ip then (true, i) else if s.ip == 0 then (false, i) else rest

-- `ip_slot`: the index of the slot, and the slots with a new one cleared for the address.
unfoldable pub ip_slot : ℕ → List IpSlot → ℕ × List IpSlot
unfolding pick_slot
ip_slot ip ips =
    let (found, i) = pick_slot ip ips 0 0 (get_or ips 0 free_ip_slot).until_us in
    (i, if found then ips else set ips i (record free_ip_slot { ip = ip }))

-- `if(fails < 255) fails++;` on a `uint8_t`.
abbrev pub bump : ℕ → ℕ
bump n = if ltb n 255 then n + 1 else n

-- `nvs_store_lockout`.
abbrev store_lockout : Bool → ℕ → Password → Password
store_lockout ok now p =
    if ok
    then record p {
      stored = record (p.stored) {
        fails = p.global_fails;
        lock_s = remaining_s now p.global_until_us;
      };
    }
    else p

abbrev until_after : ℕ → ℕ → ℕ → ℕ
until_after now lock until = if lock == 0 then until else now + lock * 1000000

-- The slot of the address that failed.
unfoldable pub slot_failure : ℕ → IpSlot → IpSlot
unfolding lock_seconds
slot_failure now s =
    let fails = bump s.fails in
    record s {
      fails = fails;
      until_us = until_after now (lock_seconds fails ip_max_fails) s.until_us;
    }

-- `device_password_note_failure`.
unfoldable pub note_failure : Bool → ℕ → ℕ → Password → Password
note_failure ok now peer_ip p =
    let (i, ips) = ip_slot peer_ip p.ips in
    let fails = bump p.global_fails in
    let p' = record p {
      ips = set ips i (slot_failure now (get_or ips i free_ip_slot));
      global_fails = fails;
      global_until_us = until_after now (lock_seconds fails global_max_fails) p.global_until_us;
    } in
    if is_set p then store_lockout ok now p' else p

clear_ip : ℕ → List IpSlot → List IpSlot
clear_ip ip [] = []
clear_ip ip (s ∷ ss) = if s.ip == ip then free_ip_slot ∷ ss else s ∷ clear_ip ip ss

-- `device_password_note_success`.
unfoldable pub note_success : Bool → ℕ → ℕ → Password → Password
unfolding clear_ip remaining_s
note_success ok now peer_ip p =
    let p' = record p { ips = clear_ip peer_ip p.ips; global_fails = 0; global_until_us = 0 } in
    let dirty = not (p.global_fails == 0) || not (p.global_until_us == 0) in
    if dirty then store_lockout ok now p' else p'

unfoldable pub ip_until : ℕ → List IpSlot → ℕ
ip_until ip [] = 0
ip_until ip (s ∷ ss) = if s.ip == ip then s.until_us else ip_until ip ss

-- `device_password_lock_remaining_s`.
unfoldable pub lock_remaining_s : ℕ → ℕ → Password → ℕ
lock_remaining_s now peer_ip p =
    let g = remaining_s now p.global_until_us in
    let q = remaining_s now (ip_until peer_ip p.ips) in
    if is_set p then (if ltb q g then g else q) else 0

-- Errors of `device_password_set` and `device_password_clear`.
pub data EspErr : Type 0 where
  esp_ok esp_invalid_size esp_srp_failed esp_fail : EspErr

-- What `nvs_store_pair` writes.
abbrev stored_pair : Option (Bytes × Bytes) → Stored
stored_pair pair = record { pair = pair; fails = 0; lock_s = 0 }

-- `device_password_set`; `made` is what `esp_srp_gen_salt_verifier` gives for the password.
unfoldable pub set_password : Bytes → Option (Bytes × Bytes) → Bool → Password → Password × EspErr
set_password pw made ok p =
    if ltb (length pw) pw_min_len || ltb pw_max_len (length pw)
    then (p, esp_invalid_size)
    else elim made [
      | none ↦ (p, esp_srp_failed)
      | some (salt, verifier) ↦
          if (length verifier == 0) || ltb pw_verifier_max (length verifier)
          then (p, esp_invalid_size)
          else if not ok
          then (p, esp_fail)
          else (
            record {
              salt = salt;
              verifier = verifier;
              ips = replicate ip_slots free_ip_slot;
              global_fails = 0;
              global_until_us = 0;
              initial = p.initial;
              stored = stored_pair (some (salt, verifier));
            },
            esp_ok,
          )
    ]

-- `device_password_clear`: the RAM copy is wiped whether or not the flash could be written.
unfoldable pub clear : Bool → Password → Password × EspErr
clear ok p = (
  record {
    salt = [];
    verifier = [];
    ips = replicate ip_slots free_ip_slot;
    global_fails = 0;
    global_until_us = 0;
    initial = p.initial;
    stored = if ok then stored_pair none else p.stored;
  },
  if ok then esp_ok else esp_fail,
)

-- `device_password_init` at time `now` of a fresh boot, from what the flash holds.
unfoldable pub init : ℕ → Stored → Password
init now st =
    let until = if st.lock_s == 0 then 0 else now + st.lock_s * 1000000 in
    let ips = replicate ip_slots free_ip_slot in
    elim st.pair [
      | none ↦ record {
        salt = [];
        verifier = [];
        ips = ips;
        global_fails = st.fails;
        global_until_us = until;
        initial = none;
        stored = st;
      }
      | some (salt, verifier) ↦ record {
        salt = salt;
        verifier = verifier;
        ips = ips;
        global_fails = st.fails;
        global_until_us = until;
        initial = none;
        stored = st;
      }
    ]

-- `derive_initial_locked`; `made` is what `esp_srp_gen_salt_verifier` gives for the initial password.
derive_initial : Option (Bytes × Bytes) → Password → Password
derive_initial made p = elim p.initial [
  | some pair ↦ p
  | none ↦ elim made [
    | none ↦ p
    | some (salt, verifier) ↦
        if (length verifier == 0) || ltb pw_verifier_max (length verifier)
        then p
        else record p { initial = some (salt, verifier) }
  ]
]

-- `device_password_get`: the stored pair, or that of the initial password while none is stored.
unfoldable pub get : Option (Bytes × Bytes) → Password → Password × Option (Bytes × Bytes)
unfolding is_set derive_initial
get made p =
    if is_set p
    then (p, some (p.salt, p.verifier))
    else let p' = derive_initial made p in (p', p'.initial)
