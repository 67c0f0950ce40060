-- ===== src/Password/Lockout.antt =====
-- src/security/device_password.c: how long wrong proofs lock the device, and for whom.
use cything.Prelude.{
  ℕ, zero, suc, ◌+◌, ◌-◌, ◌*◌, ◌^◌, ◌≤◌, ◌<◌, ◌≡◌, ◌≢◌, refl, ap, sym, ◌∙◌, Bool, true, List, [],
  ◌∷◌, ◌==◌, ltb, if◌then◌else◌, arith, min, length, get_or, set, Bool-cases, inl, inr,
}
use cything.Prelude.{ap}
use native.Mathlib.Nat.{pow-suc}
use cything.Password.{
  Password, IpSlot, Stored, lock_doubled, lock_seconds, lock_base_s, lock_max_s, remaining_s,
  pick_slot, ip_slot, bump, slot_failure, note_failure, ip_until, lock_remaining_s, is_set,
  ip_max_fails, global_max_fails, init, free_ip_slot,
}

double_pow : (n s : ℕ) → s * 2 ^ suc n ≡ s * 2 * 2 ^ n
double_pow n s = rw (pow-suc 2 n) (omega arith)

le-mul_pow : (n s : ℕ) → s ≤ s * 2 ^ n
le-mul_pow zero s = omega arith
le-mul_pow (suc n) s = omega (arith, double_pow n s, le-mul_pow n (s * 2))

lock_doubled_lem : (n s : ℕ) → min lock_max_s (lock_doubled n s) ≡ min lock_max_s (s * 2 ^ n)
unfolding lock_doubled
lock_doubled_lem zero s = omega arith
lock_doubled_lem (suc n) s = elim (Bool-cases (ltb s lock_max_s)) [
  | inl e ↦ rw e (lock_doubled_lem n (s * 2) ∙ ap (min lock_max_s) (sym (double_pow n s)))
  | inr e ↦ rw e (let big : lock_max_s ≤ s = ground arith in omega (arith, le-mul_pow (suc n) s))
]

-- The lock doubles with each failure past the threshold, from a minute up to an hour.
pub lock_seconds_lem :
    (fails threshold : ℕ)
    → lock_seconds fails threshold
      ≡ (if ltb fails threshold then 0 else min lock_max_s (lock_base_s * 2 ^ (fails - threshold)))
unfolding lock_seconds
lock_seconds_lem fails threshold = ground (arith, lock_doubled_lem (fails - threshold) lock_base_s)

-- At any time before the end of a lock at least one second remains of it, and none after.
pub remaining_s_pos : (now until : ℕ) → now < until → 0 < remaining_s now until
unfolding remaining_s
remaining_s_pos now until h = ground arith

pub remaining_s_le : (now until s : ℕ) → now + s * 1000000 ≤ until → s ≤ remaining_s now until
unfolding remaining_s
remaining_s_le now until s h = ground arith

-- Past the threshold a lock is at least a minute and at most an hour.
lock_seconds_bounds :
    (fails threshold : ℕ)
    → threshold ≤ fails
    → (lock_base_s ≤ lock_seconds fails threshold) × (lock_seconds fails threshold ≤ lock_max_s)
lock_seconds_bounds fails threshold h =
    ground (arith, lock_seconds_lem fails threshold, le-mul_pow (fails - threshold) lock_base_s)

-- One wrong proof after another: the outcome of each write to flash, the time and the address.
abbrev pub Attempt : Type 0
Attempt = Bool × ℕ × ℕ

unfoldable pub failures : List Attempt → Password → Password
failures [] p = p
failures ((ok, now, ip) ∷ rest) p = failures rest (note_failure ok now ip p)

pub note_failure_counts :
    (ok : Bool) (now ip : ℕ) (p : Password)
    → is_set p ≡ true
    → ((note_failure ok now ip p).global_fails ≡ bump p.global_fails)
      × (is_set (note_failure ok now ip p) ≡ true)
      × (global_max_fails ≤ bump p.global_fails
          → now + lock_base_s * 1000000 ≤ (note_failure ok now ip p).global_until_us)
unfolding note_failure is_set
note_failure_counts ok now ip p h = (
  ground arith,
  ground arith,
  λ k. ground (arith, lock_seconds_bounds (bump p.global_fails) global_max_fails k),
)

failures_counts :
    (attempts : List Attempt) (p : Password)
    → is_set p ≡ true
    → p.global_fails ≤ 255
    → (is_set (failures attempts p) ≡ true)
      × ((failures attempts p).global_fails ≡ min 255 (p.global_fails + length attempts))
unfolding failures
failures_counts [] p h k = (h, omega arith)
failures_counts ((ok, now, ip) ∷ rest) p h k =
    let (c, s, _) = note_failure_counts ok now ip p h in
    let small : (note_failure ok now ip p).global_fails ≤ 255 = ground (arith, c) in
    let (s', c') = failures_counts rest (note_failure ok now ip p) s small in
    (s', ground (arith, c, c'))

-- While a password is set, the wrong proof that brings the count of those in a row to twenty, from
-- whatever addresses and with whatever outcome of the writes to flash, locks the device for every
-- address for the next minute at least.
pub global_lockout :
    (attempts : List Attempt) (ok : Bool) (now ip t peer : ℕ) (p : Password)
    → is_set p ≡ true
    → p.global_fails ≤ 255
    → global_max_fails ≤ p.global_fails + length attempts + 1
    → t < now + lock_base_s * 1000000
    → 0 < lock_remaining_s t peer (note_failure ok now ip (failures attempts p))
unfolding lock_remaining_s
global_lockout attempts ok now ip t peer p h k n l =
    let (s, c) = failures_counts attempts p h k in
    let q = failures attempts p in
    let (_, s', locked) = note_failure_counts ok now ip q s in
    let until : now + lock_base_s * 1000000 ≤ (note_failure ok now ip q).global_until_us =
      locked (ground (arith, c)) in
    let pos = remaining_s_pos t (note_failure ok now ip q).global_until_us (omega arith) in
    ground (arith, s', pos)

pick_found :
    (ip : ℕ) (ss : List IpSlot) (k victim until : ℕ)
    → (pick_slot ip ss k victim until).0 ≡ true
    → (m : ℕ) × ((pick_slot ip ss k victim until).1 ≡ k + m)
      × ((get_or ss m free_ip_slot).ip ≡ ip)
      × ((s : IpSlot) → s.ip ≡ ip → ip_until ip (set ss m s) ≡ s.until_us)
unfolding pick_slot ip_until
pick_found ip [] k victim until h = cc
pick_found ip (x ∷ ss) k victim until h = elim (Bool-cases (x.ip == ip)) [
  | inl e ↦ (0, ground (arith, e), ground (arith, e), λ s q. ground (arith, q))
  | inr e ↦
      let v' = if ltb x.until_us until then k else victim in
      let u' = if ltb x.until_us until then x.until_us else until in
      let (m, at, here, put) = pick_found ip ss (k + 1) v' u' (ground (arith, e)) in
      (suc m, ground (arith, e, at), here, λ s q. ground (arith, e, put s q))
]

slot_failure_locks :
    (now : ℕ) (s : IpSlot)
    → ip_max_fails ≤ s.fails + 1
    → s.fails ≤ 255
    → ((slot_failure now s).ip ≡ s.ip)
      × (now + lock_base_s * 1000000 ≤ (slot_failure now s).until_us)
unfolding slot_failure
slot_failure_locks now s h k =
    (refl, ground (arith, lock_seconds_bounds (bump s.fails) ip_max_fails))

ip_slot_found :
    (ip i : ℕ) (ips : List IpSlot)
    → pick_slot ip ips 0 0 (get_or ips 0 free_ip_slot).until_us ≡ (true, i)
    → ip_slot ip ips ≡ (i, ips)
unfolding ip_slot
ip_slot_found ip i ips e = rw e

found_ips :
    (ok : Bool) (now ip i : ℕ) (p : Password)
    → is_set p ≡ true
    → ip_slot ip p.ips ≡ (i, p.ips)
    → (note_failure ok now ip p).ips ≡ set p.ips i (slot_failure now (get_or p.ips i free_ip_slot))
unfolding note_failure
found_ips ok now ip i p h e = rw (h, e) (ground arith)

-- While a password is set, where an address has its slot before the first free one, its fifth wrong
-- proof, or a later one, locks it out for the next minute at least.
pub ip_lockout :
    (ok : Bool) (now ip t i : ℕ) (p : Password)
    → is_set p ≡ true
    → pick_slot ip p.ips 0 0 (get_or p.ips 0 free_ip_slot).until_us ≡ (true, i)
    → ip_max_fails ≤ (get_or p.ips i free_ip_slot).fails + 1
    → (get_or p.ips i free_ip_slot).fails ≤ 255
    → t < now + lock_base_s * 1000000
    → 0 < lock_remaining_s t ip (note_failure ok now ip p)
unfolding lock_remaining_s
ip_lockout ok now ip t i p h e five small l =
    let u = (get_or p.ips 0 free_ip_slot).until_us in
    let (m, at, here, put) = pick_found ip p.ips 0 0 u (ap (λ r. r.0) e) in
    let row : i ≡ m = omega (arith, ap (λ r. r.1) e, at) in
    let s = slot_failure now (get_or p.ips i free_ip_slot) in
    let (same, late) = slot_failure_locks now (get_or p.ips i free_ip_slot) five small in
    let mine : s.ip ≡ ip = same ∙ ap (λ t. (get_or p.ips t free_ip_slot).ip) row ∙ here in
    let until : ip_until ip (note_failure ok now ip p).ips ≡ s.until_us =
      ap (ip_until ip) (found_ips ok now ip i p h (ip_slot_found ip i p.ips e))
      ∙ ap (λ t. ip_until ip (set p.ips t s)) row
      ∙ put s mine in
    let (_, set', _) = note_failure_counts ok now ip p h in
    let pos = remaining_s_pos t s.until_us (omega arith) in ground (arith, set', until, pos)

-- The global lock holds for every address.
pub global_lock-pos :
    (t ip : ℕ) (p : Password)
    → is_set p ≡ true
    → t < p.global_until_us
    → 0 < lock_remaining_s t ip p
unfolding lock_remaining_s
global_lock-pos t ip p h l = ground (arith, h, remaining_s_pos t p.global_until_us l)

first_failure :
    (now ip : ℕ)
    → slot_failure now (record free_ip_slot { ip = ip })
      ≡ record { ip = ip; fails = 1; until_us = 0 }
unfolding slot_failure
first_failure now ip = refl

ip_slot_hole :
    (ip : ℕ) (rest : List IpSlot)
    → ip ≢ 0
    → ip_slot ip (free_ip_slot ∷ rest) ≡ (0, record free_ip_slot { ip = ip } ∷ rest)
unfolding ip_slot
ip_slot_hole ip rest n = ground arith

below_threshold : (fails threshold : ℕ) → fails < threshold → lock_seconds fails threshold ≡ 0
below_threshold fails threshold h = ground (arith, lock_seconds_lem fails threshold)

remaining_s_zero : (t : ℕ) → remaining_s t 0 ≡ 0
unfolding remaining_s
remaining_s_zero t = ground arith

ip_until_here :
    (ip : ℕ) (s : IpSlot) (rest : List IpSlot) → s.ip ≡ ip → ip_until ip (s ∷ rest) ≡ s.until_us
unfolding ip_until
ip_until_here ip s rest h = ground arith

hole_ips :
    (ok : Bool) (now ip : ℕ) (p : Password) (rest : List IpSlot)
    → is_set p ≡ true
    → p.ips ≡ free_ip_slot ∷ rest
    → ip ≢ 0
    → (note_failure ok now ip p).ips ≡ record { ip = ip; fails = 1; until_us = 0 } ∷ rest
unfolding note_failure
hole_ips ok now ip p rest h e n =
    rw (h, e, ip_slot_hole ip rest n) (ground (arith, first_failure now ip))

global_kept :
    (ok : Bool) (now ip : ℕ) (p : Password)
    → is_set p ≡ true
    → bump p.global_fails < global_max_fails
    → (note_failure ok now ip p).global_until_us ≡ p.global_until_us
unfolding note_failure
global_kept ok now ip p h g =
    ground (arith, below_threshold (bump p.global_fails) global_max_fails g)

-- `ip_slot` stops at the first free slot, also when the address has its own slot behind it. So
-- while a password is set and once the first slot was freed, a further wrong proof from an address
-- (not 0) that is locked out behind it puts a new slot with one failure before it, and only the
-- global lock is left to hold the address, as long as this proof brings the global count to less
-- than 20.
pub lockout_forgotten :
    (ok : Bool) (now ip t : ℕ) (p : Password) (rest : List IpSlot)
    → is_set p ≡ true
    → p.ips ≡ free_ip_slot ∷ rest
    → ip ≢ 0
    → bump p.global_fails < global_max_fails
    → ((note_failure ok now ip p).ips ≡ record { ip = ip; fails = 1; until_us = 0 } ∷ rest)
      × (lock_remaining_s t ip (note_failure ok now ip p) ≡ remaining_s t p.global_until_us)
unfolding lock_remaining_s
lockout_forgotten ok now ip t p rest h e n g =
    let (_, set', _) = note_failure_counts ok now ip p h in
    let new = hole_ips ok now ip p rest h e n in
    let free : ip_until ip (note_failure ok now ip p).ips ≡ 0 =
      ap (ip_until ip) new
      ∙ ip_until_here ip (record { ip = ip; fails = 1; until_us = 0 }) rest refl in
    (new, ground (arith, set', free, global_kept ok now ip p h g, remaining_s_zero t))

init_lock :
    (boot : ℕ) (st : Stored)
    → ((init boot st).global_fails ≡ st.fails)
      × (remaining_s boot (init boot st).global_until_us ≡ st.lock_s)
unfolding init remaining_s
init_lock boot st = ground arith

-- While a password is set and the write to flash succeeds, a restart resumes a stored lock where it
-- was: as many seconds are left of it as when it was written, and the count of failures goes on.
pub reboot_keeps_lock :
    (now ip boot : ℕ) (p : Password)
    → is_set p ≡ true
    → let p' = note_failure true now ip p in
      ((init boot p'.stored).global_fails ≡ p'.global_fails)
      × (remaining_s boot (init boot p'.stored).global_until_us
          ≡ remaining_s now p'.global_until_us)
unfolding note_failure
reboot_keeps_lock now ip boot p h =
    let (fails, left) = init_lock boot (note_failure true now ip p).stored in
    (fails ∙ ground arith, left ∙ ground arith)
