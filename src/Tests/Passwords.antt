-- ===== src/Tests/Passwords.antt =====
-- The lockout's theorems after some wrong proofs.
use cything.Tests.{set_password}
use cything.Prelude.{refl, true, [], ◌∷◌, ◌≡◌, ◌<◌, List, replicate, arith}
use cything.Password.{
  Password, is_set, note_failure, lock_remaining_s, init, remaining_s, free_ip_slot,
}
use cything.Password.Lockout.{
  Attempt, failures, global_lockout, lockout_forgotten, reboot_keeps_lock,
}

-- Nineteen wrong proofs from nineteen addresses.
abbrev nineteen : List Attempt
nineteen =
    (true, 1, 1)
    ∷ (true, 1, 2)
    ∷ (true, 1, 3)
    ∷ (true, 1, 4)
    ∷ (true, 1, 5)
    ∷ (true, 1, 6)
    ∷ (true, 1, 7)
    ∷ (true, 1, 8)
    ∷ (true, 1, 9)
    ∷ (true, 1, 10)
    ∷ (true, 1, 11)
    ∷ (true, 1, 12)
    ∷ (true, 1, 13)
    ∷ (true, 1, 14)
    ∷ (true, 1, 15)
    ∷ (true, 1, 16)
    ∷ (true, 1, 17)
    ∷ (true, 1, 18)
    ∷ (true, 1, 19)
    ∷ []

global_lockout_example :
    0 < lock_remaining_s 1000 77 (note_failure true 2 20 (failures nineteen set_password))
unfolding is_set
global_lockout_example =
    global_lockout nineteen true 2 20 1000 77 set_password refl (omega arith) (omega arith)
      (omega arith)

-- An address that failed four times, in the second slot.
abbrev four_fails : Password
four_fails = record set_password {
  ips =
      record { ip = 9; fails = 1; until_us = 0 }
      ∷ record { ip = 7; fails = 4; until_us = 0 }
      ∷ replicate 6 free_ip_slot;
  global_fails = 5;
}

-- An address that is locked out, in the second slot, with the first one freed.
abbrev hole : Password
hole = record set_password {
  ips = free_ip_slot ∷ record { ip = 7; fails = 5; until_us = 60000000 } ∷ replicate 6 free_ip_slot;
}

lockout_forgotten_example :
    ((note_failure true 2 7 hole).ips
      ≡ record { ip = 7; fails = 1; until_us = 0 }
        ∷ record { ip = 7; fails = 5; until_us = 60000000 }
        ∷ replicate 6 free_ip_slot)
    × (lock_remaining_s 3 7 (note_failure true 2 7 hole) ≡ remaining_s 3 0)
unfolding is_set
lockout_forgotten_example =
    lockout_forgotten true 2 7 3 hole
      (record { ip = 7; fails = 5; until_us = 60000000 } ∷ replicate 6 free_ip_slot) refl refl
      (λ h. absurd (omega arith)) (omega arith)

reboot_keeps_lock_example :
    let p' = note_failure true 2 7 four_fails in
    ((init 50 p'.stored).global_fails ≡ p'.global_fails)
    × (remaining_s 50 (init 50 p'.stored).global_until_us ≡ remaining_s 2 p'.global_until_us)
unfolding is_set
reboot_keeps_lock_example = reboot_keeps_lock 2 7 50 four_fails refl
