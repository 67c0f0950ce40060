-- ===== src/Tests/Lists.antt =====
-- The paired list's theorems at a list of an owner and a user.
use cything.Tests.{two_rows, two_paired}
use cything.Prelude.{refl, false, [], ◌≡◌, replicate, arith}
use cything.Prelude.Bytes.{codes, bytes_eq}
use cything.Paired.{add, find, same_sub, role_for}
use cything.Paired.Invariant.{IsValid}
use cything.Paired.Enrolling.{add_failed}

two_rows-IsValid : IsValid two_rows
unfolding same_sub role_for bytes_eq
two_rows-IsValid = record {
  versioned = refl;
  size = refl;
  within = omega arith;
  wiped = refl;
  distinct = ((refl, tt), (tt, tt));
  roles = (refl, (refl, tt));
  owned = λ p. refl;
}

add_failed_example : (add (codes "carol") [] (replicate 32 3) 9 false two_paired).0 ≡ two_paired
unfolding add find bytes_eq role_for
add_failed_example =
    add_failed (codes "carol") [] (replicate 32 3) 9 false two_paired two_rows-IsValid refl
