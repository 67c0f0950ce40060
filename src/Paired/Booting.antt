-- ===== src/Paired/Booting.antt =====
-- src/security/paired_list.c: `paired_list_init` after a restart, whatever was written before it.
use cything.Prelude.{
  length, ℕ, zero, suc, ◌+◌, ◌-◌, ◌≤◌, inl, inr, Bool, true, false, ◌||◌, arith, ltb, Bool-cases,
  if◌then◌else◌,
}
use cything.Paired.{
  v3, v2, unusable, fits, Blob, Flash, Paired, erase_row, dedupe_row, dedupe_from, dedupe, init,
  nvs_load, nvs_store, absent,
}
use cything.Paired.Invariant.{IsValid, empty-IsValid}
use cything.Paired.Removing.{erase_row-IsValid}
use cything.Paired.Stored.{HoldsList, IsStored, image-HoldsList}

dedupe_row-IsValid :
    (n i j : ℕ) (b : Blob) → j + n ≤ b.count → IsValid b → IsValid (dedupe_row n i j b)
unfolding dedupe_row
dedupe_row-IsValid zero i j b h v = v
dedupe_row-IsValid (suc n) i j b h v = ground (
  arith,
  dedupe_row-IsValid n i (j + 1) b (omega arith) v,
  dedupe_row-IsValid n i j (erase_row j b) (omega arith) (erase_row-IsValid j v (omega arith)),
)

dedupe_from-IsValid : (n i : ℕ) (b : Blob) → IsValid b → IsValid (dedupe_from n i b)
unfolding dedupe_from
dedupe_from-IsValid zero i b v = v
dedupe_from-IsValid (suc n) i b v = elim (Bool-cases (ltb i b.count)) [
  | inr e ↦ rw (dedupe_from, e) v
  | inl e ↦
      rw (dedupe_from, e)
        (dedupe_from-IsValid n (i + 1) _
          (dedupe_row-IsValid (b.count - (i + 1)) i (i + 1) b (ground (arith, e)) v))
]

dedupe-IsValid : (b : Blob) → IsValid b → IsValid (dedupe b).0
unfolding dedupe
dedupe-IsValid b v = dedupe_from-IsValid b.count 0 b v

-- What is read back of such a flash is a valid list.
nvs_load-IsValid :
    (opened heap : Bool) (f : Flash) → HoldsList f → IsValid (nvs_load opened heap f).0
unfolding nvs_load
nvs_load-IsValid false heap f h = empty-IsValid
nvs_load-IsValid true heap absent h = empty-IsValid
nvs_load-IsValid true heap unusable h = empty-IsValid
nvs_load-IsValid true heap (v3 n owner es) h = elim (Bool-cases (fits n (length es))) [
  | inl e ↦ rw e (h e)
  | inr e ↦ rw e empty-IsValid
]
nvs_load-IsValid true false (v2 n owner es) h = empty-IsValid
nvs_load-IsValid true true (v2 n owner es) h = elim (Bool-cases (fits n (length es))) [
  | inl e ↦ rw e (h e)
  | inr e ↦ rw e empty-IsValid
]

-- A list that is written back or not.
IsStored-if :
    (ok changed : Bool) (p : Paired)
    → IsStored p
    → IsStored (if changed then (nvs_store ok p).0 else p)
unfolding nvs_store
IsStored-if ok false p v = v
IsStored-if false true p v = v
IsStored-if true true p v = record { ram = v.ram; flash = image-HoldsList p.ram v.ram }

-- From a flash that holds no list or a valid one, a restart gives a valid list in RAM, and leaves
-- one in flash.
pub init-IsStored :
    (opened heap ok : Bool) (f : Flash) → HoldsList f → IsStored (init opened heap ok f)
unfolding init
init-IsStored opened heap ok f h =
    IsStored-if ok ((nvs_load opened heap f).1 || (dedupe (nvs_load opened heap f).0).1)
      (record { ram = (dedupe (nvs_load opened heap f).0).0; flash = f })
      (record { ram = dedupe-IsValid _ (nvs_load-IsValid opened heap f h); flash = h })
