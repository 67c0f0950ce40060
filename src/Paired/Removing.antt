-- ===== src/Paired/Removing.antt =====
-- src/security/paired_list.c: `paired_list_remove`, `paired_list_rotate_owner_key`,
-- `paired_list_clear`, and reading back what was written.
use mathlib.Core.Path.{subst}
use cything.Prelude.{
  ℕ, zero, suc, ◌+◌, ◌-◌, ◌<◌, ◌≡◌, ◌≢◌, ap, sym, ◌∙◌, Bool, true, false, some, List, [], ◌∷◌,
  if◌then◌else◌, arith, length, get_or, replicate, Option-cases, pos, take-append-drop,
}
use cything.Prelude.Arrays.{remove_at, take-erase_at, drop-erase_at, length-erase_at}
use cything.Prelude.Bytes.{Bytes}
use cything.Prelude.Every.{Every, Every-remove_at}
use cything.Paired.{
  Entry, Blob, Paired, same_sub, role_for, zero_entry, paired_list_max, live, erase_row, remove,
  nvs_store, image, find_owner, paired_role_owner, v3, nvs_load,
}
use cything.Paired.Subs.{DistinctSubs, remove_at-DistinctSubs, same_sub_congr, same_sub_comm}
use cything.Paired.Invariant.{IsValid, HasRole, length-live}

live-erase_row :
    {b : Blob} (i : ℕ) → IsValid b → i < b.count → live (erase_row i b) ≡ remove_at i (live b)
live-erase_row {b} i v h =
    take-erase_at zero_entry b.entries b.count i h (omega (arith, v.size, v.within))

pub erase_row-IsValid : {b : Blob} (i : ℕ) → IsValid b → i < b.count → IsValid (erase_row i b)
erase_row-IsValid {b} i v h = record {
  versioned = v.versioned;
  size = length-erase_at zero_entry b.entries b.count i ∙ v.size;
  within = omega (arith, v.within);
  wiped =
      drop-erase_at zero_entry b.entries b.count i h (omega (arith, v.size, v.within))
      ∙ ap (λ t. zero_entry ∷ t) v.wiped
      ∙ ap (λ t. replicate t zero_entry) {x = suc (paired_list_max - b.count)}
          {y = paired_list_max - (b.count - 1)} (omega (arith, v.within));
  distinct =
      subst DistinctSubs (sym (live-erase_row i v h))
        (remove_at-DistinctSubs i (live b) v.distinct);
  roles =
      subst (Every (HasRole b.owner_sub)) (sym (live-erase_row i v h))
        (Every-remove_at (HasRole b.owner_sub) i (live b) v.roles);
  owned = λ p. v.owned (omega arith);
}

remove_row :
    (i : ℕ) (ok : Bool) (p : Paired)
    → i < p.ram.count
    → (remove (pos i) ok p).0.ram ≡ erase_row i p.ram
unfolding remove nvs_store
remove_row i ok p h = ground arith

-- Removing a row that is in use from a valid list drops exactly that entry and keeps the order of
-- the others, in an array whose freed slot is wiped; the flash follows if the write succeeds.
pub remove_lem :
    (i : ℕ) (ok : Bool) (p : Paired)
    → IsValid p.ram
    → i < p.ram.count
    → let p' = (remove (pos i) ok p).0 in
      (live p'.ram ≡ remove_at i (live p.ram))
      × IsValid p'.ram
      × (p'.ram.count + 1 ≡ p.ram.count)
      × (p'.flash ≡ (if ok then image p'.ram else p.flash))
unfolding remove nvs_store
remove_lem i ok p v h = ground (arith, live-erase_row i v h, erase_row-IsValid i v h)

-- Where RAM and flash agree and the row is in use, a failed write is not undone by
-- `paired_list_remove`: the flash keeps the list with the entry, and RAM has another one.
pub remove_unsynced :
    (i : ℕ) (p : Paired)
    → i < p.ram.count
    → p.flash ≡ image p.ram
    → let p' = (remove (pos i) false p).0 in (p'.flash ≡ image p.ram) × (p'.flash ≢ image p'.ram)
unfolding remove nvs_store image
remove_unsynced i p h e = ground arith

image-count :
    (b : Blob) (n : ℕ) (owner : Bytes) (es : List Entry) → image b ≡ v3 n owner es → n ≡ b.count
unfolding image
image-count b n owner es h = ground arith

-- What a successful write of a valid list with an entry leaves in flash is read back as the same
-- list, with nothing to migrate.
pub nvs_load-image :
    (heap : Bool) (b : Blob) → IsValid b → 0 < b.count → nvs_load true heap (image b) ≡ (b, false)
unfolding nvs_load image
nvs_load-image heap b v h =
    ground (arith, length-live v, v.wiped, v.versioned, take-append-drop b.count b.entries)

pub find_owner-some :
    (es : List Entry) (i : ℕ)
    → find_owner es ≡ some i
    → (i < length es) × ((get_or es i zero_entry).role ≡ paired_role_owner)
unfolding find_owner
find_owner-some [] i h = cc
find_owner-some (e ∷ es) zero h = ground (arith, Option-cases (find_owner es))
find_owner-some (e ∷ es) (suc i) h =
    ground (arith, find_owner-some es i, Option-cases (find_owner es))

-- An owner's key is the given one.
abbrev pub OwnerKey : Bytes → Entry → Type 0
OwnerKey k e = e.role ≡ paired_role_owner → e.key ≡ k

-- Two entries with the owner's role are of the same account.
pub owners_same :
    (owner : Bytes) (d e : Entry)
    → HasRole owner d
    → HasRole owner e
    → d.role ≡ paired_role_owner
    → e.role ≡ paired_role_owner
    → same_sub d.user_sub e.user_sub ≡ true
unfolding role_for
owners_same owner d e hd he rd re =
    let sd : same_sub d.user_sub owner ≡ true = ground arith in
    let se : same_sub e.user_sub owner ≡ true = ground arith in
    rw
      (
        same_sub_comm d.user_sub e.user_sub,
        same_sub_congr e.user_sub owner d.user_sub se,
        same_sub_comm owner d.user_sub,
      )
      sd
