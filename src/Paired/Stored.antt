-- ===== src/Paired/Stored.antt =====
-- src/security/paired_list.c: what the flash holds, over any calls with any of their writes failing.
use cything.Prelude.{
  take-append-drop, map, length, ◌==◌, if◌then◌else◌, ℕ, ◌≡◌, refl, sym, ◌∙◌, ap, arith, inl, inr,
  Bool, Bool-cases, Option-cases, true, false, ℤ, pos, negsuc, ltb,
}
use cything.Prelude.Bytes.{Bytes}
use mathlib.Core.Path.{subst}
use cything.Paired.{
  absent, v3, v2, unusable, fits, filled, migrate_entry, Blob, Flash, Paired, add, remove,
  rotate_owner_key, clear, image, nvs_store, find_owner, live,
}
use cything.Paired.Invariant.{IsValid, empty-IsValid, length-live}
use cything.Paired.Enrolling.{add_failed, added-IsValid}
use cything.Paired.Removing.{remove_lem}
use cything.Paired.Rotating.{rotate_failed, rotate-IsValid, rotated, not_rotated}

-- The flash holds nothing, a blob that cannot be used, or a valid list of the present or the former
-- format, perhaps not the one in RAM.
abbrev pub HoldsList : Flash → Type 0
HoldsList absent = Unit
HoldsList (v3 n owner es) = fits n (length es) ≡ true → IsValid (filled n owner es)
HoldsList (v2 n owner es) =
    fits n (length es) ≡ true → IsValid (filled n owner (map migrate_entry es))
HoldsList unusable = Unit

filled-live : (b : Blob) → IsValid b → filled b.count b.owner_sub (live b) ≡ b
filled-live b v =
    ground (arith, length-live v, v.wiped, v.versioned, take-append-drop b.count b.entries)

-- A valid list that was written.
pub image-HoldsList : (b : Blob) → IsValid b → HoldsList (image b)
unfolding image
image-HoldsList b v = elim (Bool-cases (b.count == 0)) [
  | inl e ↦ rw e tt
  | inr e ↦ rw e (λ fit. subst IsValid (sym (filled-live b v)) v)
]

pub record IsStored (p : Paired) : Type 0 where
  pub ram : IsValid p.ram
  pub flash : HoldsList p.flash

synced : {p : Paired} → IsValid p.ram → p.flash ≡ image p.ram → IsStored p
synced {p} v e = record { ram = v; flash = subst HoldsList (sym e) (image-HoldsList p.ram v) }

pub add-IsStored :
    (user_sub user_email key : Bytes) (paired_at : ℕ) (ok : Bool) (p : Paired)
    → IsStored p
    → IsStored (add user_sub user_email key paired_at ok p).0
add-IsStored user_sub user_email key paired_at ok p v =
    elim (Option-cases (add user_sub user_email key paired_at ok p).1) [
      | inl e ↦ rw (add_failed user_sub user_email key paired_at ok p v.ram e) v
      | inr (a, e) ↦
          let (w, f) = added-IsValid user_sub user_email key paired_at ok p a v.ram e in synced w f
    ]

pub remove-IsStored :
    (index : ℤ) (ok : Bool) (p : Paired) → IsStored p → IsStored (remove index ok p).0
unfolding remove
remove-IsStored (pos i) ok p v = elim (Bool-cases (ltb i p.ram.count)) [
  | inl e ↦
      let (_, w, _, f) = remove_lem i ok p v.ram (ground (arith, e)) in
      elim (Bool-cases ok) [
        | inl o ↦ synced w (ground (arith, f, o))
        | inr o ↦ record {
          ram = w;
          flash =
              subst HoldsList
                (sym (f ∙ ap (λ t. if t then image (remove (pos i) ok p).0.ram else p.flash) o))
                v.flash;
        }
      ]
  | inr e ↦ ground (arith, e)
]
remove-IsStored (negsuc i) ok p v = v

pub rotate-IsStored :
    (fresh : Bytes) (ok : Bool) (p : Paired) → IsStored p → IsStored (rotate_owner_key fresh ok p).0
rotate-IsStored fresh false p v = rw (rotate_failed fresh p) v
rotate-IsStored fresh true p v = elim (Option-cases (find_owner (live p.ram))) [
  | inl e ↦ rw (not_rotated fresh p e) v
  | inr (i, e) ↦
      let (r, f) = rotated fresh p i e in
      synced (rotate-IsValid fresh true p v.ram) (f ∙ ap image (sym r))
]

pub clear-IsStored : (ok : Bool) (p : Paired) → IsStored p → IsStored (clear ok p).0
unfolding clear nvs_store
clear-IsStored false p v = record { ram = empty-IsValid; flash = v.flash }
clear-IsStored true p v = synced empty-IsValid refl
