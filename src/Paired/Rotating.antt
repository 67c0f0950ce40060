-- ===== src/Paired/Rotating.antt =====
-- src/security/paired_list.c: `paired_list_rotate_owner_key`, which PWSET calls.
use mathlib.Core.Path.{subst}
use cything.Prelude.{
  length-set, ℕ, zero, suc, ◌<◌, ◌≡◌, ◌≢◌, refl, ap, sym, ◌∙◌, inl, inr, Bool, true, false, none,
  some, List, [], ◌∷◌, arith, get_or, get_elem?, set, Option-cases,
}
use cything.Prelude.Arrays.{drop-set_lt, take-set, get_or-take, set-set_back}
use cything.Prelude.Bytes.{Bytes}
use cything.Prelude.Every.{Every-set, Every-get_in, Every}
use cything.Paired.{
  Entry, Blob, Paired, zero_entry, live, nvs_store, image, rotate_owner_key, find_owner,
  paired_role_owner,
}
use cything.Paired.Subs.{set-DistinctSubs, DistinctSubs, NoSub}
use cything.Paired.Invariant.{IsValid, HasRole, length-live}
use cything.Paired.Removing.{OwnerKey, owners_same, find_owner-some}

abbrev rekeyed : Bytes → Entry → Entry
rekeyed fresh e = record e { key = fresh }

-- Behind an owner's entry there is no other of that role.
no_second_owner :
    (owner fresh : Bytes) (d : Entry) (es : List Entry)
    → HasRole owner d
    → Every (HasRole owner) es
    → NoSub d.user_sub es
    → d.role ≡ paired_role_owner
    → Every (OwnerKey fresh) es
no_second_owner owner fresh d [] hd he n r = tt
no_second_owner owner fresh d (e ∷ es) hd he n r = (
  λ re. ground (arith, owners_same owner e d he.0 hd, n.0),
  no_second_owner owner fresh d es hd he.1 n.1 r,
)

rekey_owner :
    (owner fresh : Bytes) (es : List Entry) (i : ℕ)
    → DistinctSubs es
    → Every (HasRole owner) es
    → find_owner es ≡ some i
    → Every (OwnerKey fresh) (set es i (rekeyed fresh (get_or es i zero_entry)))
unfolding find_owner
rekey_owner owner fresh [] i d h e = tt
rekey_owner owner fresh (x ∷ es) zero d h e = (
  λ _. refl,
  no_second_owner owner fresh x es h.0 h.1 d.0 (ground (arith, Option-cases (find_owner es))),
)
rekey_owner owner fresh (x ∷ es) (suc i) d h e = (
  λ r. ground (arith, Option-cases (find_owner es)),
  rekey_owner owner fresh es i d.1 h.1 (ground (arith, Option-cases (find_owner es))),
)

no_owner : (fresh : Bytes) (es : List Entry) → find_owner es ≡ none → Every (OwnerKey fresh) es
unfolding find_owner
no_owner fresh [] e = tt
no_owner fresh (x ∷ es) e = (
  λ r. ground (arith, Option-cases (find_owner es)),
  no_owner fresh es (ground (arith, Option-cases (find_owner es))),
)

-- The list with row `i` given the fresh key.
abbrev rekeyed_blob : Bytes → ℕ → Blob → Blob
rekeyed_blob fresh i b = record b {
  entries = set b.entries i (rekeyed fresh (get_or b.entries i zero_entry));
}

live-rekeyed :
    (fresh : Bytes) (i : ℕ) (b : Blob)
    → i < b.count
    → live (rekeyed_blob fresh i b) ≡ set (live b) i (rekeyed fresh (get_or (live b) i zero_entry))
live-rekeyed fresh i b h =
    take-set b.count i (rekeyed fresh (get_or b.entries i zero_entry)) b.entries
    ∙ ap (λ t. set (live b) i (rekeyed fresh t))
        (sym (get_or-take b.count i zero_entry b.entries h))

-- A rotation that the flash refuses leaves everything as it was.
pub rotate_failed : (fresh : Bytes) (p : Paired) → (rotate_owner_key fresh false p).0 ≡ p
unfolding rotate_owner_key nvs_store
rotate_failed fresh p = elim (Option-cases (find_owner (live p.ram))) [
  | inl e ↦ ground (arith, e)
  | inr (i, e) ↦ ground (
    arith,
    e,
    set-set_back p.ram.entries i (rekeyed fresh (get_or p.ram.entries i zero_entry)) zero_entry,
  )
]

pub rotated :
    (fresh : Bytes) (p : Paired) (i : ℕ)
    → find_owner (live p.ram) ≡ some i
    → ((rotate_owner_key fresh true p).0.ram ≡ rekeyed_blob fresh i p.ram)
      × ((rotate_owner_key fresh true p).0.flash ≡ image (rekeyed_blob fresh i p.ram))
unfolding rotate_owner_key nvs_store
rotated fresh p i e = ground (arith, e)

pub not_rotated :
    (fresh : Bytes) (p : Paired)
    → find_owner (live p.ram) ≡ none
    → (rotate_owner_key fresh true p).0 ≡ p
unfolding rotate_owner_key nvs_store
not_rotated fresh p e = ground (arith, e)

owner_row : {b : Blob} (i : ℕ) → IsValid b → find_owner (live b) ≡ some i → i < b.count
owner_row {b} i v e = omega (arith, length-live v, (find_owner-some (live b) i e).0)

-- After a rotation of a valid list that is stored, every entry with the owner's role has the fresh key.
pub rotate_owner_key_fresh :
    (fresh : Bytes) (p : Paired)
    → IsValid p.ram
    → Every (OwnerKey fresh) (live (rotate_owner_key fresh true p).0.ram)
rotate_owner_key_fresh fresh p v = elim (Option-cases (find_owner (live p.ram))) [
  | inl e ↦
      subst (λ t. Every (OwnerKey fresh) (live t.ram)) (sym (not_rotated fresh p e))
        (no_owner fresh (live p.ram) e)
  | inr (i, e) ↦
      subst (λ t. Every (OwnerKey fresh) (live t)) (sym (rotated fresh p i e).0)
        (subst (Every (OwnerKey fresh)) (sym (live-rekeyed fresh i p.ram (owner_row i v e)))
          (rekey_owner p.ram.owner_sub fresh (live p.ram) i v.distinct v.roles e))
]

rekeyed-others :
    (fresh : Bytes) (es : List Entry) (i j : ℕ) (e : Entry)
    → find_owner es ≡ some i
    → get_elem? es j ≡ some e
    → e.role ≢ paired_role_owner
    → get_elem? (set es i (rekeyed fresh (get_or es i zero_entry))) j ≡ some e
unfolding find_owner
rekeyed-others fresh [] i j e f h r = h
rekeyed-others fresh (x ∷ es) zero zero e f h r = ground (arith, Option-cases (find_owner es))
rekeyed-others fresh (x ∷ es) zero (suc j) e f h r = h
rekeyed-others fresh (x ∷ es) (suc i) zero e f h r = h
rekeyed-others fresh (x ∷ es) (suc i) (suc j) e f h r =
    rekeyed-others fresh es i j e (ground (arith, Option-cases (find_owner es))) h r

-- A rotation of a valid list, stored or not, leaves every entry without the owner's role in its row
-- as it was.
pub rotate_others :
    (fresh : Bytes) (ok : Bool) (p : Paired) (j : ℕ) (e : Entry)
    → IsValid p.ram
    → get_elem? (live p.ram) j ≡ some e
    → e.role ≢ paired_role_owner
    → get_elem? (live (rotate_owner_key fresh ok p).0.ram) j ≡ some e
rotate_others fresh false p j e v h r = rw (rotate_failed fresh p) h
rotate_others fresh true p j e v h r = elim (Option-cases (find_owner (live p.ram))) [
  | inl f ↦ rw (not_rotated fresh p f) h
  | inr (i, f) ↦
      rw ((rotated fresh p i f).0, live-rekeyed fresh i p.ram (owner_row i v f))
        (rekeyed-others fresh (live p.ram) i j e f h r)
]

-- Rotating keeps a valid list valid, whether or not the write to flash succeeds.
pub rotate-IsValid :
    (fresh : Bytes) (ok : Bool) (p : Paired)
    → IsValid p.ram
    → IsValid (rotate_owner_key fresh ok p).0.ram
rotate-IsValid fresh false p v = rw (rotate_failed fresh p) v
rotate-IsValid fresh true p v = elim (Option-cases (find_owner (live p.ram))) [
  | inl f ↦ rw (not_rotated fresh p f) v
  | inr (i, f) ↦ rw (rotated fresh p i f).0 (rekeyed-IsValid i (owner_row i v f))
]
  where
    row_role :
        (i : ℕ) → i < p.ram.count → HasRole p.ram.owner_sub (get_or (live p.ram) i zero_entry)
    row_role i h =
        Every-get_in (HasRole p.ram.owner_sub) (live p.ram) i zero_entry v.roles
          (omega (arith, length-live v))

    rekeyed-IsValid : (i : ℕ) → i < p.ram.count → IsValid (rekeyed_blob fresh i p.ram)
    rekeyed-IsValid i h = record {
      versioned = v.versioned;
      size = length-set p.ram.entries i _ ∙ v.size;
      within = v.within;
      wiped = drop-set_lt p.ram.count i _ p.ram.entries h ∙ v.wiped;
      distinct =
          subst DistinctSubs (sym (live-rekeyed fresh i p.ram h))
            (set-DistinctSubs (live p.ram) i _ refl v.distinct);
      roles =
          subst (Every (HasRole p.ram.owner_sub)) (sym (live-rekeyed fresh i p.ram h))
            (Every-set (HasRole p.ram.owner_sub) (live p.ram) i _ v.roles (row_role i h));
      owned = v.owned;
    }
