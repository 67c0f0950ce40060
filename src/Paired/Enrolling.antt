-- ===== src/Paired/Enrolling.antt =====
-- src/security/paired_list.c: `paired_list_add`, when the write to flash succeeds and when it fails.
use cything.Prelude.{
  ℕ, zero, suc, ◌+◌, ◌-◌, ◌≤◌, ◌<◌, ◌≡◌, refl, ap, sym, ◌∙◌, ◌⊎◌, inl, inr, Bool, true, false, none,
  some, List, [], ◌∷◌, ◌++◌, map, arith, get_or, set, replicate, Option-cases, ◌↔◌,
}
use cything.Prelude.Arrays.{take-set_end, take-set, get_or-take, get_or-drop, set-set_back}
use mathlib.Core.Path.{subst}
use cything.Prelude.Bytes.{Bytes}
use cything.Paired.{
  Entry, Blob, Paired, Added, copy_field, role_for, find, find_row, paired_sub_max, zero_entry,
  paired_list_max, live, kept, appended, add, claim, unclaim, is_empty, stamp, commit, nvs_store,
  image,
}
use cything.Paired.Subs.{find_row-set, find_row-append, find_row-none, same_sub-copy_field}
use cything.Paired.Invariant.{
  IsValid, find_in_use, claim_found, kept-IsValid, appended-IsValid, length-live,
}

unclaim_lem : (owner : Bytes) → unclaim owner ≡ owner
unclaim_lem [] = refl
unclaim_lem (c ∷ s) = refl

undo_kept :
    (b : Blob) (user_sub user_email : Bytes) (paired_at i : ℕ)
    → let b' = kept user_sub user_email paired_at i b in
      record b' {
        owner_sub = unclaim b.owner_sub;
        entries = set b'.entries i (get_or b.entries i zero_entry);
      }
      ≡ b
undo_kept b user_sub user_email paired_at i = ground (
  arith,
  unclaim_lem b.owner_sub,
  set-set_back b.entries i
      (stamp (claim b.owner_sub user_sub) user_sub user_email paired_at
        (get_or b.entries i zero_entry))
      zero_entry,
)

-- The slot behind those in use is a wiped one.
next_slot_wiped :
    {b : Blob}
    → IsValid b
    → b.count < paired_list_max
    → get_or b.entries b.count zero_entry ≡ zero_entry
next_slot_wiped {b} v k =
    get_or-drop b.count zero_entry zero_entry (replicate (paired_list_max - suc b.count) zero_entry)
      b.entries
      (v.wiped
        ∙ ap (λ t. replicate t zero_entry) {x = paired_list_max - b.count}
            {y = suc (paired_list_max - suc b.count)} (omega arith))

undo_appended :
    {b : Blob} (user_sub user_email key : Bytes) (paired_at : ℕ)
    → IsValid b
    → b.count < paired_list_max
    → let b' = appended user_sub user_email key paired_at b in
      record b' {
        owner_sub = unclaim b.owner_sub;
        entries = set b'.entries b.count zero_entry;
        count = b'.count - 1;
      }
      ≡ b
undo_appended {b} user_sub user_email key paired_at v k = ground (
  arith,
  unclaim_lem b.owner_sub,
  next_slot_wiped v k,
  set-set_back b.entries b.count
      (stamp (claim b.owner_sub user_sub) user_sub user_email paired_at
        (record zero_entry { user_sub = copy_field (paired_sub_max + 1) user_sub; key = key }))
      zero_entry,
)

-- An enrolment into a valid list that returns -1, because the sub is empty, the list is full or the
-- write to flash failed, leaves the list in RAM and the blob in flash exactly as they were.
pub add_failed :
    (user_sub user_email key : Bytes) (paired_at : ℕ) (ok : Bool) (p : Paired)
    → IsValid p.ram
    → (add user_sub user_email key paired_at ok p).1 ≡ none
    → (add user_sub user_email key paired_at ok p).0 ≡ p
unfolding add commit nvs_store
add_failed user_sub user_email key paired_at ok p v h = elim (Option-cases (find user_sub p.ram)) [
  | inl e ↦
      ground
        (arith, e, unclaim_lem p.ram.owner_sub, undo_appended user_sub user_email key paired_at v)
  | inr (i, e) ↦ ground (arith, e, undo_kept p.ram user_sub user_email paired_at i)
]

-- How an enrolment succeeds: the account had row `i`, or it gets the row behind those in use.
record Stored (p p' : Paired) (b : Blob) : Type 0 where
  in_ram : p'.ram ≡ b
  in_flash : p'.flash ≡ image b

found_stored :
    (user_sub user_email key : Bytes) (paired_at : ℕ) (ok : Bool) (p : Paired) (i : ℕ) (a : Added)
    → find user_sub p.ram ≡ some i
    → (add user_sub user_email key paired_at ok p).1 ≡ some a
    → Stored p
        (add user_sub user_email key paired_at ok p).0
        (kept user_sub user_email paired_at i p.ram)
      × (a ≡ record {
        index = i;
        key = (get_or p.ram.entries i zero_entry).key;
        role = role_for (claim p.ram.owner_sub user_sub) user_sub;
      })
unfolding add commit nvs_store
found_stored user_sub user_email key paired_at ok p i a e h = ground (arith, e)

new_stored :
    (user_sub user_email key : Bytes) (paired_at : ℕ) (ok : Bool) (p : Paired) (a : Added)
    → find user_sub p.ram ≡ none
    → (add user_sub user_email key paired_at ok p).1 ≡ some a
    → Stored p
        (add user_sub user_email key paired_at ok p).0
        (appended user_sub user_email key paired_at p.ram)
      × (a ≡ record {
        index = p.ram.count;
        key = key;
        role = role_for (claim p.ram.owner_sub user_sub) user_sub;
      })
      × (is_empty user_sub ≡ false)
      × (p.ram.count < paired_list_max)
unfolding add commit nvs_store
new_stored user_sub user_email key paired_at ok p a e h = ground (arith, e)

-- Every enrolment that gives a row keeps the list valid and leaves RAM and flash in step.
pub added-IsValid :
    (user_sub user_email key : Bytes) (paired_at : ℕ) (ok : Bool) (p : Paired) (a : Added)
    → IsValid p.ram
    → (add user_sub user_email key paired_at ok p).1 ≡ some a
    → let p' = (add user_sub user_email key paired_at ok p).0 in
      IsValid p'.ram × (p'.flash ≡ image p'.ram)
added-IsValid user_sub user_email key paired_at ok p a v h =
    elim (Option-cases (find user_sub p.ram)) [
      | inl e ↦
          let (s, _, n, room) = new_stored user_sub user_email key paired_at ok p a e h in
          (
            subst IsValid (sym s.in_ram)
                (appended-IsValid user_sub user_email key paired_at v n e room),
            s.in_flash ∙ ap image (sym s.in_ram),
          )
      | inr (i, e) ↦
          let (s, _) = found_stored user_sub user_email key paired_at ok p i a e h in
          (
            subst IsValid (sym s.in_ram) (kept-IsValid user_sub user_email paired_at i v e),
            s.in_flash ∙ ap image (sym s.in_ram),
          )
    ]

-- Enrolling keeps a valid list valid, whether or not the write to flash succeeds.
pub add-IsValid :
    (user_sub user_email key : Bytes) (paired_at : ℕ) (ok : Bool) (p : Paired)
    → IsValid p.ram
    → IsValid (add user_sub user_email key paired_at ok p).0.ram
add-IsValid user_sub user_email key paired_at ok p v =
    elim (Option-cases (add user_sub user_email key paired_at ok p).1) [
      | inl e ↦
          subst (λ t. IsValid t.ram) (sym (add_failed user_sub user_email key paired_at ok p v e)) v
      | inr (a, e) ↦ (added-IsValid user_sub user_email key paired_at ok p a v e).0
    ]

-- `paired_list_add` returns -1 exactly when the sub is empty, when the account is new and the list
-- is full, or when the write to flash fails.
pub add-none_iff :
    (user_sub user_email key : Bytes) (paired_at : ℕ) (ok : Bool) (p : Paired)
    → ((add user_sub user_email key paired_at ok p).1 ≡ none) ↔ (
        (is_empty user_sub ≡ true)
        ⊎ (ok ≡ false)
        ⊎ ((find user_sub p.ram ≡ none) × (paired_list_max ≤ p.ram.count)))
unfolding add commit nvs_store
add-none_iff user_sub user_email key paired_at ok p = (λ h. ground arith, λ h. ground arith)

abbrev pub keys : List Entry → List Bytes
keys = map (λ e. e.key)

keys-set :
    (es : List Entry) (i : ℕ) (e : Entry)
    → e.key ≡ (get_or es i zero_entry).key
    → keys (set es i e) ≡ keys es
keys-set [] i e q = refl
keys-set (x ∷ es) zero e q = rw q
keys-set (x ∷ es) (suc i) e q = ap (λ t. x.key ∷ t) (keys-set es i e q)

keys-append : (es : List Entry) (e : Entry) → keys (es ++ (e ∷ [])) ≡ keys es ++ (e.key ∷ [])
keys-append [] e = refl
keys-append (x ∷ es) e = ap (λ t. x.key ∷ t) (keys-append es e)

keys-kept :
    (b : Blob) (user_sub user_email : Bytes) (paired_at i : ℕ)
    → i < b.count
    → keys (live (kept user_sub user_email paired_at i b)) ≡ keys (live b)
keys-kept b user_sub user_email paired_at i h =
    rw (take-set b.count i e b.entries)
      (keys-set (live b) i e (ap (λ t. t.key) (sym (get_or-take b.count i zero_entry b.entries h))))
  where
    e : Entry
    e =
        stamp (claim b.owner_sub user_sub) user_sub user_email paired_at
          (get_or b.entries i zero_entry)

find-kept :
    (b : Blob) (user_sub user_email : Bytes) (paired_at i : ℕ)
    → i < b.count
    → find user_sub b ≡ some i
    → find user_sub (kept user_sub user_email paired_at i b) ≡ some i
unfolding find
find-kept b user_sub user_email paired_at i h f = rw (take-set b.count i e b.entries) (
    find_row-set user_sub (live b) i e
      (ap (λ t. t.user_sub) (sym (get_or-take b.count i zero_entry b.entries h))) f)
  where
    e : Entry
    e =
        stamp (claim b.owner_sub user_sub) user_sub user_email paired_at
          (get_or b.entries i zero_entry)

-- The entry that a new account gets.
abbrev entry_for : Blob → Bytes → Bytes → Bytes → ℕ → Entry
entry_for b user_sub user_email key paired_at =
    stamp (claim b.owner_sub user_sub) user_sub user_email paired_at
      (record zero_entry { user_sub = copy_field (paired_sub_max + 1) user_sub; key = key })

live-appended :
    {b : Blob} (user_sub user_email key : Bytes) (paired_at : ℕ)
    → IsValid b
    → b.count < paired_list_max
    → live (appended user_sub user_email key paired_at b)
      ≡ live b ++ (entry_for b user_sub user_email key paired_at ∷ [])
live-appended {b} user_sub user_email key paired_at v k =
    take-set_end b.count (entry_for b user_sub user_email key paired_at) b.entries
      (omega (arith, v.size))

find-appended :
    {b : Blob} (user_sub user_email key : Bytes) (paired_at : ℕ)
    → IsValid b
    → b.count < paired_list_max
    → find user_sub b ≡ none
    → find user_sub (appended user_sub user_email key paired_at b) ≡ some b.count
unfolding find
find-appended {b} user_sub user_email key paired_at v k h =
    ap (find_row user_sub) (live-appended user_sub user_email key paired_at v k)
    ∙ find_row-append user_sub (live b) (entry_for b user_sub user_email key paired_at)
        (find_row-none user_sub (live b) h) (same_sub-copy_field user_sub)
    ∙ ap some (length-live v)

-- When an enrolment into a valid list succeeds, an account that is already paired keeps its row and
-- its key, which the caller gets back; no key of the list changes, RAM and flash agree, and the
-- account is found in its row.
pub add_existing :
    (user_sub user_email key : Bytes) (paired_at : ℕ) (ok : Bool) (p : Paired) (i : ℕ) (a : Added)
    → IsValid p.ram
    → find user_sub p.ram ≡ some i
    → (add user_sub user_email key paired_at ok p).1 ≡ some a
    → let p' = (add user_sub user_email key paired_at ok p).0 in
      (a.index ≡ i)
      × (a.key ≡ (get_or p.ram.entries i zero_entry).key)
      × (keys (live p'.ram) ≡ keys (live p.ram))
      × (p'.ram.owner_sub ≡ p.ram.owner_sub)
      × (find user_sub p'.ram ≡ some i)
      × (p'.flash ≡ image p'.ram)
add_existing user_sub user_email key paired_at ok p i a v e h =
    let (s, q) = found_stored user_sub user_email key paired_at ok p i a e h in
    let inside = (find_in_use user_sub i v e).0 in
    (
      ap (λ t. t.index) q,
      ap (λ t. t.key) q,
      ap (λ t. keys (live t)) s.in_ram ∙ keys-kept p.ram user_sub user_email paired_at i inside,
      ap (λ t. t.owner_sub) s.in_ram ∙ claim_found user_sub i v inside,
      ap (find user_sub) s.in_ram ∙ find-kept p.ram user_sub user_email paired_at i inside e,
      s.in_flash ∙ ap image (sym s.in_ram),
    )

-- When an enrolment into a valid list succeeds, a new account gets the row behind the others with
-- the fresh key that the caller passed; the keys of the other accounts stay, RAM and flash agree,
-- and the account is found in its row.
pub add_new :
    (user_sub user_email key : Bytes) (paired_at : ℕ) (ok : Bool) (p : Paired) (a : Added)
    → IsValid p.ram
    → find user_sub p.ram ≡ none
    → (add user_sub user_email key paired_at ok p).1 ≡ some a
    → let p' = (add user_sub user_email key paired_at ok p).0 in
      (a.index ≡ p.ram.count)
      × (a.key ≡ key)
      × (keys (live p'.ram) ≡ keys (live p.ram) ++ (key ∷ []))
      × (find user_sub p'.ram ≡ some p.ram.count)
      × (p'.flash ≡ image p'.ram)
add_new user_sub user_email key paired_at ok p a v e h =
    let (s, q, n, room) = new_stored user_sub user_email key paired_at ok p a e h in
    (
      ap (λ t. t.index) q,
      ap (λ t. t.key) q,
      ap (λ t. keys (live t)) s.in_ram
          ∙ ap keys (live-appended user_sub user_email key paired_at v room)
          ∙ keys-append (live p.ram) (entry_for p.ram user_sub user_email key paired_at),
      ap (find user_sub) s.in_ram ∙ find-appended user_sub user_email key paired_at v room e,
      s.in_flash ∙ ap image (sym s.in_ram),
    )
