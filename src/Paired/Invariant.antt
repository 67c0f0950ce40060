-- ===== src/Paired/Invariant.antt =====
-- src/security/paired_list.c: what holds of the list between two calls, and that a failed write is
-- undone.
use cything.Prelude.{
  ℕ, zero, suc, ◌+◌, ◌-◌, ◌≤◌, ◌<◌, ◌≡◌, refl, ap, sym, ◌∙◌, inl, inr, true, false, none, some,
  List, [], ◌∷◌, arith, length, get_or, take, drop, replicate, Bool-cases, length-set, length-take,
}
use cything.Prelude.Arrays.{take-set_end, take-set, drop-set_lt, drop-suc, get_or-take}
use cything.Prelude.Bytes.{Bytes}
use cything.Prelude.Every.{Every, Every-set, Every-append}
use cything.Paired.{
  empty_blob, Entry, Blob, same_sub, copy_field, role_for, find, paired_sub_max, zero_entry,
  paired_list_max, blob_version, live, kept, appended, claim, is_empty, stamp,
}
use cything.Paired.Subs.{
  DistinctSubs, find_row-some, find_row-none, set-DistinctSubs, append-DistinctSubs, role_for_congr,
  same_sub-copy_field, NoSub-congr, same_sub_comm,
}

-- The role of an entry is OWNER exactly for the owning account.
abbrev pub HasRole : Bytes → Entry → Type 0
HasRole owner e = e.role ≡ role_for owner e.user_sub

-- The list in RAM: the array has its size, the slots behind those in use are wiped (no key lingers
-- there), each account has one entry, each entry's role follows the owner, and there is an owner
-- as soon as there is an entry.
pub record IsValid (b : Blob) : Type 0 where
  pub versioned : b.version ≡ blob_version
  pub size : length b.entries ≡ paired_list_max
  pub within : b.count ≤ paired_list_max
  pub wiped : drop b.count b.entries ≡ replicate (paired_list_max - b.count) zero_entry
  pub distinct : DistinctSubs (live b)
  pub roles : Every (HasRole b.owner_sub) (live b)
  pub owned : 0 < b.count → is_empty b.owner_sub ≡ false

pub length-live : {b : Blob} → IsValid b → length (live b) ≡ b.count
length-live {b} v = omega (arith, length-take b.count b.entries, v.size, v.within)

-- The row that is found is in use, and is the account's.
pub find_in_use :
    {b : Blob} (user_sub : Bytes) (i : ℕ)
    → IsValid b
    → find user_sub b ≡ some i
    → (i < b.count) × (same_sub (get_or b.entries i zero_entry).user_sub user_sub ≡ true)
unfolding find
find_in_use {b} user_sub i v h =
    let found = find_row-some user_sub (live b) i h in
    let inside : i < b.count = omega (arith, length-live v, found.0) in
    (inside, rw (← get_or-take b.count i zero_entry b.entries inside) found.1)

Every-take_zero {ℓ κ} :
    {A : Type ℓ} (P : A → Type κ) (n : ℕ) (xs : List A) → n ≡ 0 → Every P (take n xs)
Every-take_zero P zero xs e = tt
Every-take_zero P (suc n) xs e = absurd (omega arith)

is_empty-copy_field :
    (s : Bytes) → is_empty s ≡ false → is_empty (copy_field (paired_sub_max + 1) s) ≡ false
unfolding copy_field
is_empty-copy_field [] h = h
is_empty-copy_field (c ∷ s) h = refl

-- A claim is made only on an empty list, so it changes nobody's role.
claim_roles :
    {b : Blob} (user_sub : Bytes)
    → IsValid b
    → Every (HasRole (claim b.owner_sub user_sub)) (live b)
claim_roles {b} user_sub v = elim (Bool-cases (is_empty b.owner_sub)) [
  | inl e ↦ Every-take_zero _ b.count b.entries (ground (arith, v.owned, e))
  | inr e ↦ rw e v.roles
]

-- An account that is found is not the first, so the owner stays.
pub claim_found :
    {b : Blob} (user_sub : Bytes) (i : ℕ)
    → IsValid b
    → i < b.count
    → claim b.owner_sub user_sub ≡ b.owner_sub
claim_found {b} user_sub i v h =
    let e : is_empty b.owner_sub ≡ false = v.owned (omega arith) in rw e

pub kept-IsValid :
    {b : Blob} (user_sub user_email : Bytes) (paired_at i : ℕ)
    → IsValid b
    → find user_sub b ≡ some i
    → IsValid (kept user_sub user_email paired_at i b)
kept-IsValid {b} user_sub user_email paired_at i v h = record {
  versioned = v.versioned;
  size = length-set b.entries i e ∙ v.size;
  within = v.within;
  wiped = drop-set_lt b.count i e b.entries found.0 ∙ v.wiped;
  distinct = rw (take-set b.count i e b.entries) (
      set-DistinctSubs (live b) i e
        (ap (λ t. t.user_sub) (sym (get_or-take b.count i zero_entry b.entries found.0)))
        v.distinct);
  roles = rw (take-set b.count i e b.entries) (
      Every-set (HasRole owner) (live b) i e (claim_roles user_sub v)
        (sym (role_for_congr owner e.user_sub user_sub found.1)));
  owned = λ p. rw (claim_found user_sub i v found.0) (v.owned p);
}
  where
    found : (i < b.count) × (same_sub (get_or b.entries i zero_entry).user_sub user_sub ≡ true)
    found = find_in_use user_sub i v h

    owner : Bytes
    owner = claim b.owner_sub user_sub

    e : Entry
    e = stamp owner user_sub user_email paired_at (get_or b.entries i zero_entry)

pub appended-IsValid :
    {b : Blob} (user_sub user_email key : Bytes) (paired_at : ℕ)
    → IsValid b
    → is_empty user_sub ≡ false
    → find user_sub b ≡ none
    → b.count < paired_list_max
    → IsValid (appended user_sub user_email key paired_at b)
unfolding find
appended-IsValid {b} user_sub user_email key paired_at v n h k = record {
  versioned = v.versioned;
  size = length-set b.entries b.count e ∙ v.size;
  within = k;
  wiped =
      drop-set_lt (suc b.count) b.count e b.entries (omega arith)
      ∙ drop-suc b.count zero_entry (replicate (paired_list_max - suc b.count) zero_entry) b.entries
          (v.wiped
            ∙ ap (λ t. replicate t zero_entry) {x = paired_list_max - b.count}
                {y = suc (paired_list_max - suc b.count)} (omega arith));
  distinct = rw (take-set_end b.count e b.entries room) (
      append-DistinctSubs (live b) e v.distinct
        (NoSub-congr user_sub e.user_sub (live b) same (find_row-none user_sub (live b) h)));
  roles = rw (take-set_end b.count e b.entries room) (
      Every-append (HasRole owner) (live b) (e ∷ []) (claim_roles user_sub v)
        (role_for_congr owner user_sub e.user_sub same, tt));
  owned = λ p. ground (arith, is_empty-copy_field user_sub n);
}
  where
    owner : Bytes
    owner = claim b.owner_sub user_sub

    e : Entry
    e =
        stamp owner user_sub user_email paired_at
          (record zero_entry { user_sub = copy_field (paired_sub_max + 1) user_sub; key = key })

    room : b.count < length b.entries
    room = omega (arith, v.size)

    same : same_sub user_sub (copy_field (paired_sub_max + 1) user_sub) ≡ true
    same = same_sub_comm user_sub _ ∙ same_sub-copy_field user_sub

-- The list after `memset`.
pub empty-IsValid : IsValid empty_blob
empty-IsValid = ground arith
