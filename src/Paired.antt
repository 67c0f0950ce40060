-- ===== src/Paired.antt =====
-- src/security/paired_list.[ch]: the paired accounts, in RAM and in flash. The RAM copy is the C
-- struct: an array of PAIRED_LIST_MAX entries of which the first `count` are in use. Whether a
-- write to flash succeeds is an argument; a write that fails is taken to leave the flash as it was.
pub mod Subs
pub mod Invariant
pub mod Enrolling
pub mod Removing
pub mod Rotating
pub mod Stored
pub mod Deduping
pub mod Booting
use cything.Prelude.{
  zero, suc, ◌||◌, ℕ, suc, ◌+◌, ◌-◌, Bool, true, false, ◌&&◌, not, Option, none, some, List, [],
  ◌∷◌, ◌++◌, map, ℤ, pos, negsuc, ◌==◌, ltb, leb, if◌then◌else◌, replicate, length, get_or, set,
  take,
}
use mathlib.Core.Option
use cything.Prelude.Arrays.{erase_at}
use cything.Prelude.Bytes.{Bytes, bytes_eq}
use cything.Session.{zeros}

abbrev pub paired_list_max : ℕ
paired_list_max = 16

abbrev pub paired_sub_max : ℕ
paired_sub_max = 40

abbrev pub paired_email_max : ℕ
paired_email_max = 64

abbrev pub blob_version : ℕ
blob_version = 3

-- `paired_role_t`, as the `uint8_t` that an entry stores.
abbrev pub paired_role_user : ℕ
paired_role_user = 1

abbrev pub paired_role_owner : ℕ
paired_role_owner = 2

-- `paired_entry_t`.
pub record Entry : Type 0 where
  pub user_sub : Bytes
  pub user_email : Bytes
  pub key : Bytes
  pub paired_at : ℕ
  pub role : ℕ

-- `paired_blob_t`.
pub record Blob : Type 0 where
  pub version : ℕ
  pub count : ℕ
  pub owner_sub : Bytes
  pub entries : List Entry

-- `paired_entry_v2_t`; install_id is read by nothing.
pub record EntryV2 : Type 0 where
  pub user_sub : Bytes
  pub display_name : Bytes
  pub key : Bytes
  pub paired_at : ℕ
  pub role : ℕ

-- What the NVS key holds: nothing, a blob of the v3 or of the v2 layout (the header's count, the
-- owner and the entries that follow it), or anything else.
pub data Flash : Type 0 where
  absent : Flash
  v3 : ℕ → Bytes → List Entry → Flash
  v2 : ℕ → Bytes → List EntryV2 → Flash
  unusable : Flash

-- `s_list` and the blob behind it.
pub record Paired : Type 0 where
  pub ram : Blob
  pub flash : Flash

pub data EspErr : Type 0 where
  esp_ok esp_not_found esp_fail : EspErr

abbrev pub zero_entry : Entry
zero_entry = record { user_sub = []; user_email = []; key = zeros 32; paired_at = 0; role = 0 }

-- `memset(&s_list, 0, sizeof(s_list)); s_list.version = BLOB_VERSION;`
abbrev pub empty_blob : Blob
empty_blob = record {
  version = blob_version;
  count = 0;
  owner_sub = [];
  entries = replicate paired_list_max zero_entry;
}

-- The entries in use.
abbrev pub live : Blob → List Entry
live b = take b.count b.entries

-- `copy_field` into a field of `size` bytes.
unfoldable pub copy_field : ℕ → Bytes → Bytes
copy_field size src = take (size - 1) src

-- `strncmp(a, b, PAIRED_SUB_MAX) == 0`.
unfoldable pub same_sub : Bytes → Bytes → Bool
same_sub a b = bytes_eq (take paired_sub_max a) (take paired_sub_max b)

abbrev pub is_empty : Bytes → Bool
is_empty [] = true
is_empty (c ∷ s) = false

-- `nvs_store`: what a successful write leaves in flash. The blob shrinks with the list.
unfoldable pub image : Blob → Flash
image b = if b.count == 0 then absent else v3 b.count b.owner_sub (live b)

unfoldable pub nvs_store : Bool → Paired → Paired × EspErr
unfolding image
nvs_store ok p = if ok then (record p { flash = image p.ram }, esp_ok) else (p, esp_fail)

unfoldable pub migrate_entry : EntryV2 → Entry
migrate_entry e = record {
  user_sub = e.user_sub;
  user_email = copy_field (paired_email_max + 1) e.display_name;
  key = e.key;
  paired_at = e.paired_at;
  role = e.role;
}

-- A blob whose header and length agree, in the array.
abbrev pub filled : ℕ → Bytes → List Entry → Blob
filled n owner es = record {
  version = blob_version;
  count = n;
  owner_sub = owner;
  entries = es ++ replicate (paired_list_max - n) zero_entry;
}

abbrev pub fits : ℕ → ℕ → Bool
fits n len = leb n paired_list_max && (len == n)

-- `nvs_load` with `migrate_v2`: the list, and whether it must be written back. `opened` is the
-- outcome of `nvs_open`, `heap` that of `calloc`.
unfoldable pub nvs_load : Bool → Bool → Flash → Blob × Bool
unfolding migrate_entry copy_field
nvs_load false heap f = (empty_blob, false)
nvs_load true heap absent = (empty_blob, false)
nvs_load true heap (v3 n owner es) =
    if fits n (length es) then (filled n owner es, false) else (empty_blob, false)
nvs_load true heap (v2 n owner es) =
    if heap && fits n (length es)
    then (filled n owner (map migrate_entry es), true)
    else (empty_blob, false)
nvs_load true heap unusable = (empty_blob, false)

-- `role_for_locked`.
unfoldable pub role_for : Bytes → Bytes → ℕ
role_for owner user_sub =
    if not (is_empty owner) && same_sub user_sub owner then paired_role_owner else paired_role_user

unfoldable pub find_row : Bytes → List Entry → Option ℕ
find_row user_sub [] = none
find_row user_sub (e ∷ es) =
    if same_sub e.user_sub user_sub then some 0 else Option.map suc (find_row user_sub es)

-- `paired_list_find`.
unfoldable pub find : Bytes → Blob → Option ℕ
unfolding find_row same_sub
find user_sub b = find_row user_sub (live b)

-- The index, if it is one of an entry in use.
abbrev pub in_range : ℤ → Blob → Option ℕ
in_range (pos i) b = if ltb i b.count then some i else none
in_range (negsuc i) b = none

-- `paired_list_get`.
unfoldable pub get : ℤ → Blob → Option Entry
get index b = Option.map (λ i. get_or b.entries i zero_entry) (in_range index b)

-- The first account to pair claims ownership.
abbrev pub claim : Bytes → Bytes → Bytes
claim owner user_sub = if is_empty owner then copy_field (paired_sub_max + 1) user_sub else owner

-- Undoing the claim.
abbrev pub unclaim : Bytes → Bytes
unclaim owner = if is_empty owner then [] else owner

-- What `paired_list_add` writes into the entry in either case: label, time and role.
abbrev pub stamp : Bytes → Bytes → Bytes → ℕ → Entry → Entry
stamp owner user_sub user_email paired_at e = record e {
  user_email =
      if is_empty user_email then e.user_email else copy_field (paired_email_max + 1) user_email;
  paired_at = paired_at;
  role = role_for owner user_sub;
}

-- The list with row `i` stamped: the account keeps its key.
abbrev pub kept : Bytes → Bytes → ℕ → ℕ → Blob → Blob
kept user_sub user_email paired_at i b =
    let owner = claim b.owner_sub user_sub in
    let e = stamp owner user_sub user_email paired_at (get_or b.entries i zero_entry) in
    record b { owner_sub = owner; entries = set b.entries i e }

-- The list with a new entry behind those in use.
abbrev pub appended : Bytes → Bytes → Bytes → ℕ → Blob → Blob
appended user_sub user_email key paired_at b =
    let owner = claim b.owner_sub user_sub in
    let blank = record zero_entry {
      user_sub = copy_field (paired_sub_max + 1) user_sub;
      key = key;
    } in
    let e = stamp owner user_sub user_email paired_at blank in
    record b { owner_sub = owner; entries = set b.entries b.count e; count = suc b.count }

-- What the caller of `paired_list_add` gets: the index, the account's key and the entry's role.
pub record Added : Type 0 where
  pub index : ℕ
  pub key : Bytes
  pub role : ℕ

-- The new list is stored, or everything is undone.
unfoldable pub commit : Bool → Paired → Blob → Added → Blob → Paired × Option Added
unfolding nvs_store
commit ok p b a undone =
    let (p', err) = nvs_store ok (record p { ram = b }) in
    elim err [ esp_ok ↦ (p', some a) | _ ↦ (record p' { ram = undone }, none) ]

-- `paired_list_add`; `none` for -1.
unfoldable pub add : Bytes → Bytes → Bytes → ℕ → Bool → Paired → Paired × Option Added
unfolding commit
add user_sub user_email key paired_at ok p =
    let owner = claim b.owner_sub user_sub in
    if is_empty user_sub then (p, none) else elim (find user_sub b) [
      | some i ↦
          let before = get_or b.entries i zero_entry in
          let b' = kept user_sub user_email paired_at i b in
          commit ok p b' (record { index = i; key = before.key; role = role_for owner user_sub })
            (record b' { owner_sub = unclaim b.owner_sub; entries = set b'.entries i before })
      | none ↦
          let b' = appended user_sub user_email key paired_at b in
          if leb paired_list_max b.count
          then (record p { ram = record b { owner_sub = unclaim b.owner_sub } }, none)
          else commit ok p b'
              (record { index = b.count; key = key; role = role_for owner user_sub })
              (record b' {
                owner_sub = unclaim b.owner_sub;
                entries = set b'.entries b.count zero_entry;
                count = b'.count - 1;
              })
    ]
  where
    b : Blob
    b = p.ram

-- Erase row `i` of those in use and wipe the freed slot.
abbrev erase_row : ℕ → Blob → Blob
erase_row i b = record b { entries = erase_at zero_entry b.entries b.count i; count = b.count - 1 }

-- `paired_list_remove`.
unfoldable pub remove : ℤ → Bool → Paired → Paired × EspErr
unfolding nvs_store
remove index ok p = elim (in_range index p.ram) [
  | none ↦ (p, esp_not_found)
  | some i ↦ nvs_store ok (record p { ram = erase_row i p.ram })
]

unfoldable pub find_owner : List Entry → Option ℕ
find_owner [] = none
find_owner (e ∷ es) = if e.role == paired_role_owner then some 0 else Option.map suc (find_owner es)

-- `paired_list_rotate_owner_key`; `fresh` is what `esp_fill_random` gives.
unfoldable pub rotate_owner_key : Bytes → Bool → Paired → Paired × EspErr
unfolding find_owner nvs_store
rotate_owner_key fresh ok p = elim (find_owner (live b)) [
  | none ↦ (p, esp_ok)
  | some i ↦
      let e = get_or b.entries i zero_entry in
      let written = set b.entries i (record e { key = fresh }) in
      let (p', err) = nvs_store ok (record p { ram = record b { entries = written } }) in
      elim err [
        | esp_ok ↦ (p', esp_ok)
        | other ↦ (record p' { ram = record b { entries = set written i e } }, other)
      ]
]
  where
    b : Blob
    b = p.ram

-- `paired_list_clear`.
unfoldable pub clear : Bool → Paired → Paired × EspErr
unfolding nvs_store
clear ok p = nvs_store ok (record p { ram = empty_blob })

-- The inner loop of `dedupe_accounts_locked`: `n` rounds from row `j`, against row `i`.
unfoldable pub dedupe_row : ℕ → ℕ → ℕ → Blob → Blob
dedupe_row zero i j b = b
dedupe_row (suc n) i j b =
    let same =
      same_sub (get_or b.entries j zero_entry).user_sub (get_or b.entries i zero_entry).user_sub in
    dedupe_row n i (if same then j else j + 1) (if same then erase_row j b else b)

-- The outer loop. Each round of the inner one erases a row or steps over it, so `count - j` do.
unfoldable pub dedupe_from : ℕ → ℕ → Blob → Blob
unfolding dedupe_row
dedupe_from zero i b = b
dedupe_from (suc n) i b =
    let rest = dedupe_from n (i + 1) (dedupe_row (b.count - (i + 1)) i (i + 1) b) in
    if ltb i b.count then rest else b

-- `dedupe_accounts_locked`: the list, and whether anything was removed.
unfoldable pub dedupe : Blob → Blob × Bool
unfolding dedupe_from
dedupe b = let b' = dedupe_from b.count 0 b in (b', ltb b'.count b.count)

-- `paired_list_init`: what is loaded, collapsed to one entry for each account, and written back if
-- that or a migration changed it.
unfoldable pub init : Bool → Bool → Bool → Flash → Paired
unfolding nvs_load dedupe nvs_store
init opened heap ok f =
    let (b, migrated) = nvs_load opened heap f in
    let (b', changed) = dedupe b in
    let p : Paired = record { ram = b'; flash = f } in
    if migrated || changed then (nvs_store ok p).0 else p
