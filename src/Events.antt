-- ===== src/Events.antt =====
-- src/security/pairing_events.[ch]: the bounded queue of pairing events, in RAM and in flash. The
-- queue is the list of the first `count` rows of the C array, the oldest first.
pub mod Queue
use cything.Prelude.{
  ◌*◌, ◌&&◌, ℕ, ◌+◌, ◌-◌, Bool, ◌||◌, Option, none, some, List, [], ◌∷◌, ◌++◌, ◌==◌, ltb, leb,
  if◌then◌else◌, length, take, drop,
}
use cything.Prelude.Bytes.{Bytes, codes, decimal}

abbrev pub events_max : ℕ
events_max = 8

abbrev pub event_json_max : ℕ
event_json_max = 256

-- `s_q` and the blob behind it.
pub record Events : Type 0 where
  pub queue : List Bytes
  pub flash : List Bytes

-- `json_escape` into a buffer of `size` bytes with `o` of them written.
unfoldable pub json_escape_from : ℕ → Bytes → ℕ → Bytes
json_escape_from size [] o = []
json_escape_from size (c ∷ cs) o =
    let special = (c == b'"') || (c == b'\\') in
    let rest = json_escape_from size cs (if special then o + 2 else o + 1) in
    if ltb (o + 2) size then (if special then b'\\' ∷ (c ∷ rest) else c ∷ rest) else []

abbrev pub json_escape : Bytes → ℕ → Bytes
json_escape s size = json_escape_from size s 0

-- The text that `pairing_events_push` prints.
abbrev pub event_text : Bytes → Bytes → Bytes → ℕ → Bytes
event_text event user_sub role at =
    codes "{\"event\":\""
    ++ json_escape event 16
    ++ codes "\",\"userSub\":\""
    ++ json_escape user_sub 81
    ++ codes "\",\"role\":\""
    ++ json_escape role 16
    ++ codes "\",\"at\":"
    ++ decimal at
    ++ codes "}"

-- The row of it, cut to the row's size.
unfoldable pub event_json : Bytes → Bytes → Bytes → ℕ → Bytes
unfolding json_escape_from decimal
event_json event user_sub role at = take (event_json_max - 1) (event_text event user_sub role at)

-- `nvs_store`: a write that fails leaves the flash as it was.
abbrev stored : Bool → Events → Events
stored ok q = if ok then record q { flash = q.queue } else q

-- `pairing_events_push`: a full queue drops its oldest row first.
unfoldable pub push : Bytes → Bytes → Bytes → ℕ → Bool → Events → Events
push event user_sub role at ok q =
    let kept = if leb events_max (length q.queue) then drop 1 q.queue else q.queue in
    stored ok (record q { queue = kept ++ (event_json event user_sub role at ∷ []) })

-- `pairing_events_pending`.
unfoldable pub pending : Events → ℕ
pending q = length q.queue

-- `pairing_events_peek` into a buffer of `size` bytes.
unfoldable pub peek : ℕ → Events → Option Bytes
peek size q = elim q.queue [ [] ↦ none | row ∷ rest ↦ some (take (size - 1) row) ]

-- `pairing_events_pop`.
unfoldable pub pop : Bool → Events → Events
pop ok q = elim q.queue [ [] ↦ q | row ∷ rest ↦ stored ok (record q { queue = rest }) ]

-- The blob in NVS: its count, its rows, and its size.
pub record Blob : Type 0 where
  pub count : ℕ
  pub rows : List Bytes
  pub size : ℕ

-- `offsetof(queue_t, json)`, and the size of a blob of so many rows.
abbrev pub blob_size : ℕ → ℕ
blob_size count = 4 + count * event_json_max

-- What `nvs_store` writes.
abbrev pub blob_of : List Bytes → Blob
blob_of rows = record { count = length rows; rows = rows; size = blob_size (length rows) }

-- `nvs_load`, where there may be no blob: a blob that is too large or of another size is dropped.
unfoldable pub nvs_load : Option Blob → List Bytes
nvs_load none = []
nvs_load (some b) =
    if leb b.count events_max && b.size == blob_size b.count then take b.count b.rows else []

-- `pairing_events_init`.
unfoldable pub init : Option Blob → Events
unfolding nvs_load
init blob = record { queue = nvs_load blob; flash = nvs_load blob }
