-- ===== src/Events/Queue.antt =====
-- The queue of pairing events of src/security/pairing_events.c.
use cything.Prelude.{
  if_true, leb, ◌&&◌, ◌==◌, ltb→lt, ℕ, ◌<◌, ◌≤◌, ◌≡◌, refl, ap, ◌∙◌, arith, Bool, true, false, some,
  List, [], ◌∷◌, ◌++◌, ltb, length, length-append, length-take, length-drop, take, drop, Bool-cases,
  inl, inr, take_of-le,
}
use cything.Prelude.Bytes.{Bytes}
use cything.Prelude.Every.{Every, Every-append}
use cything.Events.{
  blob_of, blob_size, nvs_load, init, Events, events_max, event_json_max, event_json, event_text,
  push, peek, pop,
}

-- Rows that fit a row of the C array, and the buffer of `pairing_events_peek`.
abbrev pub Fits : List Bytes → Type 0
Fits rows = Every (λ row. length row < event_json_max) rows

pub pop-queue :
    (ok : Bool) (q : Events) (row : Bytes) (rest : List Bytes)
    → q.queue ≡ row ∷ rest
    → (pop ok q).queue ≡ rest
unfolding pop
pop-queue true q row rest e = rw (pop, e) refl
pop-queue false q row rest e = rw (pop, e) refl

peek-rows :
    (q : Events) (rows : List Bytes) (row : Bytes)
    → q.queue ≡ rows
    → Fits rows
    → peek event_json_max q ≡ some row
    → (rest : List Bytes) × (rows ≡ row ∷ rest)
unfolding peek
peek-rows q [] row e fits some_row = cc
peek-rows q (oldest ∷ rest) row e fits some_row =
    let whole : take 255 oldest ≡ oldest = take_of-le 255 oldest (omega (arith, fits.0)) in
    let same : some (take 255 oldest) ≡ some row = cc in (rest, cc)

-- A row that is peeked is the oldest one, whole.
pub peek-some :
    (q : Events) (row : Bytes)
    → Fits q.queue
    → peek event_json_max q ≡ some row
    → (rest : List Bytes) × (q.queue ≡ row ∷ rest)
peek-some q row fits e = peek-rows q q.queue row refl fits e

cut_short : (s : Bytes) → length (take 255 s) < event_json_max
cut_short s = omega (arith, length-take 255 s)

Fits-tail : (rows : List Bytes) → Fits rows → Fits (drop 1 rows)
Fits-tail [] fits = tt
Fits-tail (row ∷ rows) fits = fits.1

module _ (event user_sub role : Bytes) (at : ℕ) (ok : Bool) (q : Events) where
  abbrev new_row : Bytes
  new_row = event_json event user_sub role at

  new_row-fits : length new_row < event_json_max
  unfolding event_json
  new_row-fits = cut_short (event_text event user_sub role at)

  -- An event goes behind those that wait; of eight that wait the oldest one is dropped.
  pub push_lem :
      (length q.queue < events_max
        → (push event user_sub role at ok q).queue
          ≡ q.queue ++ (event_json event user_sub role at ∷ []))
      × (length q.queue ≡ events_max
          → (push event user_sub role at ok q).queue
            ≡ drop 1 q.queue ++ (event_json event user_sub role at ∷ []))
  unfolding push
  push_lem = (λ h. ground (arith, h), λ h. ground (arith, h))

  -- A push keeps the queue within its eight rows, each of which fits its row of the array with its
  -- NUL, whatever the lengths of the event's fields are.
  pub push-bounded :
      length q.queue ≤ events_max
      → Fits q.queue
      → (length (push event user_sub role at ok q).queue ≤ events_max)
        × Fits (push event user_sub role at ok q).queue
  push-bounded h fits = elim (Bool-cases (ltb (length q.queue) events_max)) [
    | inl less ↦ rw (push_lem.0 (ltb→lt _ _ less)) (
      omega (arith, ltb→lt _ _ less, length-append q.queue (new_row ∷ [])),
      Every-append _ q.queue (new_row ∷ []) fits (new_row-fits, tt),
    )
    | inr full ↦
        let eight : length q.queue ≡ events_max = ground (arith, full, h) in
        rw (push_lem.1 eight) (
          omega
              (arith, eight, length-drop 1 q.queue, length-append (drop 1 q.queue) (new_row ∷ [])),
          Every-append _ (drop 1 q.queue) (new_row ∷ []) (Fits-tail q.queue fits)
              (new_row-fits, tt),
        )
  ]

  -- If an event comes between the peek of the oldest of eight events and the pop that follows its
  -- publish, the row that is popped is the next one, which was never peeked: it is gone from the
  -- queue, and the queue holds neither of the two.
  pub pop-push-full :
      (published next : Bytes) (rest : List Bytes) (popped : Bool)
      → q.queue ≡ published ∷ next ∷ rest
      → length q.queue ≡ events_max
      → (pop popped (push event user_sub role at ok q)).queue
        ≡ rest ++ (event_json event user_sub role at ∷ [])
  pop-push-full published next rest popped e full =
      pop-queue popped (push event user_sub role at ok q) next (rest ++ (new_row ∷ []))
        (push_lem.1 full ∙ ap (λ rows. drop 1 rows ++ (new_row ∷ [])) e)

-- The events that were stored are there again after a boot, in their order.
pub init-blob_of :
    (rows : List Bytes) → length rows ≤ events_max → (init (some (blob_of rows))).queue ≡ rows
unfolding init nvs_load
init-blob_of rows h =
    if_true (leb (length rows) events_max && blob_size (length rows) == blob_size (length rows)) _
      [] (ground (arith, h))
    ∙ take_of-le (length rows) rows (omega arith)
