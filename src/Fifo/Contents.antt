-- ===== src/Fifo/Contents.antt =====
-- src/common/response_fifo.c against a queue of bytes.
use cything.Prelude.{
  ltb→lt, ltb, min, inr, inl, ◌⊎◌, ℕ, ◌+◌, ◌-◌, ◌≤◌, ◌<◌, ◌≡◌, sym, ap, ◌∙◌, true, false, [], ◌∷◌,
  ◌++◌, if◌then◌else◌, length, take, drop, arith, length-append, length-take, length-drop,
  Bool-cases, append_assoc,
}
use cything.Prelude.Bytes.{Bytes}
use cything.Fifo.{ltb, drain, Fifo, fifo_size, push, overwrite, ends_line, cleared}
use cything.Fifo.Blocks.{
  take-exact, drop-exact, drop-drop, take-add, drop-cleared, cleared-append, length-cleared,
  contents-overwrite, rest-overwrite, length-overwrite,
}

-- The bytes that wait, oldest first.
abbrev pub contents : Fifo → Bytes
contents f = take f.len f.buf

-- The block has its size, and what is not in use is zero.
pub record IsValid (f : Fifo) : Type 0 where
  pub size : length f.buf ≡ fifo_size
  pub within : f.len ≤ fifo_size
  pub clear : drop f.len f.buf ≡ cleared (fifo_size - f.len)

abbrev copied : Bytes → Fifo → Fifo
copied bytes f = record f { buf = overwrite f.buf f.len bytes; len = f.len + length bytes }

copied-IsValid :
    (bytes : Bytes) {f : Fifo}
    → IsValid f
    → f.len + length bytes ≤ fifo_size
    → IsValid (copied bytes f)
copied-IsValid bytes {f} v h = record {
  size = length-overwrite f.buf bytes f.len room ∙ v.size;
  within = h;
  clear =
      rest-overwrite f.buf bytes f.len room
      ∙ sym (drop-drop (length bytes) f.len f.buf)
      ∙ ap (drop (length bytes)) v.clear
      ∙ drop-cleared (length bytes) (fifo_size - f.len)
      ∙ ap cleared {x = fifo_size - f.len - length bytes} {y = fifo_size - (f.len + length bytes)}
          (omega arith);
}
  where
    room : f.len + length bytes ≤ length f.buf
    room = omega (arith, v.size)

contents-copied :
    (bytes : Bytes) {f : Fifo}
    → IsValid f
    → f.len + length bytes ≤ fifo_size
    → contents (copied bytes f) ≡ contents f ++ bytes
contents-copied bytes {f} v h = contents-overwrite f.buf bytes f.len (omega (arith, v.size))

-- The line with a line end behind it, added if it had none.
abbrev pub terminated : Bytes → Bytes
terminated line = if ends_line line then line else line ++ (b'\n' ∷ [])

-- Into a valid FIFO, a push that fits appends the line, ended by a line end, behind what waits. A
-- push that does not fit is refused and changes nothing. Either way the FIFO stays valid.
pub push_lem :
    (line : Bytes) (f : Fifo)
    → IsValid f
    → IsValid (push line f).0
      × (((f.len + length (terminated line) ≤ fifo_size)
            × ((push line f).1 ≡ true)
            × (contents (push line f).0 ≡ contents f ++ terminated line))
          ⊎ ((fifo_size < f.len + length (terminated line)) × (push line f ≡ (f, false))))
unfolding push
push_lem line f v = elim (Bool-cases (ends_line line)) [
  | inl e ↦ ground (arith, e, copied-IsValid line v, contents-copied line v)
  | inr e ↦ ground (
    arith,
    e,
    length-append line (b'\n' ∷ []),
    copied-IsValid line v,
    contents-copied line v,
    λ (h : f.len + length line ≤ fifo_size). copied-IsValid (b'\n' ∷ []) (copied-IsValid line v h),
    λ (h : f.len + length line ≤ fifo_size). contents-copied (b'\n' ∷ []) (copied-IsValid line v h),
    append_assoc (contents f) line (b'\n' ∷ []),
  )
]

-- What `drain` moves to the front, and what it leaves behind.
module _ (f : Fifo) (n : ℕ) (v : IsValid f) (h : n ≤ f.len) where
  kept : Bytes
  kept = take (f.len - n) (drop n f.buf)

  length-kept : length kept ≡ f.len - n
  unfolding kept
  length-kept =
      omega (arith, length-take (f.len - n) (drop n f.buf), length-drop n f.buf, v.size, v.within)

  moved : Bytes
  moved = overwrite f.buf 0 kept

  length-moved : length moved ≡ fifo_size
  unfolding moved
  length-moved =
      length-overwrite f.buf kept 0 (omega (arith, length-kept, v.size, v.within)) ∙ v.size

  take-moved : take (f.len - n) moved ≡ kept
  unfolding moved
  take-moved = take-exact (f.len - n) kept (drop (0 + length kept) f.buf) (sym length-kept)

  drop-moved : drop f.len moved ≡ cleared (fifo_size - f.len)
  unfolding moved
  drop-moved =
      ap (λ t. drop t (overwrite f.buf 0 kept)) {x = f.len} {y = (f.len - n) + n} (omega arith)
      ∙ sym (drop-drop n (f.len - n) (overwrite f.buf 0 kept))
      ∙ ap (drop n) (drop-exact (f.len - n) kept (drop (0 + length kept) f.buf) (sym length-kept))
      ∙ drop-drop n (0 + length kept) f.buf
      ∙ ap (λ t. drop t f.buf) {x = 0 + length kept + n} {y = f.len} (omega (arith, length-kept))
      ∙ v.clear

  -- The buffer after `drain` took `n` bytes.
  drained : Fifo
  drained = record f { buf = overwrite moved (f.len - n) (cleared n); len = f.len - n }

  room : f.len - n + length (cleared n) ≤ length moved
  room = omega (arith, length-moved, length-cleared n, v.within)

  drained-IsValid : IsValid drained
  unfolding drained
  drained-IsValid = record {
    size = length-overwrite moved (cleared n) (f.len - n) room ∙ length-moved;
    within = omega (arith, v.within);
    clear =
        drop-exact (f.len - n) (take (f.len - n) moved)
          (cleared n ++ drop (f.len - n + length (cleared n)) moved) front
        ∙ ap (λ t. cleared n ++ drop t moved) {x = f.len - n + length (cleared n)} {y = f.len}
            (omega (arith, length-cleared n))
        ∙ ap (λ t. cleared n ++ t) drop-moved
        ∙ cleared-append n (fifo_size - f.len)
        ∙ ap cleared {x = n + (fifo_size - f.len)} {y = fifo_size - (f.len - n)}
            (omega (arith, v.within));
  }
    where
      front : f.len - n ≡ length (take (f.len - n) moved)
      front = omega (arith, length-take (f.len - n) moved, length-moved, v.within)

  contents-drained : contents drained ≡ kept
  unfolding drained
  contents-drained =
      take-exact (f.len - n) (take (f.len - n) moved)
        (cleared n ++ drop (f.len - n + length (cleared n)) moved)
        (omega (arith, length-take (f.len - n) moved, length-moved, v.within))
      ∙ take-moved

  -- What was taken and what is left make up what waited.
  split-contents : contents f ≡ take n f.buf ++ contents drained
  unfolding kept
  split-contents =
      ap (λ t. take t f.buf) {x = f.len} {y = n + (f.len - n)} (omega arith)
      ∙ sym (take-add n (f.len - n) f.buf)
      ∙ ap (λ t. take n f.buf ++ t) (sym contents-drained)

-- Draining a valid FIFO takes the oldest bytes, as many as fit, and leaves the rest in order; the
-- FIFO stays valid, so the bytes that were taken are cleared from the block.
pub drain_lem :
    (cap : ℕ) (f : Fifo)
    → IsValid f
    → IsValid (drain cap f).0
      × (contents f ≡ (drain cap f).1 ++ contents (drain cap f).0)
      × (length (drain cap f).1 ≡ min f.len cap)
unfolding drain drained moved kept
drain_lem cap f v = elim (Bool-cases (ltb f.len cap)) [
  | inl e ↦
      let h : f.len ≤ f.len = omega arith in
      rw e (
        drained-IsValid f f.len v h,
        split-contents f f.len v h,
        omega (arith, ltb→lt f.len cap e, length-take f.len f.buf, v.size, v.within),
      )
  | inr e ↦
      let h : cap ≤ f.len = ground (arith, e) in
      rw e (
        drained-IsValid f cap v h,
        split-contents f cap v h,
        omega (arith, h, length-take cap f.buf, v.size, v.within),
      )
]
