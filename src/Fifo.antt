-- ===== src/Fifo.antt =====
-- src/common/response_fifo.[ch] with RESPONSE_FIFO_DROP_NEW: the byte FIFO between the tasks that
-- produce lines and the task that sends them. Each call runs under the FIFO's mutex, so it is one
-- step; the semaphores carry no data.
pub mod Blocks
pub mod Contents
pub mod Lines
use cything.Prelude.{
  ℕ, zero, suc, ◌+◌, ◌-◌, ◌≡◌, Bool, true, false, ◌&&◌, ◌||◌, not, Option, none, some, List, [],
  ◌∷◌, ◌++◌, ◌==◌, ltb, leb, if◌then◌else◌, length, take, drop, replicate,
}
use cything.Prelude.Bytes.{Bytes}

-- RESPONSE_FIFO_SIZE.
abbrev pub fifo_size : ℕ
fifo_size = 5120

-- `response_fifo_t` without its semaphores and name.
pub record Fifo : Type 0 where
  pub buf : Bytes
  pub len : ℕ

-- `memset` of a whole block to 0.
unfoldable pub cleared : ℕ → Bytes
cleared n = replicate n 0

-- `memcpy(buf + at, bytes, …)`, inside the block.
abbrev pub overwrite : Bytes → ℕ → Bytes → Bytes
overwrite buf at bytes = take at buf ++ (bytes ++ drop (at + length bytes) buf)

unfoldable pub init : Fifo
init = record { buf = cleared fifo_size; len = 0 }

-- Whether the line already ends with a line end.
unfoldable pub ends_line : Bytes → Bool
ends_line [] = false
ends_line (c ∷ []) = c == b'\n'
ends_line (c ∷ d ∷ s) = ends_line (d ∷ s)

-- `response_fifo_push`.
unfoldable pub push : Bytes → Fifo → Fifo × Bool
push line f =
    let add_nl = not (ends_line line) in
    let need = length line + (if add_nl then 1 else 0) in
    let copied = record f { buf = overwrite f.buf f.len line; len = f.len + length line } in
    if ltb fifo_size need
    then (f, false)
    else if ltb fifo_size (f.len + need)
    then (f, false)
    else (
      if add_nl
          then record copied {
            buf = overwrite copied.buf copied.len (b'\n' ∷ []);
            len = copied.len + 1;
          }
          else copied,
      true,
    )

-- `response_fifo_drain` into a buffer of `cap` bytes: the bytes copied out, and the FIFO.
unfoldable pub drain : ℕ → Fifo → Fifo × Bytes
drain cap f =
    let n = (if ltb f.len cap then f.len else cap) in
    let left = f.len - n in
    let moved = overwrite f.buf 0 (take left (drop n f.buf)) in
    (record f { buf = overwrite moved left (cleared n); len = left }, take n f.buf)

unfoldable pub is_empty : Fifo → Bool
is_empty f = f.len == 0
