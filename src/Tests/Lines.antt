-- ===== src/Tests/Lines.antt =====
-- The theorems on frames and on the byte FIFO at short lines.
use cything.Tests.{echo, owner_session}
use cything.Prelude.{
  refl, true, false, none, List, [], ◌∷◌, ◌++◌, ◌≡◌, ◌≤◌, ◌<◌, ◌⊎◌, ◌+◌, replicate, arith, length,
}
use cything.Prelude.Bytes.{Bytes, codes}
use cything.Fifo.{Fifo, fifo_size, push, cleared}
use cything.Fifo.Contents.{IsValid, contents, terminated, push_lem}
use cything.Frame.{open_frame, accepted}
use cything.Frame.Nonces.{open_frame_replay}

-- Frame 3 to the device, of an empty line.
abbrev third : Bytes
third = 0 ∷ 0 ∷ 0 ∷ 1 ∷ 0 ∷ 0 ∷ 0 ∷ 0 ∷ 0 ∷ 0 ∷ 0 ∷ 3 ∷ []

open_frame_replay_example :
    open_frame echo (accepted third owner_session) third (replicate 16 0) ≡ none
open_frame_replay_example = open_frame_replay echo echo owner_session third (replicate 16 0)

-- A FIFO that holds "a\n".
abbrev one_line : Fifo
one_line = record { buf = codes "a\n" ++ replicate 5118 0; len = 2 }

one_line-IsValid : IsValid one_line
unfolding cleared
one_line-IsValid = record { size = refl; within = omega arith; clear = refl }

push_lem_example :
    IsValid (push (codes "bc") one_line).0
    × (((2 + length (terminated (codes "bc")) ≤ fifo_size)
          × ((push (codes "bc") one_line).1 ≡ true)
          × (contents (push (codes "bc") one_line).0
              ≡ contents one_line ++ terminated (codes "bc")))
        ⊎ ((fifo_size < 2 + length (terminated (codes "bc")))
            × (push (codes "bc") one_line ≡ (one_line, false))))
push_lem_example = push_lem (codes "bc") one_line one_line-IsValid

abbrev two_lines : List Bytes
two_lines = codes "ab" ∷ codes "c\n" ∷ []
