-- ===== src/Fifo/Lines.antt =====
-- Lines pushed one behind the other and drained, for src/common/response_fifo.c.
use cything.Prelude.{
  append-nil, inr, inl, ◌+◌, ◌≤◌, ◌≡◌, refl, sym, ap, ◌∙◌, List, [], ◌∷◌, ◌++◌, length, arith,
  length-append, length-take, append_assoc,
}
use cything.Prelude.Bytes.{Bytes}
use cything.Fifo.{drain, Fifo, fifo_size, push, init}
use cything.Fifo.Blocks.{length-cleared}
use cything.Fifo.Contents.{IsValid, contents, terminated, push_lem, drain_lem}

-- A run of pushes.
unfoldable pub push_all : List Bytes → Fifo → Fifo
push_all [] f = f
push_all (line ∷ lines) f = push_all lines (push line f).0

-- The lines one behind the other, each ended by a line end.
abbrev pub joined : List Bytes → Bytes
joined [] = []
joined (line ∷ lines) = terminated line ++ joined lines

length-zero : (s : Bytes) → length s ≡ 0 → s ≡ []
length-zero [] h = refl
length-zero (c ∷ s) h = absurd (omega arith)

pub length-contents : (f : Fifo) → IsValid f → length (contents f) ≡ f.len
length-contents f v = omega (arith, length-take f.len f.buf, v.size, v.within)

push-accepted :
    (line : Bytes) (f : Fifo)
    → IsValid f
    → f.len + length (terminated line) ≤ fifo_size
    → IsValid (push line f).0 × (contents (push line f).0 ≡ contents f ++ terminated line)
push-accepted line f v h =
    let (w, cases) = push_lem line f v in
    elim cases [ inl (_, _, e) ↦ (w, e) | inr (full, _) ↦ absurd (omega (arith, h, full)) ]

-- Lines that fit together are all accepted, and wait one behind the other.
contents-push_all :
    (lines : List Bytes) (f : Fifo)
    → IsValid f
    → f.len + length (joined lines) ≤ fifo_size
    → IsValid (push_all lines f) × (contents (push_all lines f) ≡ contents f ++ joined lines)
unfolding push_all
contents-push_all [] f v h = (v, sym (append-nil (contents f)))
contents-push_all (line ∷ lines) f v h =
    let sum : length (terminated line) + length (joined lines) ≡ length (joined (line ∷ lines)) =
      sym (length-append (terminated line) (joined lines)) in
    let p = push-accepted line f v (omega (arith, h, sum)) in
    let n : (push line f).0.len ≡ f.len + length (terminated line) =
      sym (length-contents (push line f).0 p.0)
      ∙ ap length p.1
      ∙ length-append (contents f) (terminated line)
      ∙ ap (λ t. t + length (terminated line)) (length-contents f v) in
    let q = contents-push_all lines (push line f).0 p.0 (omega (arith, h, sum, n)) in
    (
      q.0,
      q.1
          ∙ ap (λ t. t ++ joined lines) p.1
          ∙ append_assoc (contents f) (terminated line) (joined lines),
    )

pub init-IsValid : IsValid init
unfolding init
init-IsValid = record { size = length-cleared fifo_size; within = omega arith; clear = refl }

-- A drain with room for a whole FIFO leaves nothing.
pub drain-none : (f : Fifo) → IsValid f → contents (drain fifo_size f).0 ≡ []
drain-none f v = length-zero (contents (drain fifo_size f).0) nothing
  where
    nothing : length (contents (drain fifo_size f).0) ≡ 0
    nothing =
        let d = drain_lem fifo_size f v in
        omega (
          arith,
          d.2,
          v.within,
          length-contents f v,
          ap length d.1,
          length-append (drain fifo_size f).1 (contents (drain fifo_size f).0),
        )

drain-all : (f : Fifo) → IsValid f → (drain fifo_size f).1 ≡ contents f
drain-all f v =
    let d = drain_lem fifo_size f v in
    sym (append-nil (drain fifo_size f).1)
    ∙ ap (λ t. (drain fifo_size f).1 ++ t) (sym (drain-none f v))
    ∙ sym d.1

-- Lines that fit together into an empty FIFO come out of one drain whole and in order, each ended
-- by a line end.
pub drain-push_all :
    (lines : List Bytes)
    → length (joined lines) ≤ fifo_size
    → (drain fifo_size (push_all lines init)).1 ≡ joined lines
unfolding init
drain-push_all lines h =
    let c = contents-push_all lines init init-IsValid (omega (arith, h)) in
    drain-all (push_all lines init) c.0 ∙ c.1
