-- ===== src/Framing/Lines.antt =====
-- What the receive loop of src/tcp_server/tcp_client_recv.c makes of a stream of bytes.
use cything.Prelude.{
  ℕ, ◌+◌, ◌<◌, ◌≤◌, ◌≡◌, ◌≢◌, ◌==◌, refl, ap, ◌∙◌, sym, Option, none, some, List, [], ◌∷◌, ◌++◌,
  length, map, arith, length-append, append_assoc, append-nil, inl, inr, Bool-cases, leb,
}
use cything.Prelude.Bytes.{Bytes}
use cything.Prelude.Every.{Every, Every-append}
use cything.Framing.{receive_data_length, Recv, byte, timed_out, take_byte, round, deliver, feed}

-- No line end.
abbrev pub NoEol : Bytes → Type 0
NoEol = Every (λ c. c ≢ b'\n')

-- What a line has to be to be delivered: it fits the buffer with its line end.
abbrev pub IsLine : Bytes → Type 0
IsLine line = NoEol line × (length line + 1 < receive_data_length)

IsBuffered : Bytes → Type 0
IsBuffered rx = NoEol rx × (length rx < receive_data_length)

length-snoc : (rx : Bytes) (c : ℕ) → length (rx ++ (c ∷ [])) ≡ length rx + 1
length-snoc rx c = length-append rx (c ∷ [])

-- Bytes one by one.
abbrev pub received : Bytes → List Recv
received = map byte

take_byte-some :
    (rx : Bytes) → length rx + 1 < receive_data_length → take_byte b'\n' rx ≡ ([], some rx)
unfolding take_byte
take_byte-some rx h = ground (arith, length-snoc rx b'\n')

take_byte-none :
    (c : ℕ) (rx : Bytes)
    → c ≢ b'\n'
    → length rx + 1 < receive_data_length
    → take_byte c rx ≡ (rx ++ (c ∷ []), none)
unfolding take_byte
take_byte-none c rx n h = ground (arith, length-snoc rx c)

take_byte_full :
    (c : ℕ) (rx : Bytes) → receive_data_length ≤ length rx + 1 → take_byte c rx ≡ ([], none)
unfolding take_byte
take_byte_full c rx h = ground (arith, length-snoc rx c)

-- A byte after the other, up to a length that the buffer holds, none of them a line end.
feed_partial :
    (part : Bytes) (rx : Bytes) (rs : List Recv)
    → NoEol part
    → length rx + length part < receive_data_length
    → feed (received part ++ rs) rx ≡ feed rs (rx ++ part)
unfolding feed
feed_partial [] rx rs n h = ap (feed rs) (sym (append-nil rx))
feed_partial (c ∷ part) rx rs n h =
    rw (round, deliver, take_byte-none c rx n.0 (omega (arith, h)))
      (feed_partial part (rx ++ (c ∷ [])) rs n.1 (omega (arith, h, length-snoc rx c))
        ∙ ap (feed rs) (append_assoc rx (c ∷ []) part))

-- What a client sends: a line with its line end, or the start of one, after which nothing comes until
-- the timeout.
pub data Message : Type 0 where
  complete broken : Bytes → Message

-- The lines of the complete messages.
unfoldable pub completed : List Message → List Bytes
completed [] = []
completed (complete line ∷ ms) = line ∷ completed ms
completed (broken part ∷ ms) = completed ms

-- What `recv` gives for a message.
abbrev pub recv_of : Message → List Recv
recv_of (complete line) = received line ++ (byte b'\n' ∷ [])
recv_of (broken part) = received part ++ (timed_out ∷ [])

abbrev pub stream : List Message → List Recv
stream [] = []
stream (m ∷ ms) = recv_of m ++ stream ms

-- The text fits the buffer with a line end, and has none.
abbrev pub Fits : Message → Type 0
Fits (complete line) = IsLine line
Fits (broken part) = IsLine part

feed_complete :
    (line : Bytes) (rs : List Recv)
    → IsLine line
    → feed (received line ++ (byte b'\n' ∷ rs)) [] ≡ ((feed rs []).0, line ∷ (feed rs []).1)
unfolding feed
feed_complete line rs (n, h) =
    feed_partial line [] (byte b'\n' ∷ rs) n (omega (arith, h))
    ∙ rw (round, deliver, take_byte-some line h) refl

feed_broken :
    (part : Bytes) (rs : List Recv)
    → IsLine part
    → feed (received part ++ (timed_out ∷ rs)) [] ≡ feed rs []
unfolding feed round deliver
feed_broken part rs (n, h) = feed_partial part [] (timed_out ∷ rs) n (omega (arith, h))

-- From an empty buffer, messages whose texts are at most 5118 bytes without a line end leave the
-- buffer empty, and exactly the lines of the complete ones are delivered, whole and in order; the
-- start of a line that the timeout cut off leaves nothing behind.
pub feed-stream : (ms : List Message) → Every Fits ms → feed (stream ms) [] ≡ ([], completed ms)
unfolding completed feed
feed-stream [] f = refl
feed-stream (complete line ∷ ms) (f, fs) =
    ap (λ t. feed t []) (append_assoc (received line) (byte b'\n' ∷ []) (stream ms))
    ∙ feed_complete line (stream ms) f
    ∙ ap (λ (t : Bytes × List Bytes). (t.0, line ∷ t.1)) (feed-stream ms fs)
feed-stream (broken part ∷ ms) (f, fs) =
    ap (λ t. feed t []) (append_assoc (received part) (timed_out ∷ []) (stream ms))
    ∙ feed_broken part (stream ms) f
    ∙ feed-stream ms fs

round-IsBuffered :
    (r : Recv) (rx : Bytes)
    → IsBuffered rx
    → IsBuffered (round r rx).0 × Every IsLine (deliver (round r rx).1 [])
unfolding IsBuffered round deliver
round-IsBuffered timed_out rx b = ((tt, omega arith), tt)
round-IsBuffered (byte c) rx (n, h) = elim (Bool-cases (leb receive_data_length (length rx + 1))) [
  | inl e ↦ rw (take_byte_full c rx (ground (arith, e))) ((tt, omega arith), tt)
  | inr e ↦
      let k : length rx + 1 < receive_data_length = ground (arith, e) in
      elim (Bool-cases (c == b'\n')) [
        | inl q ↦
            let p : c ≡ b'\n' = ground (arith, q) in
            rw (p, take_byte-some rx k) ((tt, omega arith), ((n, k), tt))
        | inr q ↦
            let p : c ≢ b'\n' = ground (arith, q) in
            rw (take_byte-none c rx p k) (
              (
                Every-append (λ c. c ≢ b'\n') rx (c ∷ []) n (p, tt),
                omega (arith, k, length-snoc rx c),
              ),
              tt,
            )
      ]
]

-- Whatever comes, from an empty buffer or a part of a line in it: the buffer holds fewer than 5120
-- bytes after every round, so that the next byte fits, and a line that is delivered has at most 5118
-- bytes, none of them a line end.
pub feed-IsBuffered :
    (rs : List Recv) (rx : Bytes)
    → NoEol rx × (length rx < receive_data_length)
    → NoEol (feed rs rx).0
      × (length (feed rs rx).0 < receive_data_length)
      × Every IsLine (feed rs rx).1
unfolding feed IsBuffered deliver
feed-IsBuffered [] rx b = (b.0, b.1, tt)
feed-IsBuffered (r ∷ rs) rx b =
    let (b', one) = round-IsBuffered r rx b in
    let (n, h, lines) = feed-IsBuffered rs (round r rx).0 b' in
    (n, h, joined (round r rx).1 (feed rs (round r rx).0).1 one lines)
  where
    joined :
        (o : Option Bytes) (lines : List Bytes)
        → Every IsLine (deliver o [])
        → Every IsLine lines
        → Every IsLine (deliver o lines)
    joined none lines one h = h
    joined (some line) lines one h = (one.0, h)

-- The byte that makes 5120 without a line end before it only empties the buffer: what comes behind
-- it, up to the next line end, is delivered as a line, where it is short enough. The rest of an
-- oversized line is thus handled as a line of its own.
pub feed_oversized :
    (head tail : Bytes) (rs : List Recv) (c : ℕ)
    → NoEol head
    → length head + 1 ≡ receive_data_length
    → IsLine tail
    → feed (received head ++ (byte c ∷ (received tail ++ (byte b'\n' ∷ rs)))) []
      ≡ ((feed rs []).0, tail ∷ (feed rs []).1)
unfolding feed deliver
feed_oversized head tail rs c n h t =
    feed_partial head [] (byte c ∷ (received tail ++ (byte b'\n' ∷ rs))) n (omega (arith, h))
    ∙ rw (round, take_byte_full c head (omega (arith, h))) (feed_complete tail rs t)
