-- ===== src/Framing.antt =====
-- The receive loop of src/tcp_server/tcp_client_recv.c: from what `recv` gives to complete lines.
pub mod Lines
pub mod Serving
use cything.Prelude.{
  ℕ, Option, none, some, List, [], ◌∷◌, ◌++◌, ◌==◌, leb, if◌then◌else◌, length, ℤ,
}
use cything.Prelude.Bytes.{Bytes}
use cything.Device.{Env, Device}
use cything.Dispatch.{receive, disconnect}

-- TCP_RECEIVE_DATA_LENGTH.
abbrev pub receive_data_length : ℕ
receive_data_length = 5120

-- What one `recv` of a byte gives while the connection lives: a byte, or the timeout between bytes.
pub data Recv : Type 0 where
  byte : ℕ → Recv
  timed_out : Recv

-- A byte behind those that are buffered, of which there are `session->rx_len`: the bytes buffered
-- then, and the line that it completed, without its line end.
unfoldable pub take_byte : ℕ → Bytes → Bytes × Option Bytes
take_byte c rx =
    if leb receive_data_length (length (rx ++ (c ∷ [])))
    then ([], none)
    else if c == b'\n'
    then ([], some rx)
    else (rx ++ (c ∷ []), none)

-- One round of the loop.
unfoldable pub round : Recv → Bytes → Bytes × Option Bytes
unfolding take_byte
round (byte c) rx = take_byte c rx
round timed_out rx = ([], none)

-- The line of a round in front of those that come later.
unfoldable pub deliver : Option Bytes → List Bytes → List Bytes
deliver none lines = lines
deliver (some line) lines = line ∷ lines

-- Rounds of the loop from the bytes that are buffered: those buffered then, and the lines in order.
unfoldable pub feed : List Recv → Bytes → Bytes × List Bytes
unfolding round deliver
feed [] rx = (rx, [])
feed (r ∷ rs) rx =
    let (rx', line) = round r rx in let (rest, lines) = feed rs rx' in (rest, deliver line lines)

-- `tcp_client_recv_task` up to the end of the connection: each round with what runs outside at that
-- time, and each line handled before the next round.
unfoldable pub serve : ℤ → List (Env × Recv) → Bytes → Device → Bytes × Device
unfolding round
serve sock [] rx d = (rx, d)
serve sock ((env, r) ∷ rs) rx d =
    let (rx', line) = round r rx in
    serve sock rs rx' (elim line [ none ↦ d | some text ↦ (receive env text sock d).0 ])
