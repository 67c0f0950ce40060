-- ===== src/Framing/Serving.antt =====
-- A connection from its first byte to its end, on the whole device: src/tcp_server/tcp_client_recv.c
-- with what it calls.
use cything.Prelude.{Option, none, some, List, [], ◌∷◌, ℤ}
use cything.Prelude.Bytes.{Bytes}
use cything.Device.{Env, Device}
use cything.Dispatch.{receive}
use cything.Dispatch.Runs.{Reachable, received, Reachable-IsValid}
use cything.Dispatch.Invariant.{IsValid}
use cything.Framing.{Recv, serve, round}

handled-Reachable :
    (env : Env) (sock : ℤ) (line : Option Bytes) (d : Device)
    → Reachable d
    → Reachable (elim line [ none ↦ d | some text ↦ (receive env text sock d).0 ])
handled-Reachable env sock none d r = r
handled-Reachable env sock (some text) d r = received env text sock r

serve-Reachable :
    (sock : ℤ) (rs : List (Env × Recv)) (rx : Bytes) (d : Device)
    → Reachable d
    → Reachable (serve sock rs rx d).1
unfolding serve
serve-Reachable sock [] rx d r = r
serve-Reachable sock ((env, e) ∷ rs) rx d r =
    serve-Reachable sock rs (round e rx).0 _ (handled-Reachable env sock (round e rx).1 d r)

-- No stream of bytes that a client sends, with whatever pauses and whatever happens outside, takes
-- the device from a state that it can be in to one where the pool of connections, the paired list or
-- its copy in flash is not valid.
pub serve-IsValid :
    (sock : ℤ) (rs : List (Env × Recv)) (rx : Bytes) (d : Device)
    → Reachable d
    → IsValid (serve sock rs rx d).1
serve-IsValid sock rs rx d r = Reachable-IsValid _ (serve-Reachable sock rs rx d r)
