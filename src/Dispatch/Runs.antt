-- ===== src/Dispatch/Runs.antt =====
-- src/tcp_server/tcp_command.c and tcp_client_recv.c: whole runs of the device, from boot on, with
-- whatever lines, connections and failing writes come in between.
use cything.Prelude.{
  is_neg, ℕ, ◌≡◌, Bool, ◌∙◌, ◌≢◌, refl, arith, inl, inr, Option-cases, minus_one, false, ℤ, drop,
}
use cything.Prelude.Bytes.{Bytes, codes}
use cything.Session
use cything.Session.{Session, init, acquire, release}
use cything.Session.Invariant.{IsSound, acquire-IsSoundPool, release-IsSoundPool}
use cything.Session.Slots.{Absent, acquire-DistinctSocks, release-DistinctSocks}
use cything.Session.Reachable.{length-acquire, length-release}
use cything.Session.Reachable as Connections
use cything.Paired
use cything.Paired.{absent, empty_blob, image}
use cything.Paired.Stored.{HoldsList}
use cything.Paired.Booting.{init-IsStored}
use cything.Device.{Env, Device, slot}
use cything.Frame.{unwrap, split_frame, open_frame, accepted}
use cything.Policy.{allow}
use cything.Pake.{pake_handle_line}
use cything.Auth.{local_auth_handle_line}
use cything.Owner.{owner_commands_handle_line}
use cything.Dispatch.{connect, disconnect, handlers, dispatch, receive}
use cything.Dispatch.Invariant.{IsValid, send-IsValid, update_slot-IsValid}
use cything.Dispatch.Slots.{slot-IsSound, found-IsLive}
use cything.Dispatch.Handshakes.{pake_handle_line-IsValid}
use cything.Dispatch.Accounts.{local_auth_handle_line-IsValid}
use cything.Dispatch.Owners.{owner_commands_handle_line-IsValid}

plain-IsSound :
    (s : Session) → IsSound s → s.sock ≢ minus_one → IsSound (record s { rx_encrypted = false })
plain-IsSound s v n = ground arith

accepted-IsSound :
    (nonce : Bytes) (s : Session) → IsSound s → s.sock ≢ minus_one → IsSound (accepted nonce s)
accepted-IsSound nonce s v n = ground arith

unwrap-IsValid :
    (env : Env) (line : Bytes) (sock : ℤ) (d : Device)
    → IsValid d
    → IsValid (unwrap env line sock d).0
unfolding unwrap
unwrap-IsValid env line sock d v = elim (Option-cases (Session.find sock d.pool)) [
  | inl e ↦ ground (arith, e, send-IsValid sock (codes "ERR:ENC\n") d v)
  | inr (i, e) ↦
      let l = found-IsLive sock i d e in
      let s = slot-IsSound i d v in
      let plain =
        update_slot-IsValid i (λ s. record s { rx_encrypted = false }) d refl
          (plain-IsSound (slot i d) s l) v in
      let bad = send-IsValid sock (codes "ERR:ENC\n") d v in
      elim (Option-cases (split_frame env (drop 4 line))) [
        | inl f ↦ ground (arith, e, f, plain, bad)
        | inr ((nonce, ct), f) ↦
            let good =
              update_slot-IsValid i (accepted nonce) d refl (accepted-IsSound nonce (slot i d) s l)
                v in
            elim (Option-cases (open_frame env (slot i d) nonce ct)) [
              | inl g ↦ ground (arith, e, f, g, plain, bad)
              | inr (text, g) ↦ ground (arith, e, f, g, plain, bad, good)
            ]
      ]
]

allow-IsValid :
    (env : Env) (line : Bytes) (sock : ℤ) (d : Device)
    → IsValid d
    → IsValid (allow env line sock d).0
unfolding allow
allow-IsValid env line sock d v =
    ground
      (arith, send-IsValid sock (codes "ERR:AUTH\n") d v, send-IsValid sock (codes "ERR:ENC\n") d v)

handlers-IsValid :
    (env : Env) (line : Bytes) (sock : ℤ) (d : Device)
    → IsValid d
    → IsValid (handlers env line sock d).0
unfolding handlers
handlers-IsValid env line sock d v = elim (Option-cases (pake_handle_line env line sock d)) [
  | inr (d', e) ↦ rw (handlers, e) (pake_handle_line-IsValid env line sock d d' v e)
  | inl e ↦ elim (Option-cases (local_auth_handle_line env line sock d)) [
    | inr (d', f) ↦ rw (handlers, e, f) (local_auth_handle_line-IsValid env line sock d d' v f)
    | inl f ↦ elim (Option-cases (owner_commands_handle_line env line sock d)) [
      | inr (d', g) ↦
          rw (handlers, e, f, g) (owner_commands_handle_line-IsValid env line sock d d' v g)
      | inl g ↦ rw (handlers, e, f, g) v
    ]
  ]
]

dispatch-IsValid :
    (env : Env) (line : Bytes) (sock : ℤ) (d : Device)
    → IsValid d
    → IsValid (dispatch env line sock d).0
unfolding dispatch
dispatch-IsValid env line sock d v =
    let let_in = allow-IsValid env line sock d v in
    ground (arith, let_in, handlers-IsValid env line sock _ let_in)

-- A received line keeps the state valid, whatever it holds and wherever it ends up.
pub receive-IsValid :
    (env : Env) (line : Bytes) (sock : ℤ) (d : Device)
    → IsValid d
    → IsValid (receive env line sock d).0
unfolding receive
receive-IsValid env line sock d v = elim (Option-cases (unwrap env line sock d).1) [
  | inl e ↦ rw (receive, e) (unwrap-IsValid env line sock d v)
  | inr (text, e) ↦
      rw (receive, e) (dispatch-IsValid env text sock _ (unwrap-IsValid env line sock d v))
]

connect-IsValid :
    (sock : ℤ) (ip : ℕ) (d : Device)
    → is_neg sock ≡ false
    → Absent sock d.pool
    → IsValid d
    → IsValid (connect sock ip d)
unfolding connect
connect-IsValid sock ip d n a v = record {
  pool_size = length-acquire sock ip d.pool ∙ v.pool_size;
  sound = acquire-IsSoundPool sock ip d.pool n v.sound;
  distinct = acquire-DistinctSocks sock ip d.pool a v.distinct;
  paired = v.paired;
}

disconnect-IsValid : (sock : ℤ) (d : Device) → IsValid d → IsValid (disconnect sock d)
unfolding disconnect
disconnect-IsValid sock d v = record {
  pool_size = length-release sock d.pool ∙ v.pool_size;
  sound = release-IsSoundPool sock d.pool v.sound;
  distinct = release-DistinctSocks sock d.pool v.distinct;
  paired = v.paired;
}

-- The device after a restart: an empty pool, and the paired list as it is read back from flash. What
-- else a boot sets up, the relation leaves open.
abbrev pub restart : Bool → Bool → Bool → Device → Device → Device
restart opened heap ok other d = record other {
  pool = Session.init;
  paired = Paired.init opened heap ok d.paired.flash;
}

-- A state that the device can be in. It starts with nothing in flash, a blob that cannot be used, or a
-- valid list of the present or the former format; lines come over any socket and
-- with any outcome of what runs outside; a new connection has a descriptor that no slot has; and it
-- may restart at any time between two lines.
pub data Reachable : Device → Type 0 where
  booted :
      (opened heap ok : Bool) (d : Device)
      → HoldsList d.paired.flash
      → Reachable (restart opened heap ok d d)
  connected :
      {d : Device} (sock : ℤ) (ip : ℕ)
      → is_neg sock ≡ false
      → Absent sock d.pool
      → Reachable d
      → Reachable (connect sock ip d)
  disconnected : {d : Device} (sock : ℤ) → Reachable d → Reachable (disconnect sock d)
  received :
      {d : Device} (env : Env) (line : Bytes) (sock : ℤ)
      → Reachable d
      → Reachable (receive env line sock d).0
  restarted :
      {d : Device} (opened heap ok : Bool) (other : Device)
      → Reachable d
      → Reachable (restart opened heap ok other d)

restart-IsValid :
    (opened heap ok : Bool) (other d : Device)
    → HoldsList d.paired.flash
    → IsValid (restart opened heap ok other d)
restart-IsValid opened heap ok other d h =
    let (l, s, k) = Connections.Reachable-IsSoundPool Session.init Connections.booted in
    record {
      pool_size = l;
      sound = s;
      distinct = k;
      paired = init-IsStored opened heap ok d.paired.flash h;
    }

-- From a first boot on whose flash holds nothing, a blob that cannot be used, or a list of the
-- present or the former format whose accounts are distinct and have their roles: in every state
-- that the device can be in, the pool has eight slots, all of them sound, no two with one socket,
-- and the paired list in RAM is valid. So is the one in flash, if one can be read from there.
pub Reachable-IsValid : (d : Device) → Reachable d → IsValid d
Reachable-IsValid _ (booted opened heap ok d e) = restart-IsValid opened heap ok d d e
Reachable-IsValid _ (connected sock ip n a r) =
    connect-IsValid sock ip _ n a (Reachable-IsValid _ r)
Reachable-IsValid _ (disconnected sock r) = disconnect-IsValid sock _ (Reachable-IsValid _ r)
Reachable-IsValid _ (received env line sock r) =
    receive-IsValid env line sock _ (Reachable-IsValid _ r)
Reachable-IsValid _ (restarted {d} opened heap ok other r) =
    restart-IsValid opened heap ok other d (Reachable-IsValid _ r).paired.flash
