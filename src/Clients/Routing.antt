-- ===== src/Clients/Routing.antt =====
-- To whom the sending task of src/tcp_server/tcp_client_list.c sends.
use mathlib.Core.Path.{subst}
use cything.Prelude.{
  ℕ, ◌≡◌, ◌≢◌, refl, ap, sym, ◌∙◌, arith, true, false, ◌&&◌, not, some, List, [], ◌∷◌, ℤ, ◌==ℤ◌,
  ==ℤ_iff, inl, inr, Bool-cases, Option-cases, if◌then◌else◌,
}
use cything.Prelude.Bytes.{Bytes}
use cything.Session.{Session, Pool, find, find_slot}
use cything.Password
use cything.Policy.{sock_authenticated, authenticated}
use cything.Device.{Env, Device, Packet, send, update_slot}
use cything.Frame.{frame_send, frame_to}
use cything.Frame.Effects.{
  Replies, Replies-refl, frame_send-Replies, SamePool, SamePool-at, SameSession,
}
use cything.Clients.{parse_target, broadcast, route, response_target_everyone}

-- The packets for one socket.
unfoldable pub packets : ℤ → List Packet → List Packet
packets sock [] = []
packets sock (p ∷ out) = let rest = packets sock out in if p.to ==ℤ sock then p ∷ rest else rest

packets-send :
    (to sock : ℤ) (bytes : Bytes) (d : Device)
    → (to ==ℤ sock) ≡ false
    → packets sock (send to bytes d).out ≡ packets sock d.out
unfolding packets send
packets-send to sock bytes d n = rw n refl

packets-frame_to :
    (env : Env) (to sock : ℤ) (payload : Bytes) (i : ℕ) (d : Device)
    → (to ==ℤ sock) ≡ false
    → packets sock (frame_to env to payload i d).out ≡ packets sock d.out
unfolding frame_to packets send update_slot
packets-frame_to env to sock payload i d n = ground (arith, n)

-- What goes to one socket is no packet for another.
packets-frame_send :
    (env : Env) (to sock : ℤ) (payload : Bytes) (d : Device)
    → (to ==ℤ sock) ≡ false
    → packets sock (frame_send env to payload d).out ≡ packets sock d.out
unfolding frame_send
packets-frame_send env to sock payload d n = elim (Option-cases (find to d.pool)) [
  | inl e ↦ rw (frame_send, e) (packets-send to sock payload d n)
  | inr (i, e) ↦ rw (frame_send, e) (packets-frame_to env to sock payload i d n)
]

find_slot-SamePool : (sock : ℤ) (p q : Pool) → SamePool p q → find_slot sock q ≡ find_slot sock p
unfolding find_slot
find_slot-SamePool sock [] [] h = refl
find_slot-SamePool sock [] (t ∷ ts) h = elim h [ ]
find_slot-SamePool sock (s ∷ ss) [] h = elim h [ ]
find_slot-SamePool sock (s ∷ ss) (t ∷ ts) h =
    ground (arith, ap (λ (r : Session). r.sock) h.0.but_counter, find_slot-SamePool sock ss ts h.1)

find-SamePool : (sock : ℤ) (p q : Pool) → SamePool p q → find sock q ≡ find sock p
unfolding find
find-SamePool sock p q h = ground (arith, find_slot-SamePool sock p q h)

authenticated-SameSession : (s t : Session) → SameSession s t → authenticated t ≡ authenticated s
unfolding authenticated
authenticated-SameSession s t h = ap authenticated h.but_counter

-- A reply authenticates nobody.
pub sock_authenticated-Replies :
    (sock : ℤ) (d d' : Device)
    → Replies d d'
    → sock_authenticated sock d' ≡ sock_authenticated sock d
unfolding sock_authenticated
sock_authenticated-Replies sock d d' r = elim (Option-cases (find sock d.pool)) [
  | inl e ↦ rw (sock_authenticated, find-SamePool sock d.pool d'.pool r.same_pool, e) refl
  | inr (i, e) ↦
      rw (sock_authenticated, find-SamePool sock d.pool d'.pool r.same_pool, e)
        (authenticated-SameSession _ _ (SamePool-at i d.pool d'.pool r.same_pool))
]

-- One client of a broadcast to paired clients.
broadcast_one :
    (env : Env) (payload : Bytes) (dst sock : ℤ) (d : Device)
    → Password.is_set d.password ≡ true
    → sock_authenticated sock d ≡ false
    → (d' : Device)
    → d' ≡ (
        if true && (Password.is_set d.password && not (sock_authenticated dst d))
        then d
        else frame_send env dst payload d)
    → Replies d d' × (packets sock d'.out ≡ packets sock d.out)
broadcast_one env payload dst sock d p a d' e = elim (Bool-cases (dst ==ℤ sock)) [
  | inl q ↦
      let skipped : d' ≡ d = e ∙ rw ((==ℤ_iff dst sock).0 q, p, a) refl in
      (
        subst (λ x. Replies d x) (sym skipped) (Replies-refl d),
        ap (λ (x : Device). packets sock x.out) skipped,
      )
  | inr q ↦ elim (Bool-cases (sock_authenticated dst d)) [
    | inl k ↦
        let sent : d' ≡ frame_send env dst payload d = e ∙ rw (p, k) refl in
        (
          subst (λ x. Replies d x) (sym sent) (frame_send-Replies env dst payload d),
          ap (λ (x : Device). packets sock x.out) sent
              ∙ packets-frame_send env dst sock payload d q,
        )
    | inr k ↦
        let skipped : d' ≡ d = e ∙ rw (p, k) refl in
        (
          subst (λ x. Replies d x) (sym skipped) (Replies-refl d),
          ap (λ (x : Device). packets sock x.out) skipped,
        )
  ]
]

broadcast_paired :
    (env : Env) (payload : Bytes) (accounts : List ℤ) (sock : ℤ) (d : Device)
    → Password.is_set d.password ≡ true
    → sock_authenticated sock d ≡ false
    → packets sock (broadcast env true payload accounts d).out ≡ packets sock d.out
unfolding broadcast
broadcast_paired env payload [] sock d p a = refl
broadcast_paired env payload (dst ∷ accounts) sock d p a =
    let (r, e) = broadcast_one env payload dst sock d p a _ refl in
    broadcast_paired env payload accounts sock _ (ap Password.is_set r.same_password ∙ p)
      (sock_authenticated-Replies sock d _ r ∙ a)
    ∙ e

-- While a password is set, a client that has not authenticated is sent no line that is addressed to
-- the paired clients or to another socket: the sending task only gives it those that are addressed to
-- its own socket or to everyone.
pub route_private :
    (env : Env) (accounts : List ℤ) (line payload : Bytes) (target sock : ℤ) (d : Device)
    → parse_target line ≡ some (target, payload)
    → target ≢ response_target_everyone
    → target ≢ sock
    → Password.is_set d.password ≡ true
    → sock_authenticated sock d ≡ false
    → packets sock (route env accounts line d).out ≡ packets sock d.out
unfolding route
route_private env accounts line payload target sock d e n m p a = ground (
  arith,
  e,
  ==ℤ_iff target response_target_everyone,
  ==ℤ_iff target sock,
  broadcast_paired env payload accounts sock d p a,
  packets-frame_send env target sock payload d,
)
