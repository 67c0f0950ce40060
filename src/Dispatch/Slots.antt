-- ===== src/Dispatch/Slots.antt =====
-- src/security: changes to one slot, with a reply in between, keep the shared state valid.
use cything.Prelude.{
  get_elem?, some, ◌⊎◌, ℤ, ℕ, zero, suc, ◌≡◌, ◌≢◌, refl, sym, ◌∙◌, ap, [], ◌∷◌, minus_one, set,
  arith, false,
}
use mathlib.Core.Path.{subst}
use cything.Prelude.Arrays.{set-set_back}
use cything.Session.{find, State, Session, Pool, at, free_slot}
use cything.Session.Slots.{find-sock}
use cything.Session.Invariant.{IsSound, free_slot-IsSound}
use cything.Prelude.Every.{Every-get_or}
use cything.Device.{Device, slot, update_slot}
use cything.Frame.{keyed}
use cything.Frame.Effects.{
  Replies, SamePool, SamePool-at, length-SamePool, SamePool-IsSoundPool, SamePool-DistinctSocks,
}
use cything.Paired.Stored.{IsStored}
use cything.Dispatch.Invariant.{IsValid, update_slot-IsValid}

-- The slot is a connection's.
abbrev pub IsLive : ℕ → Device → Type 0
IsLive i d = (slot i d).sock ≢ minus_one

get_or-elem : (pool : Pool) (i : ℕ) {s : Session} → get_elem? pool i ≡ some s → at i pool ≡ s
get_or-elem [] i h = absurd (cc)
get_or-elem (x ∷ pool) zero h = ground arith
get_or-elem (x ∷ pool) (suc i) h = get_or-elem pool i h

get_or-set_same :
    (pool : Pool) (i : ℕ) (s : Session) → (at i pool).sock ≢ minus_one → at i (set pool i s) ≡ s
get_or-set_same [] i s h = absurd (h refl)
get_or-set_same (x ∷ pool) zero s h = refl
get_or-set_same (x ∷ pool) (suc i) s h = get_or-set_same pool i s h

-- A live slot holds what was written to it.
pub slot-update_slot :
    (i : ℕ) (f : Session → Session) (d : Device)
    → IsLive i d
    → slot i (update_slot i f d) ≡ f (slot i d)
unfolding update_slot
slot-update_slot i f d h = get_or-set_same d.pool i (f (at i d.pool)) h

-- The slot that a socket finds is a connection's.
pub found-IsLive : (sock : ℤ) (i : ℕ) (d : Device) → find sock d.pool ≡ some i → IsLive i d
unfolding find
found-IsLive sock i d h n =
    let (s, here, named) = find-sock sock d.pool i h in
    let there : slot i d ≡ s = get_or-elem d.pool i here in ground (arith, ap (λ t. t.sock) there)

-- Whether a session is in a state.
pub State-cases : (w s : State) → (s ≡ w) ⊎ (s ≢ w)
State-cases w s = ground arith

pub slot-IsSound : (i : ℕ) (d : Device) → IsValid d → IsSound (slot i d)
slot-IsSound i d v = Every-get_or IsSound d.pool i free_slot v.sound free_slot-IsSound

-- What else changes does not matter, as long as the pool and the list stay.
pub same-IsValid :
    {d d' : Device} → d'.pool ≡ d.pool → d'.paired ≡ d.paired → IsValid d → IsValid d'
same-IsValid p q v =
    rw (p, q)
      (record {
        pool_size = v.pool_size;
        sound = v.sound;
        distinct = v.distinct;
        paired = v.paired;
      })

-- A write to a live slot, a reply, and another write to it: only the last one has to leave the slot
-- sound.
SamePool-set : (p q : Pool) (i : ℕ) (s : Session) → SamePool p q → SamePool (set p i s) (set q i s)
SamePool-set [] [] i s h = tt
SamePool-set [] (t ∷ ts) i s h = elim h [ ]
SamePool-set (x ∷ ss) [] i s h = elim h [ ]
SamePool-set (x ∷ ss) (t ∷ ts) zero s h = (record { but_counter = refl; unkeyed = λ _. refl }, h.1)
SamePool-set (x ∷ ss) (t ∷ ts) (suc i) s h = (h.0, SamePool-set ss ts i s h.1)

set-set_same : (p : Pool) (i : ℕ) (s t : Session) → set (set p i s) i t ≡ set p i t
set-set_same [] i s t = refl
set-set_same (x ∷ p) zero s t = refl
set-set_same (x ∷ p) (suc i) s t = ap (λ r. x ∷ r) (set-set_same p i s t)

-- The reply that was sent with slot `i` as it was before the first write.
restored-IsValid :
    (i : ℕ) (g : Session → Session) (d sent : Device)
    → Replies (update_slot i g d) sent
    → IsValid d
    → IsValid (record sent { pool = set sent.pool i (slot i d) })
unfolding update_slot
restored-IsValid i g d sent r v =
    let back : set (set d.pool i (g (at i d.pool))) i (at i d.pool) ≡ d.pool =
      set-set_back d.pool i (g (at i d.pool)) free_slot in
    let same : SamePool d.pool (set sent.pool i (at i d.pool)) =
      subst (λ p. SamePool p (set sent.pool i (at i d.pool))) back
        (SamePool-set (set d.pool i (g (at i d.pool))) sent.pool i (at i d.pool) r.same_pool) in
    record {
      pool_size = length-SamePool d.pool _ same ∙ v.pool_size;
      sound = SamePool-IsSoundPool d.pool _ same v.sound;
      distinct = SamePool-DistinctSocks d.pool _ same v.distinct;
      paired = subst IsStored (sym r.same_paired) v.paired;
    }

pub finish-IsValid :
    (i : ℕ) (g f : Session → Session) (d sent : Device)
    → IsLive i d
    → (g (slot i d)).sock ≡ (slot i d).sock
    → Replies (update_slot i g d) sent
    → (f (slot i sent)).sock ≡ (slot i sent).sock
    → IsSound (f (slot i sent))
    → IsValid d
    → IsValid (update_slot i f sent)
unfolding update_slot
finish-IsValid i g f d sent l k r e s v =
    let y = f (at i sent.pool) in
    let back = restored-IsValid i g d sent r v in
    let put : at i (set sent.pool i (slot i d)) ≡ slot i d =
      get_or-set_same sent.pool i (slot i d) live in
    subst (λ p. IsValid (record sent { pool = p })) (set-set_same sent.pool i (slot i d) y)
      (update_slot-IsValid i (λ _. y) (record sent { pool = set sent.pool i (slot i d) })
        (e ∙ kept ∙ ap (λ t. t.sock) (sym put)) s back)
  where
    kept : (slot i sent).sock ≡ (slot i d).sock
    kept =
        ap (λ t. t.sock) (SamePool-at i (update_slot i g d).pool sent.pool r.same_pool).but_counter
        ∙ ap (λ t. t.sock) (slot-update_slot i g d l)
        ∙ k

    live : (at i sent.pool).sock ≢ minus_one
    live h = l (sym kept ∙ h)

-- Where the written slot holds no key, the reply leaves it as it was written.
pub replied-slot :
    (i : ℕ) (g : Session → Session) (d sent : Device)
    → IsLive i d
    → Replies (update_slot i g d) sent
    → keyed (g (slot i d)).state ≡ false
    → slot i sent ≡ g (slot i d)
replied-slot i g d sent l r k =
    let same = SamePool-at i (update_slot i g d).pool sent.pool r.same_pool in
    let put = slot-update_slot i g d l in same.unkeyed (rw put k) ∙ put
