-- ===== src/Dispatch/Invariant.antt =====
-- The state that src/security and src/tcp_server share, between two received lines.
use mathlib.Core.Path.{subst}
use cything.Prelude.{ℕ, zero, suc, ◌≡◌, sym, ◌∙◌, [], ◌∷◌, ℤ, length, set, length-set}
use cything.Prelude.Bytes.{Bytes}
use cything.Prelude.Every.{Every-set}
use cything.Session.{Session, Pool, at, local_session_max}
use cything.Session.Invariant.{IsSound, IsSoundPool}
use cything.Session.Slots.{Absent, DistinctSocks}
use cything.Paired.Stored.{IsStored}
use cything.Device.{Env, Device, slot, update_slot, send}
use cything.Frame.{send_line, send_err}
use cything.Frame.Effects.{
  Replies, send-Replies, send_line-Replies, send_err-Replies, SamePool-IsSoundPool, length-SamePool,
  SamePool-DistinctSocks,
}

-- The pool has its size and sound slots, no two of them with one socket; the paired list in RAM is
-- valid, and so is the one in flash if one can be read.
pub record IsValid (d : Device) : Type 0 where
  pub pool_size : length d.pool ≡ local_session_max
  pub sound : IsSoundPool d.pool
  pub distinct : DistinctSocks d.pool
  pub paired : IsStored d.paired

pub Replies-IsValid : {d d' : Device} → Replies d d' → IsValid d → IsValid d'
Replies-IsValid {d} {d'} r v = record {
  pool_size = length-SamePool d.pool d'.pool r.same_pool ∙ v.pool_size;
  sound = SamePool-IsSoundPool d.pool d'.pool r.same_pool v.sound;
  distinct = SamePool-DistinctSocks d.pool d'.pool r.same_pool v.distinct;
  paired = subst IsStored (sym r.same_paired) v.paired;
}

pub send_err-IsValid :
    (env : Env) (sock : ℤ) (code : Bytes) (d : Device)
    → IsValid d
    → IsValid (send_err env sock code d)
send_err-IsValid env sock code d v = Replies-IsValid (send_err-Replies env sock code d) v

pub send_line-IsValid :
    (env : Env) (sock : ℤ) (text : Bytes) (d : Device)
    → IsValid d
    → IsValid (send_line env sock text d)
send_line-IsValid env sock text d v = Replies-IsValid (send_line-Replies env sock text d) v

pub send-IsValid : (sock : ℤ) (bytes : Bytes) (d : Device) → IsValid d → IsValid (send sock bytes d)
send-IsValid sock bytes d v = Replies-IsValid (send-Replies sock bytes d) v

Absent-set :
    (k : ℤ) (pool : Pool) (i : ℕ) (s : Session)
    → s.sock ≡ (at i pool).sock
    → Absent k pool
    → Absent k (set pool i s)
Absent-set k [] i s e h = tt
Absent-set k (x ∷ pool) zero s e h = (λ q. h.0 (sym e ∙ q), h.1)
Absent-set k (x ∷ pool) (suc i) s e h = (h.0, Absent-set k pool i s e h.1)

set-DistinctSocks :
    (pool : Pool) (i : ℕ) (s : Session)
    → s.sock ≡ (at i pool).sock
    → DistinctSocks pool
    → DistinctSocks (set pool i s)
set-DistinctSocks [] i s e h = tt
set-DistinctSocks (x ∷ pool) zero s e h =
    (λ n. subst (λ k. Absent k pool) (sym e) (h.0 (λ q. n (e ∙ q))), h.1)
set-DistinctSocks (x ∷ pool) (suc i) s e h =
    (λ n. Absent-set x.sock pool i s e (h.0 n), set-DistinctSocks pool i s e h.1)

-- A change to one slot that keeps its socket and leaves it sound.
pub update_slot-IsValid :
    (i : ℕ) (f : Session → Session) (d : Device)
    → (f (slot i d)).sock ≡ (slot i d).sock
    → IsSound (f (slot i d))
    → IsValid d
    → IsValid (update_slot i f d)
unfolding update_slot
update_slot-IsValid i f d e s v = record {
  pool_size = length-set d.pool i (f (at i d.pool)) ∙ v.pool_size;
  sound = Every-set IsSound d.pool i (f (at i d.pool)) v.sound s;
  distinct = set-DistinctSocks d.pool i (f (at i d.pool)) e v.distinct;
  paired = v.paired;
}
