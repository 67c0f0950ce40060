-- ===== src/Frame/Effects.antt =====
-- src/security/enc_frame.c: a reply changes nothing but the log of packets and, in a session that
-- holds a key, the send counter.
use cything.Session.Slots.{DistinctSocks, Absent}
use mathlib.Core.Path.{subst}
use cything.Prelude.{
  ◌++◌, ◌+◌, ◌∙◌, ap, inr, inl, ℕ, zero, suc, ◌≡◌, refl, sym, true, false, [], ◌∷◌, ℤ, set, arith,
  Bool-cases, Option-cases,
}
use cything.Prelude.Bytes.{codes, Bytes}
use cything.Session
use cything.Session.{ls_new, Session, Pool, at, free_slot}
use cything.Session.Invariant.{IsSoundPool, IsSound}
use cything.Device.{Env, Device, slot, update_slot, send}
use cything.Frame.{codes, ltb, send_line, length, send_err, frame_to, keyed, frame_send, next_ctr}

-- Two states of a session that differ at most in the send counter, and only if it holds a key.
pub record SameSession (s s' : Session) : Type 0 where
  pub but_counter : s' ≡ record s { tx_ctr = s'.tx_ctr }
  pub unkeyed : keyed s.state ≡ false → s' ≡ s

pub SameSession-refl : (s : Session) → SameSession s s
SameSession-refl s = record { but_counter = refl; unkeyed = λ _. refl }

abbrev pub SamePool : Pool → Pool → Type 0
SamePool [] [] = Unit {0}
SamePool [] (t ∷ ts) = ⊥
SamePool (s ∷ ss) [] = ⊥
SamePool (s ∷ ss) (t ∷ ts) = SameSession s t × SamePool ss ts

pub SamePool-refl : (pool : Pool) → SamePool pool pool
SamePool-refl [] = tt
SamePool-refl (s ∷ pool) = (SameSession-refl s, SamePool-refl pool)

SamePool-set :
    (pool : Pool) (i : ℕ) (s' : Session)
    → SameSession (at i pool) s'
    → SamePool pool (set pool i s')
SamePool-set [] i s' h = tt
SamePool-set (s ∷ pool) zero s' h = (h, SamePool-refl pool)
SamePool-set (s ∷ pool) (suc i) s' h = (SameSession-refl s, SamePool-set pool i s' h)

pub SamePool-at :
    (i : ℕ) (pool pool' : Pool) → SamePool pool pool' → SameSession (at i pool) (at i pool')
SamePool-at i [] [] h = SameSession-refl free_slot
SamePool-at i [] (t ∷ ts) h = elim h [ ]
SamePool-at i (s ∷ ss) [] h = elim h [ ]
SamePool-at zero (s ∷ ss) (t ∷ ts) h = h.0
SamePool-at (suc i) (s ∷ ss) (t ∷ ts) h = SamePool-at i ss ts h.1

SameSession-IsSound : (s s' : Session) → SameSession s s' → IsSound s → IsSound s'
unfolding keyed
SameSession-IsSound s s' h v = elim (Bool-cases (keyed s.state)) [
  | inr k ↦ subst IsSound (sym (h.unkeyed k)) v
  | inl k ↦ subst IsSound (sym h.but_counter) (ground arith)
]

-- A reply.
pub record Replies (d d' : Device) : Type 0 where
  pub same_pool : SamePool d.pool d'.pool
  pub same_paired : d'.paired ≡ d.paired
  pub same_password : d'.password ≡ d.password
  pub same_events : d'.events ≡ d.events
  pub same_mode : d'.mode ≡ d.mode
  pub same_draws : d'.draws ≡ d.draws
  pub same_writes : d'.writes ≡ d.writes

pub send-Replies : (sock : ℤ) (bytes : Bytes) (d : Device) → Replies d (send sock bytes d)
unfolding send
send-Replies sock bytes d = record {
  same_pool = SamePool-refl d.pool;
  same_paired = refl;
  same_password = refl;
  same_events = refl;
  same_mode = refl;
  same_draws = refl;
  same_writes = refl;
}

counted-SamePool :
    (i ctr : ℕ) (pool : Pool)
    → keyed (at i pool).state ≡ true
    → SamePool pool (set pool i (record (at i pool) { tx_ctr = ctr }))
counted-SamePool i ctr pool h =
    SamePool-set pool i (record (at i pool) { tx_ctr = ctr })
      (record { but_counter = refl; unkeyed = λ e. cc })

pub Replies-refl : (d : Device) → Replies d d
Replies-refl d = record {
  same_pool = SamePool-refl d.pool;
  same_paired = refl;
  same_password = refl;
  same_events = refl;
  same_mode = refl;
  same_draws = refl;
  same_writes = refl;
}

frame_to-Replies :
    (env : Env) (sock : ℤ) (payload : Bytes) (i : ℕ) (d : Device)
    → Replies d (frame_to env sock payload i d)
unfolding frame_to update_slot send
frame_to-Replies env sock payload i d =
    ground (arith, SamePool-refl d.pool, counted-SamePool i (next_ctr (slot i d).tx_ctr) d.pool)

pub frame_send-Replies :
    (env : Env) (sock : ℤ) (payload : Bytes) (d : Device)
    → Replies d (frame_send env sock payload d)
unfolding frame_send
frame_send-Replies env sock payload d = elim (Option-cases (Session.find sock d.pool)) [
  | inl e ↦ rw (e, frame_send) (send-Replies sock payload d)
  | inr (i, e) ↦ rw (e, frame_send) (frame_to-Replies env sock payload i d)
]

SameSession-trans : {s t u : Session} → SameSession s t → SameSession t u → SameSession s u
unfolding keyed
SameSession-trans {s} {t} {u} h k = ground arith

SamePool-trans : (p q r : Pool) → SamePool p q → SamePool q r → SamePool p r
SamePool-trans [] [] [] h k = tt
SamePool-trans [] [] (u ∷ us) h k = elim k [ ]
SamePool-trans [] (t ∷ ts) r h k = elim h [ ]
SamePool-trans (s ∷ ss) [] r h k = elim h [ ]
SamePool-trans (s ∷ ss) (t ∷ ts) [] h k = elim k [ ]
SamePool-trans (s ∷ ss) (t ∷ ts) (u ∷ us) h k =
    (SameSession-trans h.0 k.0, SamePool-trans ss ts us h.1 k.1)

pub Replies-trans : {d e f : Device} → Replies d e → Replies e f → Replies d f
Replies-trans {d} {e} {f} h k = record {
  same_pool = SamePool-trans d.pool e.pool f.pool h.same_pool k.same_pool;
  same_paired = k.same_paired ∙ h.same_paired;
  same_password = k.same_password ∙ h.same_password;
  same_events = k.same_events ∙ h.same_events;
  same_mode = k.same_mode ∙ h.same_mode;
  same_draws = k.same_draws ∙ h.same_draws;
  same_writes = k.same_writes ∙ h.same_writes;
}

pub send_line-Replies :
    (env : Env) (sock : ℤ) (text : Bytes) (d : Device) → Replies d (send_line env sock text d)
unfolding send_line
send_line-Replies env sock text d = elim (Bool-cases (ltb (length text + 1) 64)) [
  | inl e ↦ rw e (frame_send-Replies env sock (text ++ codes "\n") d)
  | inr e ↦
      rw e (
        Replies-trans (send-Replies sock text d)
          (send-Replies sock (codes "\n") (send sock text d)))
]

pub send_err-Replies :
    (env : Env) (sock : ℤ) (code : Bytes) (d : Device) → Replies d (send_err env sock code d)
unfolding send_err
send_err-Replies env sock code d = send_line-Replies env sock _ d

pub SamePool-IsSoundPool : (p q : Pool) → SamePool p q → IsSoundPool p → IsSoundPool q
SamePool-IsSoundPool [] [] h v = tt
SamePool-IsSoundPool [] (t ∷ ts) h v = elim h [ ]
SamePool-IsSoundPool (s ∷ ss) [] h v = elim h [ ]
SamePool-IsSoundPool (s ∷ ss) (t ∷ ts) h v =
    (SameSession-IsSound s t h.0 v.0, SamePool-IsSoundPool ss ts h.1 v.1)

pub length-SamePool : (p q : Pool) → SamePool p q → length q ≡ length p
length-SamePool [] [] h = refl
length-SamePool [] (t ∷ ts) h = elim h [ ]
length-SamePool (s ∷ ss) [] h = elim h [ ]
length-SamePool (s ∷ ss) (t ∷ ts) h = ap suc (length-SamePool ss ts h.1)

same_sock : (s t : Session) → SameSession s t → t.sock ≡ s.sock
same_sock s t h = ap (λ (r : Session). r.sock) h.but_counter

SamePool-Absent : (k : ℤ) (p q : Pool) → SamePool p q → Absent k p → Absent k q
SamePool-Absent k [] [] h v = tt
SamePool-Absent k [] (t ∷ ts) h v = elim h [ ]
SamePool-Absent k (s ∷ ss) [] h v = elim h [ ]
SamePool-Absent k (s ∷ ss) (t ∷ ts) h v =
    (λ e. v.0 (sym (same_sock s t h.0) ∙ e), SamePool-Absent k ss ts h.1 v.1)

pub SamePool-DistinctSocks : (p q : Pool) → SamePool p q → DistinctSocks p → DistinctSocks q
SamePool-DistinctSocks [] [] h v = tt
SamePool-DistinctSocks [] (t ∷ ts) h v = elim h [ ]
SamePool-DistinctSocks (s ∷ ss) [] h v = elim h [ ]
SamePool-DistinctSocks (s ∷ ss) (t ∷ ts) h v = (
  λ n.
      subst (λ k. Absent k ts) (sym (same_sock s t h.0))
        (SamePool-Absent s.sock ss ts h.1 (v.0 (λ e. n (same_sock s t h.0 ∙ e)))),
  SamePool-DistinctSocks ss ts h.1 v.1,
)

-- A reply leaves every connection in its state.
pub replied-state : {d d' : Device} (i : ℕ) → Replies d d' → (slot i d').state ≡ (slot i d).state
replied-state {d} {d'} i r =
    ap (λ s. s.state) (SamePool-at i d.pool d'.pool r.same_pool).but_counter

-- A slot that is set back to LS_NEW, inside the pool or not, is seen in it.
pub updated-state :
    (pool : Pool) (i : ℕ) (s : Session) → s.state ≡ ls_new → (at i (set pool i s)).state ≡ ls_new
updated-state [] i s h = refl
updated-state (x ∷ pool) zero s h = h
updated-state (x ∷ pool) (suc i) s h = updated-state pool i s h
