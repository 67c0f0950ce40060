-- ===== src/Discovery/Service.antt =====
-- The mDNS service of src/mdns/mdns_discovery.c over its starts and refreshes.
use mathlib.Core.Path.{subst}
use cything.Prelude.{
  if_true, sym, Bool-cases, inl, inr, ◌≡◌, refl, arith, true, false, ◌&&◌, none, some, List, [],
  ◌∷◌,
}
use cything.Discovery.{Facts, Mdns, MdnsEnv, mdns_start, mdns_refresh, build_txt}

-- The calls of the service, each with the state that it reports.
pub data Call : Type 0 where
  start refresh : MdnsEnv → Facts → Call

unfoldable pub call : Call → Mdns → Mdns
unfolding mdns_start mdns_refresh
call (start env f) m = mdns_start env f m
call (refresh env f) m = mdns_refresh env f m

unfoldable pub calls : List Call → Mdns → Mdns
unfolding call
calls [] m = m
calls (c ∷ cs) m = calls cs (call c m)

abbrev pub no_service : Mdns
no_service = record { started = false; tag = []; responders = 0; service = none }

-- There is a service exactly when it was started, and it was set up once.
pub record IsServed (m : Mdns) : Type 0 where
  pub up :
      m.started ≡ true → (m.responders ≡ 1) × ((f : Facts) × (m.service ≡ some (build_txt m.tag f)))
  pub down : m.started ≡ false → (m.responders ≡ 0) × (m.service ≡ none)

start-IsServed :
    (env : MdnsEnv) (f : Facts) (m : Mdns)
    → IsServed m
    → m.started ≡ false
    → IsServed (mdns_start env f m)
unfolding mdns_start
start-IsServed env f m s off = elim (Bool-cases env.init_ok) [
  | inr failed ↦ rw (mdns_start, off, failed) (record { up = λ e. cc; down = λ e. s.down off })
  | inl ok ↦ elim (Bool-cases env.setup_ok) [
    | inr failed ↦
        rw (mdns_start, off, ok, failed)
          (record { up = λ e. cc; down = λ e. ((s.down off).0, refl) })
    | inl set ↦
        rw (mdns_start, off, ok, set)
          (record { up = λ e. (ground (arith, s.down off), (f, refl)); down = λ e. cc })
  ]
]

refresh-IsServed :
    (env : MdnsEnv) (f : Facts) (m : Mdns) → IsServed m → IsServed (mdns_refresh env f m)
unfolding mdns_refresh
refresh-IsServed env f m s = elim (Bool-cases (m.started && env.txt_ok)) [
  | inr skip ↦ rw (mdns_refresh, skip) s
  | inl go ↦
      rw (mdns_refresh, go)
        (record { up = λ e. ((s.up e).0, (f, refl)); down = λ e. ground (arith, e, go) })
]

call-IsServed : (c : Call) (m : Mdns) → IsServed m → IsServed (call c m)
unfolding call mdns_start
call-IsServed (start env f) m s = elim (Bool-cases m.started) [
  | inl on ↦ subst IsServed (sym (if_true m.started m _ on)) s
  | inr off ↦ start-IsServed env f m s off
]
call-IsServed (refresh env f) m s = refresh-IsServed env f m s

calls-IsServed : (cs : List Call) (m : Mdns) → IsServed m → IsServed (calls cs m)
unfolding calls
calls-IsServed [] m s = s
calls-IsServed (c ∷ cs) m s = calls-IsServed cs (call c m) (call-IsServed c m s)

-- However often the service is started and refreshed, the responder is set up at most once, and is
-- there exactly when the module takes it for started; a start or a refresh that succeeds shows the
-- state at its time.
pub mdns_calls : (cs : List Call) → IsServed (calls cs no_service)
mdns_calls cs = calls-IsServed cs no_service (record { up = λ e. cc; down = λ e. (refl, refl) })
