-- ===== src/Beacon/Air.antt =====
-- What the beacon of src/ble/ble_beacon.c sends out.
use mathlib.Core.Option.{some-injective}
use cything.Prelude.{
  sym, ◌∙◌, Bool-cases, inl, inr, ℕ, ◌≡◌, refl, arith, true, false, none, some, List, [], ◌∷◌,
}
use cything.Prelude.Bytes.{Bytes}
use cything.Prelude.Every.{Every}
use cything.Beacon.{
  Beacon, Host, Event, beacon_start, adv_complete, host_reset, ip_lost, apply_mode, host_sync,
  got_ip, stop_advertising, start_advertising, should_advertise_ble, step, steps, boot,
  discovery_wifi,
}

-- The controller sends the present address, or nothing, and the former only while the host is up and
-- the station has that address.
pub record IsTrue (b : Beacon) : Type 0 where
  pub on :
      b.advertising ≡ true
      → (b.on_air ≡ some b.address) × ((b.host_ready ≡ true) × (b.have_ip ≡ true))
  pub off : b.advertising ≡ false → b.on_air ≡ none

step-IsTrue :
    (h : Host) (mode : ℕ) (e : Event) (b : Beacon)
    → h.stop_ok ≡ true
    → IsTrue b
    → IsTrue (step h mode e b)
unfolding step start_advertising stop_advertising should_advertise_ble
step-IsTrue h mode beacon_start b s t = record { on = t.on; off = t.off }
step-IsTrue h mode adv_complete b s t = record {
  on = ground (arith, s, t.on, t.off);
  off = ground (arith, s, t.on, t.off);
}
step-IsTrue h mode host_reset b s t = record { on = λ e. cc; off = λ e. refl }
step-IsTrue h mode ip_lost b s t = record {
  on = ground (arith, s, t.on, t.off);
  off = ground (arith, s, t.on, t.off);
}
step-IsTrue h mode apply_mode b s t = record {
  on = ground (arith, s, t.on, t.off);
  off = ground (arith, s, t.on, t.off);
}
step-IsTrue h mode (host_sync resolved) b s t = record {
  on = ground (arith, s, t.on, t.off);
  off = ground (arith, s, t.on, t.off);
}
step-IsTrue h mode (got_ip ip) b s t = record {
  on = ground (arith, s, t.on, t.off);
  off = ground (arith, s, t.on, t.off);
}

steps-IsTrue :
    (es : List (Event × (ℕ × Host))) (b : Beacon)
    → Every (λ e. e.1.1.stop_ok ≡ true) es
    → IsTrue b
    → IsTrue (steps es b)
unfolding steps
steps-IsTrue [] b s t = t
steps-IsTrue (e ∷ es) b s t =
    steps-IsTrue es (step e.1.1 e.1.0 e.0 b) s.1 (step-IsTrue e.1.1 e.1.0 e.0 b s.0 t)

boot-IsTrue : IsTrue boot
boot-IsTrue = record { on = λ e. cc; off = λ e. refl }

-- Whatever events come after the boot, as long as every stop that the host is asked for succeeds: an
-- address that the controller sends out is the station's present one, which it still has, and the host
-- is up. So an address that the station has lost or replaced is never on the air.
pub beacon_present :
    (es : List (Event × (ℕ × Host))) (address : Bytes)
    → Every (λ e. e.1.1.stop_ok ≡ true) es
    → (steps es boot).on_air ≡ some address
    → ((steps es boot).address ≡ address)
      × ((steps es boot).have_ip ≡ true)
      × ((steps es boot).host_ready ≡ true)
beacon_present es address s on =
    let t = steps-IsTrue es boot s boot-IsTrue in
    let b = steps es boot in
    elim (Bool-cases b.advertising) [
      | inl yes_on ↦ (
        some-injective b.address address (sym (t.on yes_on).0 ∙ on),
        (t.on yes_on).1.1,
        (t.on yes_on).1.0,
      )
      | inr off ↦ absurd (none-some (sym (t.off off) ∙ on))
    ]
  where
    none-some : none ≡ some address → ⊥
    none-some e = cc

-- When the mode is Wi-Fi only, nothing is on the air after the mode has been applied.
pub apply_mode-wifi :
    (h : Host) (b : Beacon)
    → h.stop_ok ≡ true
    → IsTrue b
    → b.started ≡ true
    → (step h discovery_wifi apply_mode b).on_air ≡ none
unfolding step start_advertising stop_advertising should_advertise_ble
apply_mode-wifi h b s t started = ground (arith, t.on, t.off)
