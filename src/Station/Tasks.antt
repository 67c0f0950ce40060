-- ===== src/Station/Tasks.antt =====
-- The tasks that src/wifi/station_mode.c creates, and what it takes for a connection.
use cything.Prelude.{
  sym, ◌∙◌, ℕ, ◌≤◌, ◌≡◌, refl, arith, true, false, none, List, [], ◌∷◌, if◌then◌else◌,
}
use cything.Prelude.Bytes.{Bytes}
use cything.Beacon
use cything.Beacon.{Beacon, Host}
use cything.Beacon.Air.{IsTrue}
use cything.Station.{
  Station, waiting, delaying, Event, sta_start, disconnected, task_wakes, ip_event, task_starts,
  step, steps, boot,
}

-- How many tasks of each kind there are.
pub record IsCounted (s : Station) : Type 0 where
  pub tcp : s.tcp_servers ≡ (if s.all_sockets_init then 1 else 0)
  pub udp : s.udp_servers ≡ (if s.all_sockets_init then 1 else 0)
  pub early : s.phase ≡ waiting → s.aws_tasks ≡ 0
  pub delayed : s.phase ≡ delaying → s.aws_tasks ≡ 0
  pub once : s.aws_tasks ≤ 1

step-IsCounted :
    (h : Host) (mode : ℕ) (e : Event) (s : Station) → IsCounted s → IsCounted (step h mode e s)
unfolding step
step-IsCounted h mode sta_start s c = record {
  tcp = c.tcp;
  udp = c.udp;
  early = c.early;
  delayed = c.delayed;
  once = c.once;
}
step-IsCounted h mode disconnected s c = record {
  tcp = c.tcp;
  udp = c.udp;
  early = c.early;
  delayed = c.delayed;
  once = c.once;
}
step-IsCounted h mode (ip_event ip) s c = record {
  tcp = ground (arith, c.tcp);
  udp = ground (arith, c.udp);
  early = ground (arith, c.early);
  delayed = ground (arith, c.delayed);
  once = ground (arith, c.once);
}
step-IsCounted h mode task_wakes s c = record {
  tcp = ground (arith, c.tcp);
  udp = ground (arith, c.udp);
  early = ground (arith, c.early);
  delayed = ground (arith, c.early, c.delayed);
  once = ground (arith, c.once);
}
step-IsCounted h mode (task_starts is_active) s c = record {
  tcp = ground (arith, c.tcp);
  udp = ground (arith, c.udp);
  early = ground (arith, c.early);
  delayed = ground (arith, c.early, c.delayed);
  once = ground (arith, c.once, c.delayed);
}

steps-IsCounted :
    (es : List (Event × (ℕ × Host))) (s : Station) → IsCounted s → IsCounted (steps es s)
unfolding steps
steps-IsCounted [] s c = c
steps-IsCounted (e ∷ es) s c =
    steps-IsCounted es (step e.1.1 e.1.0 e.0 s) (step-IsCounted e.1.1 e.1.0 e.0 s c)

-- However often the station loses and gets its address, the TCP and the UDP server are created once,
-- with the first address, and the task of the cloud connection at most once.
pub station_tasks :
    (es : List (Event × (ℕ × Host))) (b : Beacon)
    → ((steps es (boot b)).tcp_servers ≡ (if (steps es (boot b)).all_sockets_init then 1 else 0))
      × (((steps es (boot b)).udp_servers ≡ (steps es (boot b)).tcp_servers)
          × ((steps es (boot b)).aws_tasks ≤ 1))
station_tasks es b =
    let c = steps-IsCounted es (boot b) (record {
      tcp = refl;
      udp = refl;
      early = λ e. refl;
      delayed = λ e. refl;
      once = omega arith;
    }) in
    (c.tcp, (c.udp ∙ sym c.tcp, c.once))

-- If the station loses its first address before the waiting task runs, the task takes it for connected
-- all the same: the bit for which it waited is never taken back.
pub woken_unlinked :
    (h g i : Host) (mode : ℕ) (ip : Bytes) (s : Station)
    → s.phase ≡ waiting
    → (((steps
            ((ip_event ip, (mode, h)) ∷ (disconnected, (mode, g)) ∷ (task_wakes, (mode, i)) ∷ [])
            s).is_connected
          ≡ true)
        × ((steps
              ((ip_event ip, (mode, h)) ∷ (disconnected, (mode, g)) ∷ (task_wakes, (mode, i)) ∷ [])
              s).linked
            ≡ false))
unfolding steps step
woken_unlinked h g i mode ip s w = ground (arith, w)

-- A disconnection silences the beacon at once, if the Bluetooth host can stop it.
pub disconnected-silent :
    (h : Host) (mode : ℕ) (s : Station)
    → h.stop_ok ≡ true
    → IsTrue s.beacon
    → s.beacon.started ≡ true
    → (step h mode disconnected s).beacon.on_air ≡ none
unfolding step Beacon.step Beacon.stop_advertising
disconnected-silent h mode s stops t started = ground (arith, t.on, t.off)
