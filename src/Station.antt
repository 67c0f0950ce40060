-- ===== src/Station.antt =====
-- src/wifi/station_mode.c without a static address and with the scan beacon: the handler of the
-- Wi-Fi events, and the task that waits for the first address. The calls of the driver that carry
-- no state are left out.
pub mod Tasks
use cything.Prelude.{
  ℕ, ◌+◌, Bool, true, false, ◌&&◌, not, Option, none, some, List, [], ◌∷◌, if◌then◌else◌,
}
use cything.Prelude.Bytes.{Bytes}
use cything.Beacon
use cything.Beacon.{Beacon, Host, ip_lost, got_ip}

-- Where `wifi_init_sta` stands: it waits for WIFI_CONNECTED_BIT, then it waits three seconds more, then
-- it is over.
pub data Phase : Type 0 where
  waiting delaying over : Phase

-- `isConnectedToWifi`, `all_sockets_init`, `device_ip`, WIFI_CONNECTED_BIT, how often each task was
-- created and `esp_wifi_connect` was called, and the beacon. `linked` is whether the station has an
-- address in fact.
pub record Station : Type 0 where
  pub is_connected : Bool
  pub all_sockets_init : Bool
  pub device_ip : Bytes
  pub connected_bit : Bool
  pub phase : Phase
  pub tcp_servers : ℕ
  pub udp_servers : ℕ
  pub aws_tasks : ℕ
  pub connects : ℕ
  pub beacon : Beacon
  pub linked : Bool

-- WIFI_EVENT_STA_START, WIFI_EVENT_STA_DISCONNECTED and IP_EVENT_STA_GOT_IP, and the two steps of the
-- task: it wakes, and it starts the cloud connection of a provisioned device.
pub data Event : Type 0 where
  sta_start disconnected task_wakes : Event
  ip_event : Bytes → Event
  task_starts : (is_active : Bool) → Event

-- Both servers are created with the first address.
abbrev create_servers : Station → Station
create_servers s = if s.all_sockets_init then s else record s {
  all_sockets_init = true;
  tcp_servers = s.tcp_servers + 1;
  udp_servers = s.udp_servers + 1;
}

-- `event_handler` and `wifi_init_sta`, with the answers of the Bluetooth host and the discovery mode.
-- A step of the task that is not due does nothing.
unfoldable pub step : Host → ℕ → Event → Station → Station
unfolding Beacon.step
step h mode sta_start s = record s { is_connected = false; connects = s.connects + 1 }
step h mode disconnected s = record s {
  is_connected = false;
  beacon = Beacon.step h mode ip_lost s.beacon;
  connects = s.connects + 1;
  linked = false;
}
step h mode (ip_event ip) s = create_servers (record s {
  device_ip = ip;
  is_connected = true;
  beacon = Beacon.step h mode (got_ip ip) s.beacon;
  connected_bit = true;
  linked = true;
})
step h mode task_wakes s = elim s.phase [
  | waiting ↦ (if s.connected_bit then record s { phase = delaying; is_connected = true } else s)
  | delaying ↦ s
  | over ↦ s
]
step h mode (task_starts is_active) s = elim s.phase [
  | waiting ↦ s
  | delaying ↦ record s {
    phase = over;
    aws_tasks = if is_active then s.aws_tasks + 1 else s.aws_tasks;
  }
  | over ↦ s
]

unfoldable pub steps : List (Event × (ℕ × Host)) → Station → Station
unfolding step
steps [] s = s
steps (e ∷ es) s = steps es (step e.1.1 e.1.0 e.0 s)

-- The state in which the events begin, for a beacon that was started or not.
abbrev pub boot : Beacon → Station
boot b = record {
  is_connected = false;
  all_sockets_init = false;
  device_ip = 0 ∷ 0 ∷ 0 ∷ 0 ∷ [];
  connected_bit = false;
  phase = waiting;
  tcp_servers = 0;
  udp_servers = 0;
  aws_tasks = 0;
  connects = 0;
  beacon = b;
  linked = false;
}
