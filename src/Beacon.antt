-- ===== src/Beacon.antt =====
-- src/ble/ble_beacon.c and src/ble/discovery_mode.c: the beacon that shows a station's address to
-- scanners, and the mode that may switch it off. Each event runs under the beacon's lock.
pub mod Air
pub mod Mode
use cything.Prelude.{
  ℕ, Bool, true, false, ◌&&◌, ◌||◌, not, Option, none, some, List, [], ◌∷◌, ◌==◌, ltb, leb,
  if◌then◌else◌, length, take,
}
use cything.Prelude.Bytes.{Bytes}

-- `discovery_mode_t`.
abbrev pub discovery_wifi : ℕ
discovery_wifi = 1

abbrev pub discovery_ble : ℕ
discovery_ble = 2

abbrev pub discovery_both : ℕ
discovery_both = 3

-- `s_mode`, and the value under its key in NVS.
pub record DiscoveryMode : Type 0 where
  pub mode : ℕ
  pub saved : Option ℕ

unfoldable pub valid_mode : ℕ → Bool
valid_mode m = leb discovery_wifi m && leb m discovery_both

-- `discovery_mode_init` after a boot. The open of the namespace fails where nothing was saved.
unfoldable pub mode_init : Option ℕ → DiscoveryMode
unfolding valid_mode
mode_init none = record { mode = discovery_both; saved = none }
mode_init (some m) = record { mode = if valid_mode m then m else discovery_both; saved = some m }

-- What the calls of NVS in `discovery_mode_set` do: the open fails, the write does, the commit does, or
-- none. A write that is not committed leaves the value.
pub data Nvs : Type 0 where
  open_fails set_fails commit_fails nvs_works : Nvs

-- `discovery_mode_set`: whether it returned ESP_OK.
unfoldable pub mode_set : Nvs → ℕ → DiscoveryMode → DiscoveryMode × Bool
unfolding valid_mode
mode_set nvs m s = if not (valid_mode m) then (s, false) else elim nvs [
  | open_fails ↦ (s, false)
  | set_fails ↦ (s, false)
  | commit_fails ↦ (s, false)
  | nvs_works ↦ (record { mode = m; saved = some m }, true)
]

-- `discovery_mode_should_advertise_ble`.
unfoldable pub should_advertise_ble : ℕ → Bool
should_advertise_ble mode = (mode == discovery_ble) || (mode == discovery_both)

-- What the calls of the Bluetooth host answer in an event.
pub record Host : Type 0 where
  pub stop_ok : Bool
  pub fields_ok : Bool
  pub response_ok : Bool
  pub start_ok : Bool

-- The flags of ble_beacon.c, the address in `mfg_data`, and the address that the controller sends out.
pub record Beacon : Type 0 where
  pub started : Bool
  pub host_ready : Bool
  pub have_ip : Bool
  pub advertising : Bool
  pub address : Bytes
  pub on_air : Option Bytes

-- `stop_advertising_locked`. A stop that fails leaves the controller sending.
unfoldable pub stop_advertising : Host → Beacon → Beacon
stop_advertising h b =
    if b.advertising
    then record b { advertising = false; on_air = if h.stop_ok then none else b.on_air }
    else b

-- `start_advertising_locked` in a mode.
unfoldable pub start_advertising : Host → ℕ → Beacon → Beacon
unfolding stop_advertising should_advertise_ble
start_advertising h mode b =
    let stopped = stop_advertising h b in
    if not b.host_ready || not b.have_ip
    then b
    else if not (should_advertise_ble mode)
    then stopped
    else if h.fields_ok && (h.response_ok && h.start_ok)
    then record stopped { advertising = true; on_air = some b.address }
    else stopped

-- The events: the end of a set of advertisements, the host's reset and its sync with the answer of
-- `ble_host_resolve_addr`, the station's address and its loss, and a change of mode.
pub data Event : Type 0 where
  beacon_start adv_complete host_reset ip_lost apply_mode : Event
  host_sync : Bool → Event
  got_ip : Bytes → Event

-- `gap_event`, `on_reset`, `on_sync`, `ble_beacon_start` without the bring-up of the host,
-- `ble_beacon_on_ip`, `ble_beacon_on_ip_lost` and `ble_beacon_apply_discovery_mode`.
unfoldable pub step : Host → ℕ → Event → Beacon → Beacon
unfolding start_advertising stop_advertising
step h mode beacon_start b = record b { started = true }
step h mode adv_complete b =
    start_advertising h mode (record b { advertising = false; on_air = none })
step h mode host_reset b = record b { host_ready = false; advertising = false; on_air = none }
step h mode (host_sync resolved) b =
    if resolved then start_advertising h mode (record b { host_ready = true }) else b
step h mode (got_ip ip) b =
    if b.started then start_advertising h mode (record b { address = ip; have_ip = true }) else b
step h mode ip_lost b = if b.started then stop_advertising h (record b { have_ip = false }) else b
step h mode apply_mode b = if b.started then start_advertising h mode b else b

-- The events in their order, each with the mode and the answers of the host at its time.
unfoldable pub steps : List (Event × (ℕ × Host)) → Beacon → Beacon
unfolding step
steps [] b = b
steps (e ∷ es) b = steps es (step e.1.1 e.1.0 e.0 b)

-- The state at boot.
abbrev pub boot : Beacon
boot = record {
  started = false;
  host_ready = false;
  have_ip = false;
  advertising = false;
  address = 0 ∷ 0 ∷ 0 ∷ 0 ∷ [];
  on_air = none;
}

-- `build_name`: the name of the scan response, and whether it is whole.
unfoldable pub build_name : Bytes → Bytes → Bytes × Bool
build_name device_id unit_name = elim device_id [
  | [] ↦ (take 29 unit_name, true)
  | c ∷ s ↦ (take 29 (c ∷ s), leb (length (c ∷ s)) 29)
]
