-- ===== src/WifiPairing.antt =====
-- src/tcp_server/pairing.c: pairing over TCP, which gives the device its router's name and password.
-- A line is the C string in the receive buffer, its line end included.
pub mod Sequence
use cything.Prelude.{
  ℕ, ◌+◌, ◌-◌, Bool, true, false, ◌&&◌, ◌||◌, List, [], ◌∷◌, leb, ltb, if◌then◌else◌, length, take,
  drop, ℤ,
}
use cything.Prelude.Bytes.{Bytes, codes, bytes_eq, has_prefix}
use cything.Clients.{Clients, send_raw_to_client}
use cything.WifiFlash.{FlashEnv, flash_store_wifi_router_info}

-- START_PAIRING_IND, SET_ROUTER_SSID_IND, SET_ROUTER_PASS_IND and FINISH_PAIRING_IND.
pub data Step : Type 0 where
  start_pairing set_router_ssid set_router_pass finish_pairing : Step

-- The size of the two buffers.
abbrev pub value_size : ℕ
value_size = 128

-- The prefixes that an application may replace.
pub record Prefixes : Type 0 where
  pub router_ssid : Bytes
  pub router_pass : Bytes

abbrev pub default_prefixes : Prefixes
default_prefixes = record { router_ssid = codes "ssid:"; router_pass = codes "pass:" }

-- SET_ROUTER_SSID_SUFFIX and SET_ROUTER_PASS_SUFFIX.
abbrev pub suffix : Bytes
suffix = codes "\n"

-- The file's state, the flash block, and whether a reboot is armed. `watched` says that the watchdog
-- runs.
pub record Pairing : Type 0 where
  pub step : Step
  pub temp_ssid : Bytes
  pub temp_password : Bytes
  pub watched : Bool
  pub flash : Bytes
  pub rebooting : Bool

-- `pairing_timeout_cb`, when the watchdog's one shot comes.
unfoldable pub pairing_timeout : Pairing → Pairing
pairing_timeout p = record p { step = start_pairing; watched = false }

unfoldable pub is_pairing_command_valid : Bytes → Bytes → Bytes → Bool
is_pairing_command_valid line prefix suffix =
    if ltb (length line) (length prefix + length suffix)
    then false
    else has_prefix line prefix && bytes_eq (drop (length line - length suffix) line) suffix

unfoldable pub copy_pairing_value : Bytes → Bytes → Bytes → ℕ → Bytes
copy_pairing_value line prefix suffix size =
    let len = length line - length prefix - length suffix in
    take (if leb size len then size - 1 else len) (drop (length prefix) line)

-- `pairing_commit`: the credentials to flash, then a reboot if that succeeded.
unfoldable pub pairing_commit : FlashEnv → Bytes → Bytes → Pairing → Pairing × Bool
pairing_commit env ssid password p =
    let (flash, ok) = flash_store_wifi_router_info env ssid password p.flash in
    if ok
    then (record p { flash = flash; rebooting = true }, true)
    else (record p { flash = flash }, false)

-- `send_raw_to_client(sock, PAIR_ACK_RESPONSE)`.
abbrev pub ack : ℤ → Clients → Clients
ack sock c = send_raw_to_client sock (codes "ACK") c

-- `pairing_handle_line`: the state, what is queued for the clients, and whether the line was one of
-- pairing.
unfoldable pub pairing_handle_line :
    Prefixes → FlashEnv → Bytes → ℤ → Pairing → Clients → Pairing × Clients × Bool
unfolding is_pairing_command_valid copy_pairing_value pairing_commit
pairing_handle_line cy env line sock p c =
    if has_prefix line (codes "StartP")
    then (record p { step = set_router_ssid; watched = true }, ack sock c, true)
    else if is_pairing_command_valid line cy.router_ssid suffix
    then elim p.step [
      | set_router_ssid ↦ (
        record p {
          temp_ssid = copy_pairing_value line cy.router_ssid suffix value_size;
          step = set_router_pass;
          watched = true;
        },
        ack sock c,
        true,
      )
      | _ ↦ (p, c, true)
    ]
    else if is_pairing_command_valid line cy.router_pass suffix
    then elim p.step [
      | set_router_pass ↦ (
        record p {
          temp_password = copy_pairing_value line cy.router_pass suffix value_size;
          step = finish_pairing;
          watched = true;
        },
        ack sock c,
        true,
      )
      | _ ↦ (p, c, true)
    ]
    else if has_prefix line (codes "FinishP")
    then elim p.step [
      | finish_pairing ↦
          let (p', stored) = pairing_commit env p.temp_ssid p.temp_password p in
          (record p' { step = start_pairing; watched = false }, ack sock c, true)
      | _ ↦ (p, c, true)
    ]
    else (p, c, false)
