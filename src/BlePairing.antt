-- ===== src/BlePairing.antt =====
-- src/ble/ble_pairing.c: pairing over Bluetooth LE. The state of the file and of its commit task, the
-- writes that a phone makes, the events of the link, and the steps of the task between its waits,
-- which run between them in any order. The trial itself is BlePairing/Trial.
pub mod Trial
pub mod Writes
pub mod Commits
pub mod Advertising
use cything.Prelude.{
  ℕ, Bool, true, false, ◌&&◌, ◌||◌, not, List, [], ◌∷◌, ◌==◌, ltb, if◌then◌else◌, length, get_or,
}
use cything.Prelude.Bytes.{Bytes}
use cything.WifiFlash.{FlashEnv, flash_store_wifi_router_info}
use cything.BlePairing.Trial.{Result, trial_ok, trial_not_found, trial_auth_fail}

-- BLE_PAIR_SSID_MAX and BLE_PAIR_PASS_MAX.
abbrev pub ssid_max : ℕ
ssid_max = 32

abbrev pub pass_max : ℕ
pass_max = 64

-- The values of Status, BLE_PAIR_STATE_ and BLE_PAIR_ERR_.
pub data Status : Type 0 where
  idle ready stored trying joined : Status
  error_no_ssid error_flash error_bad_opcode error_busy : Status
  error_wifi_not_found error_wifi_auth error_wifi_timeout : Status

-- Where `ble_commit_task` is: not there, created, in `wifi_trial_run`, which has taken its copy of
-- the credentials, or in the delay before `pairing_commit`.
pub data Task : Type 0 where
  no_task created in_delay : Task
  in_trial : Bytes → Bytes → Task

-- `connected` and `advertising` are the host's.
pub record Ble : Type 0 where
  pub cred_ssid : Bytes
  pub cred_pass : Bytes
  pub have_ssid : Bool
  pub commit_in_progress : Bool
  pub status : Status
  pub task : Task
  pub connected : Bool
  pub advertising : Bool
  pub flash : Bytes
  pub rebooting : Bool

-- What a write is answered with: 0, BLE_ATT_ERR_INVALID_ATTR_VALUE_LEN or BLE_ATT_ERR_UNLIKELY.
pub data Answer : Type 0 where
  accepted invalid_length unlikely : Answer

-- `take_write` up to the copying: the bounds on the length, and whether the host could copy.
unfoldable pub take_write : Bytes → ℕ → ℕ → Bool → Answer
take_write bytes max_len min_len copied =
    if ltb (length bytes) min_len || ltb max_len (length bytes)
    then invalid_length
    else if not copied
    then unlikely
    else accepted

-- `handle_control`, with whether there is memory for the task.
unfoldable pub handle_control : ℕ → Bool → Ble → Ble
handle_control opcode heap b =
    if not (opcode == 1)
    then record b { status = error_bad_opcode }
    else if b.commit_in_progress
    then record b { status = error_busy }
    else if not b.have_ssid
    then record b { status = error_no_ssid }
    else if heap
    then record b { commit_in_progress = true; task = created }
    else record b { status = error_flash }

-- The writable characteristics of `gatt_access`.
unfoldable pub write_ssid : Bytes → Bool → Ble → Ble × Answer
unfolding take_write
write_ssid bytes copied b =
    let rc = take_write bytes ssid_max 1 copied in
    elim rc [
      | accepted ↦ (
        record b {
          cred_ssid = bytes;
          have_ssid = true;
          status = (if b.commit_in_progress then b.status else ready);
        },
        accepted,
      )
      | answer ↦ (b, answer)
    ]

unfoldable pub write_pass : Bytes → Bool → Ble → Ble × Answer
unfolding take_write
write_pass bytes copied b =
    let rc = take_write bytes pass_max 0 copied in
    elim rc [ accepted ↦ (record b { cred_pass = bytes }, accepted) | answer ↦ (b, answer) ]

unfoldable pub write_ctrl : Bytes → Bool → Bool → Ble → Ble × Answer
unfolding take_write handle_control
write_ctrl bytes copied heap b =
    let rc = take_write bytes 1 1 copied in
    elim rc [
      | accepted ↦ (handle_control (get_or bytes 0 0) heap b, accepted)
      | answer ↦ (b, answer)
    ]

-- `start_advertising`, with whether the host took it.
unfoldable pub start_advertising : Bool → Ble → Ble
start_advertising ok b = if ok then record b { advertising = true } else b

-- The first part of `ble_commit_task`, up to the copy in `wifi_trial_run`.
unfoldable pub commit_begin : Ble → Ble
commit_begin b = elim b.task [
  | created ↦ record b { status = trying; task = in_trial b.cred_ssid b.cred_pass }
  | _ ↦ b
]

-- The end of the trial.
unfoldable pub commit_tried : Result → Ble → Ble
commit_tried result b = elim b.task [
  | in_trial ssid password ↦ elim result [
    | trial_ok ↦ record b { status = joined; task = in_delay }
    | trial_not_found ↦ record b {
      status = error_wifi_not_found;
      commit_in_progress = false;
      task = no_task;
    }
    | trial_auth_fail ↦ record b {
      status = error_wifi_auth;
      commit_in_progress = false;
      task = no_task;
    }
    | _ ↦ record b { status = error_wifi_timeout; commit_in_progress = false; task = no_task }
  ]
  | _ ↦ b
]

-- `pairing_commit` and what follows it.
unfoldable pub commit_store : FlashEnv → Ble → Ble
commit_store env b = elim b.task [
  | in_delay ↦
      let (flash, ok) = flash_store_wifi_router_info env b.cred_ssid b.cred_pass b.flash in
      if ok
      then record b { flash = flash; rebooting = true; status = stored; task = no_task }
      else record b {
        flash = flash;
        status = error_flash;
        commit_in_progress = false;
        task = no_task;
      }
  | _ ↦ b
]

-- `on_sync`, with the answer of `ble_host_resolve_addr`.
unfoldable pub on_sync : Bool → Bool → Ble → Ble
unfolding start_advertising
on_sync resolved ok b = if resolved then start_advertising ok b else b

-- What can happen: the writes of a phone, the events of `gap_event`, `on_sync` with the answer of
-- `ble_host_resolve_addr`, and the steps of the task.
pub data Event : Type 0 where
  wrote_ssid wrote_pass : Bytes → Bool → Event
  wrote_ctrl : Bytes → Bool → Bool → Event
  link_up : Event
  link_failed link_down adv_complete : Bool → Event
  host_sync : Bool → Bool → Event
  task_began : Event
  task_tried : Result → Event
  task_stored : FlashEnv → Event

-- The host stops advertising when a link is up or being set up, and at ADV_COMPLETE.
unfoldable pub step : Event → Ble → Ble
unfolding write_ssid write_pass write_ctrl start_advertising on_sync commit_begin commit_tried
    commit_store
step (wrote_ssid bytes copied) b = (write_ssid bytes copied b).0
step (wrote_pass bytes copied) b = (write_pass bytes copied b).0
step (wrote_ctrl bytes copied heap) b = (write_ctrl bytes copied heap b).0
step link_up b = record b { connected = true; advertising = false }
step (link_failed ok) b = start_advertising ok (record b { advertising = false })
step (link_down ok) b =
    let b' = record b { connected = false } in
    if b.commit_in_progress then b' else start_advertising ok b'
step (adv_complete ok) b =
    let b' = record b { advertising = false } in
    if b.commit_in_progress then b' else start_advertising ok b'
step (host_sync resolved ok) b = on_sync resolved ok b
step task_began b = commit_begin b
step (task_tried result) b = commit_tried result b
step (task_stored env) b = commit_store env b

unfoldable pub steps : List Event → Ble → Ble
unfolding step
steps [] b = b
steps (e ∷ es) b = steps es (step e b)
