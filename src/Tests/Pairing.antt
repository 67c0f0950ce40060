-- ===== src/Tests/Pairing.antt =====
-- Pairing over TCP and over Bluetooth LE, at concrete inputs.
use cything.Prelude.{◌≡◌, refl, true, false, [], ◌∷◌, pos, arith, if◌then◌else◌}
use cything.Prelude.Bytes.{codes}
use cything.Fifo
use cything.Clients.{Clients}
use cything.WifiFlash.{
  FlashEnv, flash_store_wifi_router_info, flash_router_ssid, flash_router_password,
}
use cything.WifiFlash.Stored.{IsString, stored_lem}
use cything.WifiPairing.{Pairing, start_pairing, set_router_ssid, default_prefixes, ack}
use cything.WifiPairing.Sequence.{line_with, handle_lines, handle_lines_sequence}
use cything.BlePairing.{
  Ble, idle, trying, stored, no_task, in_trial, link_down, task_tried, task_began, wrote_ctrl,
  steps,
}
use cything.BlePairing.Trial.{trial_auth_fail}
use cything.BlePairing.Commits.{steps_kept, commit_run, commit_run_lem}
use cything.BlePairing.Advertising.{CanCome, IsHostSync, lost_during_trial}

-- Drivers whose calls all succeed.
abbrev good : FlashEnv
good = record { ok = λ n. true; behind_mode = [] }

abbrev pub quiet : Clients
quiet = record {
  accounts = [];
  response_id = 10;
  tcp_response_fifo = Fifo.init;
  mqtt_response_fifo = Fifo.init;
}

abbrev pub interrupted : Pairing
interrupted = record {
  step = set_router_ssid;
  temp_ssid = codes "old";
  temp_password = [];
  watched = true;
  flash = [];
  rebooting = false;
}

home-IsString : IsString (codes "home")
home-IsString = ground arith

word-IsString : IsString (codes "secret12")
word-IsString = ground arith

handle_lines_sequence_example :
    handle_lines default_prefixes good
      (codes "StartP\n"
        ∷ line_with (codes "ssid:") (codes "home")
        ∷ line_with (codes "pass:") (codes "secret12")
        ∷ codes "FinishP\n"
        ∷ [])
      (pos 4)
      interrupted
      quiet
    ≡ (
      record {
        step = start_pairing;
        temp_ssid = codes "home";
        temp_password = codes "secret12";
        watched = false;
        flash = (flash_store_wifi_router_info good (codes "home") (codes "secret12") []).0;
        rebooting =
            (if (flash_store_wifi_router_info good (codes "home") (codes "secret12") []).1
              then true
              else false);
      },
      ack (pos 4) (ack (pos 4) (ack (pos 4) (ack (pos 4) quiet))),
    )
handle_lines_sequence_example =
    handle_lines_sequence good (codes "home") (codes "secret12") (pos 4) interrupted quiet
      (omega arith) (omega arith)

stored_lem_example :
    (flash_router_ssid (flash_store_wifi_router_info good (codes "home") (codes "secret12") []).0
      ≡ codes "home")
    × (flash_router_password
          (flash_store_wifi_router_info good (codes "home") (codes "secret12") []).0
        ≡ codes "secret12")
unfolding flash_store_wifi_router_info
stored_lem_example =
    stored_lem good (codes "home") (codes "secret12") [] home-IsString word-IsString (omega arith)
      (omega arith) refl

-- A phone is connected and has written a name and a password.
abbrev asked : Ble
asked = record {
  cred_ssid = codes "home";
  cred_pass = codes "secret12";
  have_ssid = true;
  commit_in_progress = false;
  status = idle;
  task = no_task;
  connected = true;
  advertising = false;
  flash = [];
  rebooting = false;
}

-- Its credentials are being tried.
abbrev in_progress : Ble
in_progress = record asked {
  commit_in_progress = true;
  status = trying;
  task = in_trial (codes "home") (codes "secret12");
}

steps_kept_example :
    ((steps
        (wrote_ctrl (1 ∷ []) true true ∷ task_began ∷ task_tried trial_auth_fail ∷ [])
        asked).flash
      ≡ [])
    × ((steps
          (wrote_ctrl (1 ∷ []) true true ∷ task_began ∷ task_tried trial_auth_fail ∷ [])
          asked).rebooting
        ≡ false)
steps_kept_example =
    steps_kept (wrote_ctrl (1 ∷ []) true true ∷ task_began ∷ task_tried trial_auth_fail ∷ []) asked
      (tt, (tt, ((λ e. cc), tt))) (λ e. cc)

commit_run_lem_example :
    ((steps (commit_run good) asked).status ≡ stored)
    × ((steps (commit_run good) asked).rebooting ≡ true)
    × (flash_router_ssid (steps (commit_run good) asked).flash ≡ codes "home")
    × (flash_router_password (steps (commit_run good) asked).flash ≡ codes "secret12")
unfolding flash_store_wifi_router_info
commit_run_lem_example =
    commit_run_lem good asked refl refl home-IsString word-IsString (omega arith) (omega arith) refl

lost_during_trial_example :
    let b' = steps (link_down true ∷ task_tried trial_auth_fail ∷ []) in_progress in
    (b'.connected ≡ false)
    × (b'.advertising ≡ false)
    × (CanCome (wrote_ctrl (1 ∷ []) true true) b' → IsHostSync (wrote_ctrl (1 ∷ []) true true))
lost_during_trial_example =
    lost_during_trial in_progress (codes "home") (codes "secret12") true trial_auth_fail
      (wrote_ctrl (1 ∷ []) true true) refl refl refl (λ e. cc)
