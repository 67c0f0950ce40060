-- ===== src/BlePairing/Trial.antt =====
-- src/wifi/wifi_trial.c: trying credentials before they are stored. The driver's calls and the events
-- that it sends are arguments.
use cything.Prelude.{ℕ, suc, ◌-◌, Bool, true, false, not, List, [], ◌∷◌, if◌then◌else◌, ltb}

-- `wifi_trial_result_t`.
pub data Result : Type 0 where
  trial_ok trial_not_found trial_auth_fail trial_timeout trial_error : Result

-- The reasons of a disconnection that `classify` tells apart.
pub data Reason : Type 0 where
  no_ap_found no_ap_found_in_rssi_threshold : Reason
  no_ap_found_in_authmode_threshold no_ap_found_w_compatible_security : Reason
  auth_expire auth_fail four_way_handshake_timeout handshake_timeout mic_failure : Reason
  other_reason : ℕ → Reason

unfoldable pub classify : Reason → Result
classify no_ap_found = trial_not_found
classify no_ap_found_in_rssi_threshold = trial_not_found
classify no_ap_found_in_authmode_threshold = trial_not_found
classify no_ap_found_w_compatible_security = trial_not_found
classify auth_expire = trial_auth_fail
classify auth_fail = trial_auth_fail
classify four_way_handshake_timeout = trial_auth_fail
classify handshake_timeout = trial_auth_fail
classify mic_failure = trial_auth_fail
classify (other_reason n) = trial_timeout

-- The events that the handler is registered for.
pub data WifiEvent : Type 0 where
  sta_disconnected : Reason → WifiEvent
  sta_got_ip : WifiEvent

-- The file's state; `connects` counts the calls of `esp_wifi_connect`.
pub record Trial : Type 0 where
  pub trial_active : Bool
  pub trial_failure : Result
  pub trial_retries : ℕ
  pub got_ip : Bool
  pub failed : Bool
  pub connects : ℕ

-- A disconnection of a class: a failure, or another attempt where the class is the marker
-- `trial_timeout` and attempts are left.
unfoldable pub lost_link : Result → Trial → Trial
lost_link trial_timeout t =
    if ltb 0 t.trial_retries
    then record t { trial_retries = t.trial_retries - 1; connects = suc t.connects }
    else record t { trial_failure = trial_timeout; failed = true }
lost_link why t = record t { trial_failure = why; failed = true }

-- `trial_event`.
unfoldable pub trial_event : WifiEvent → Trial → Trial
unfolding lost_link classify
trial_event e t = if not t.trial_active then t else elim e [
  | sta_disconnected reason ↦ lost_link (classify reason) t
  | sta_got_ip ↦ record t { got_ip = true }
]

-- `xEventGroupWaitBits`: the events that come before the timeout, up to the one that sets a bit.
unfoldable pub wait_bits : List WifiEvent → Trial → Trial
unfolding trial_event
wait_bits [] t = t
wait_bits (e ∷ es) t =
    let t' = trial_event e t in
    let rest = wait_bits es t' in if t'.got_ip then t' else if t'.failed then t' else rest

-- The state when the first connect has been made.
abbrev pub started : Trial
started = record {
  trial_active = true;
  trial_failure = trial_timeout;
  trial_retries = 2;
  got_ip = false;
  failed = false;
  connects = 1;
}

-- `wifi_trial_run`, with whether its start succeeded.
unfoldable pub wifi_trial_run : Bool → List WifiEvent → Result
unfolding wait_bits
wifi_trial_run start_ok events =
    let t = wait_bits events started in
    if not start_ok
    then trial_error
    else if t.got_ip
    then trial_ok
    else if t.failed
    then t.trial_failure
    else trial_timeout
