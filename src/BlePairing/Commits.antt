-- ===== src/BlePairing/Commits.antt =====
-- What a commit in src/ble/ble_pairing.c stores.
use cything.Prelude.{◌≤◌, ◌≡◌, ◌≢◌, refl, ap, ◌∙◌, arith, true, false, List, [], ◌∷◌, length}
use cything.Prelude.Bytes.{Bytes}
use cything.Prelude.Every.{Every}
use cything.WifiFlash.{
  FlashEnv, flash_store_wifi_router_info, flash_router_ssid, flash_router_password,
}
use cything.WifiFlash.Stored.{IsString, stored_lem}
use cything.BlePairing.Trial.{trial_ok}
use cything.BlePairing.{
  Ble, Event, wrote_ssid, wrote_pass, wrote_ctrl, link_up, link_failed, link_down, adv_complete,
  host_sync, task_began, task_tried, task_stored, step, steps, write_ssid, write_pass, write_ctrl,
  take_write, handle_control, start_advertising, commit_begin, commit_tried, commit_store, joined,
  no_task, in_trial, in_delay, ssid_max, pass_max, stored,
}

-- The trial did not succeed, if this is its end.
abbrev pub NotJoined : Event → Type 0
NotJoined (task_tried result) = result ≢ trial_ok
NotJoined e = Unit {0}

step_kept :
    (e : Event) (b : Ble)
    → NotJoined e
    → b.task ≢ in_delay
    → ((step e b).task ≢ in_delay)
      × ((step e b).flash ≡ b.flash)
      × ((step e b).rebooting ≡ b.rebooting)
unfolding step write_ssid write_pass write_ctrl take_write handle_control start_advertising
    commit_begin commit_tried commit_store
step_kept (wrote_ssid bytes copied) b j n = ground arith
step_kept (wrote_pass bytes copied) b j n = ground arith
step_kept (wrote_ctrl bytes copied heap) b j n = ground arith
step_kept link_up b j n = ground arith
step_kept (link_failed ok) b j n = ground arith
step_kept (link_down ok) b j n = ground arith
step_kept (adv_complete ok) b j n = ground arith
step_kept (host_sync resolved ok) b j n = ground arith
step_kept task_began b j n = ground arith
step_kept (task_tried result) b j n = ground arith
step_kept (task_stored env) b j n = ground arith

-- From a state where no trial has succeeded yet, no run in which none does changes the flash block or
-- arms a reboot, whatever is written and however often a commit is asked for.
pub steps_kept :
    (es : List Event) (b : Ble)
    → Every NotJoined es
    → b.task ≢ in_delay
    → ((steps es b).flash ≡ b.flash) × ((steps es b).rebooting ≡ b.rebooting)
unfolding steps
steps_kept [] b j n = (refl, refl)
steps_kept (e ∷ es) b j n =
    let (n', f, r) = step_kept e b j.0 n in
    let (f', r') = steps_kept es (step e b) j.1 n' in (f' ∙ f, r' ∙ r)

-- The state after a store that returned ESP_OK.
stored_step :
    (env : FlashEnv) (b : Ble)
    → b.task ≡ in_delay
    → (flash_store_wifi_router_info env b.cred_ssid b.cred_pass b.flash).1 ≡ true
    → commit_store env b ≡ record b {
      flash = (flash_store_wifi_router_info env b.cred_ssid b.cred_pass b.flash).0;
      rebooting = true;
      status = stored;
      task = no_task;
    }
unfolding commit_store
stored_step env b t ok = rw (commit_store, t, ok) refl

-- A commit from the write of COMMIT to the store.
abbrev pub commit_run : FlashEnv → List Event
commit_run env =
    wrote_ctrl (1 ∷ []) true true ∷ task_began ∷ task_tried trial_ok ∷ task_stored env ∷ []

-- The state before the store.
abbrev delayed : Ble → Ble
delayed b = record b { commit_in_progress = true; status = joined; task = in_delay }

commit_run-delayed :
    (env : FlashEnv) (b : Ble)
    → b.have_ssid ≡ true
    → b.commit_in_progress ≡ false
    → steps (commit_run env) b ≡ commit_store env (delayed b)
unfolding steps step write_ctrl take_write handle_control commit_begin commit_tried
commit_run-delayed env b h p = rw (p, h) refl

-- Once there is a name and no commit is under way, and name and password fit and have no NUL, a
-- COMMIT whose task is created, whose trial succeeds and whose store does, with nothing in between,
-- ends with STORED and a reboot, and the next boot reads from flash the name and the password that
-- were tried.
pub commit_run_lem :
    (env : FlashEnv) (b : Ble)
    → b.have_ssid ≡ true
    → b.commit_in_progress ≡ false
    → IsString b.cred_ssid
    → IsString b.cred_pass
    → length b.cred_ssid ≤ ssid_max
    → length b.cred_pass ≤ pass_max
    → (flash_store_wifi_router_info env b.cred_ssid b.cred_pass b.flash).1 ≡ true
    → ((steps (commit_run env) b).status ≡ stored)
      × ((steps (commit_run env) b).rebooting ≡ true)
      × (flash_router_ssid (steps (commit_run env) b).flash ≡ b.cred_ssid)
      × (flash_router_password (steps (commit_run env) b).flash ≡ b.cred_pass)
commit_run_lem env b h p s w ls lw ok =
    let run = commit_run-delayed env b h p ∙ stored_step env (delayed b) refl ok in
    let (name, word) =
      stored_lem env b.cred_ssid b.cred_pass b.flash s w (omega (arith, ls)) (omega (arith, lw))
        ok in
    (
      ap (λ (x : Ble). x.status) run,
      ap (λ (x : Ble). x.rebooting) run,
      ap (λ (x : Ble). flash_router_ssid x.flash) run ∙ name,
      ap (λ (x : Ble). flash_router_password x.flash) run ∙ word,
    )

-- A name that is written between the end of the trial and the store.
abbrev pub late_write : FlashEnv → Bytes → List Event
late_write env ssid = task_tried trial_ok ∷ wrote_ssid ssid true ∷ task_stored env ∷ []

write_ssid_late :
    (ssid : Bytes) (b : Ble)
    → b.commit_in_progress ≡ true
    → 1 ≤ length ssid
    → length ssid ≤ ssid_max
    → (write_ssid ssid true b).0 ≡ record b { cred_ssid = ssid; have_ssid = true }
unfolding write_ssid take_write
write_ssid_late ssid b p l m = ground (arith, p, l, m)

commit_tried-joined :
    (b : Ble) (tried password : Bytes)
    → b.task ≡ in_trial tried password
    → commit_tried trial_ok b ≡ record b { status = joined; task = in_delay }
unfolding commit_tried
commit_tried-joined b tried password t = rw (commit_tried, t) refl

late_write-delayed :
    (env : FlashEnv) (b : Ble) (tried password ssid : Bytes)
    → b.task ≡ in_trial tried password
    → b.commit_in_progress ≡ true
    → 1 ≤ length ssid
    → length ssid ≤ ssid_max
    → steps (late_write env ssid) b
      ≡ commit_store env
          (record b { cred_ssid = ssid; have_ssid = true; status = joined; task = in_delay })
unfolding steps step
late_write-delayed env b tried password ssid t p l m =
    ap (λ (x : Ble). commit_store env (write_ssid ssid true x).0)
      (commit_tried-joined b tried password t)
    ∙ ap (commit_store env)
        (write_ssid_late ssid (record b { status = joined; task = in_delay }) p l m)

-- The name that is stored need not be the one that was tried: whatever name the trial has succeeded
-- with, one of 1 to 32 bytes that is written afterwards and before the store is stored in its place,
-- where the store succeeds, with the reboot to follow.
pub late_write_lem :
    (env : FlashEnv) (b : Ble) (tried password ssid : Bytes)
    → b.task ≡ in_trial tried password
    → b.commit_in_progress ≡ true
    → IsString ssid
    → IsString b.cred_pass
    → 1 ≤ length ssid
    → length ssid ≤ ssid_max
    → length b.cred_pass ≤ pass_max
    → (flash_store_wifi_router_info env ssid b.cred_pass b.flash).1 ≡ true
    → ((steps (late_write env ssid) b).rebooting ≡ true)
      × (flash_router_ssid (steps (late_write env ssid) b).flash ≡ ssid)
late_write_lem env b tried password ssid t p s w l m k ok =
    let run = late_write-delayed env b tried password ssid t p l m ∙ stored_step env _ refl ok in
    let (name, word) =
      stored_lem env ssid b.cred_pass b.flash s w (omega (arith, m)) (omega (arith, k)) ok in
    (ap (λ (x : Ble). x.rebooting) run, ap (λ (x : Ble). flash_router_ssid x.flash) run ∙ name)
