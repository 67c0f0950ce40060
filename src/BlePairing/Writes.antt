-- ===== src/BlePairing/Writes.antt =====
-- The state of src/ble/ble_pairing.c under all that can happen.
use cything.Prelude.{◌≤◌, ◌≡◌, ◌⊎◌, arith, true, List, [], ◌∷◌, length}
use cything.BlePairing.{
  Ble, Event, wrote_ssid, wrote_pass, wrote_ctrl, link_up, link_failed, link_down, adv_complete,
  host_sync, task_began, task_tried, task_stored, step, steps, write_ssid, write_pass, write_ctrl,
  take_write, handle_control, start_advertising, commit_begin, commit_tried, commit_store, no_task,
  ssid_max, pass_max,
}

-- The credentials fit their buffers, and a commit task is only there while the file knows of it.
pub record IsSound (b : Ble) : Type 0 where
  pub ssid_fits : length b.cred_ssid ≤ ssid_max
  pub pass_fits : length b.cred_pass ≤ pass_max
  pub known : (b.task ≡ no_task) ⊎ (b.commit_in_progress ≡ true)

step-IsSound : (e : Event) (b : Ble) → IsSound b → IsSound (step e b)
unfolding step write_ssid write_pass write_ctrl take_write handle_control start_advertising
    commit_begin commit_tried commit_store
step-IsSound (wrote_ssid bytes copied) b v = ground arith
step-IsSound (wrote_pass bytes copied) b v = ground arith
step-IsSound (wrote_ctrl bytes copied heap) b v = ground arith
step-IsSound link_up b v = ground arith
step-IsSound (link_failed ok) b v = ground arith
step-IsSound (link_down ok) b v = ground arith
step-IsSound (adv_complete ok) b v = ground arith
step-IsSound (host_sync resolved ok) b v = ground arith
step-IsSound task_began b v = ground arith
step-IsSound (task_tried result) b v = ground arith
step-IsSound (task_stored env) b v = ground arith

-- Whatever a phone writes and whatever happens to the link and the commit task, in any order: the
-- name and the password never overflow their buffers, and while a commit task is there,
-- commit_in_progress is set, so that no second one is created.
pub steps-IsSound : (es : List Event) (b : Ble) → IsSound b → IsSound (steps es b)
unfolding steps
steps-IsSound [] b v = v
steps-IsSound (e ∷ es) b v = steps-IsSound es (step e b) (step-IsSound e b v)
