-- ===== src/BlePairing/Advertising.antt =====
-- Whether the phone can reach src/ble/ble_pairing.c.
use cything.Prelude.{◌≡◌, ◌≢◌, arith, Bool, true, false, [], ◌∷◌}
use cything.Prelude.Bytes.{Bytes}
use cything.BlePairing.Trial.{Result, trial_ok}
use cything.BlePairing.{
  Ble, Event, wrote_ssid, wrote_pass, wrote_ctrl, link_up, link_failed, link_down, adv_complete,
  host_sync, task_began, task_tried, task_stored, step, steps, commit_tried, no_task, in_trial,
  in_delay, created,
}

-- The events that can come in a state: writes and a disconnection over a link, a link and the end of
-- advertising while the device advertises, the steps of the task in their turn, and at any time a sync
-- of the Bluetooth host, which reports one after each of its resets.
abbrev pub CanCome : Event → Ble → Type 0
CanCome (wrote_ssid bytes copied) b = b.connected ≡ true
CanCome (wrote_pass bytes copied) b = b.connected ≡ true
CanCome (wrote_ctrl bytes copied heap) b = b.connected ≡ true
CanCome link_up b = b.advertising ≡ true
CanCome (link_failed ok) b = b.advertising ≡ true
CanCome (link_down ok) b = b.connected ≡ true
CanCome (adv_complete ok) b = b.advertising ≡ true
CanCome (host_sync resolved ok) b = Unit
CanCome task_began b = b.task ≡ created
CanCome (task_tried result) b =
    (ssid : Bytes) × (password : Bytes) × (b.task ≡ in_trial ssid password)
CanCome (task_stored env) b = b.task ≡ in_delay

-- A sync of the Bluetooth host.
abbrev pub IsHostSync : Event → Type 0
IsHostSync (host_sync resolved ok) = Unit
IsHostSync _ = ⊥

stranded :
    (b : Ble)
    → b.connected ≡ false
    → b.advertising ≡ false
    → b.task ≡ no_task
    → (e : Event) → CanCome e b
    → IsHostSync e
stranded b c a t (wrote_ssid bytes copied) h = absurd cc
stranded b c a t (wrote_pass bytes copied) h = absurd cc
stranded b c a t (wrote_ctrl bytes copied heap) h = absurd cc
stranded b c a t link_up h = absurd cc
stranded b c a t (link_failed ok) h = absurd cc
stranded b c a t (link_down ok) h = absurd cc
stranded b c a t (adv_complete ok) h = absurd cc
stranded b c a t (host_sync resolved ok) h = tt
stranded b c a t task_began h = absurd cc
stranded b c a t (task_tried result) (s, w, h) = absurd cc
stranded b c a t (task_stored env) h = absurd cc

lost :
    (b : Ble) (ssid password : Bytes) (ok : Bool) (result : Result)
    → b.task ≡ in_trial ssid password
    → b.commit_in_progress ≡ true
    → b.advertising ≡ false
    → result ≢ trial_ok
    → ((steps (link_down ok ∷ task_tried result ∷ []) b).connected ≡ false)
      × ((steps (link_down ok ∷ task_tried result ∷ []) b).advertising ≡ false)
      × ((steps (link_down ok ∷ task_tried result ∷ []) b).task ≡ no_task)
unfolding steps step commit_tried
lost b ssid password ok result t p a n = ground arith

-- If the phone's link goes down during the trial of its credentials (with the commit in progress
-- and the device not advertising), and the trial then fails, the device is neither connected nor
-- advertising, and none of a write, an event of the link or a step of the commit task can come any
-- more: before the phone can try again, the Bluetooth host has to be reset and to report that it is
-- in sync again, which is the only event left.
pub lost_during_trial :
    (b : Ble) (ssid password : Bytes) (ok : Bool) (result : Result) (e : Event)
    → b.task ≡ in_trial ssid password
    → b.commit_in_progress ≡ true
    → b.advertising ≡ false
    → result ≢ trial_ok
    → let b' = steps (link_down ok ∷ task_tried result ∷ []) b in
      (b'.connected ≡ false) × (b'.advertising ≡ false) × (CanCome e b' → IsHostSync e)
lost_during_trial b ssid password ok result e t p a n =
    let (c, v, k) = lost b ssid password ok result t p a n in
    (c, v, stranded (steps (link_down ok ∷ task_tried result ∷ []) b) c v k e)
