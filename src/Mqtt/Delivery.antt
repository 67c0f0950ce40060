-- ===== src/Mqtt/Delivery.antt =====
-- The way of pairing events and of responses to the cloud: drain_responses, send_event and the loop
-- processLoopWithTimeout of src/aws/aws_iot_handler.c.
use mathlib.Core.Path.{subst}
use cything.Prelude.{
  ℕ, zero, suc, ◌≡◌, ◌≢◌, refl, Bool, true, false, ◌&&◌, not, Option, none, some, List, [], ◌∷◌,
  ◌++◌, ◌<◌, arith, length, if◌then◌else◌, take, Bool-cases, inl, inr, Option-cases,
}
use cything.Prelude.Bytes.{Bytes, bytes_eq}
use cything.Fifo
use cything.Events
use cything.Fifo.Contents.{contents, IsValid}
use cything.Fifo.Lines.{length-contents, drain-none}
use cything.Clients.{next_id}
use cything.Prelude.Bytes.{codes, decimal}
use cything.WifiFlash.{c_string}
use cything.Prelude.{drop, ◌-◌, ltb}
use cything.Mqtt.{
  Mqtt, CoreMqtt, Status, Packet, publish_packet, suback, unsuback, puback, pingresp,
  unknown_packet, mqtt_success, publish_to_topic,
}
use cything.Mqtt.Topics.{MqttIdentity, Apart, all_topics}
use cything.Mqtt.Incoming.{
  Info, get_info_command, update_fw_command, publish_response, publish_responses, app_command,
  handle_incoming_publish, event_callback,
}
use cything.Mqtt.Acks.{returns, faults, process_loop-Ends}
use cything.Prelude.Bytes.{has_prefix}
use cything.Mqtt.Polling.{
  is_due, get_time, Run, done, fault, out_of_fuel, drain_responses, send_event, callback, settled,
  process_loop, poll, send_pending, process_loop_with_timeout, deadline_after, goes_on,
}
use cything.Events.Queue.{Fits, peek-some}
use cything.Mqtt.Log.{
  took, took_not, on_topic, KeepsLog, KeepsLog-trans, publish-Effect, publish-other,
  publish_event-log,
}

module _ {W : Type 0} (E : CoreMqtt W) (T : MqttIdentity) (info : W → Info)
    (apart : Apart (all_topics T)) where
  abbrev Keeps : Mqtt W → Mqtt W → Type 0
  Keeps m m' = KeepsLog E T.pairing_topic m m'

  response-other : T.response_topic ≢ T.pairing_topic
  response-other = apart.1.1.1.0.1.1.0

  get_info-other : T.get_info_response_topic ≢ T.pairing_topic
  get_info-other = apart.1.1.1.1.0.1.0

  update_fw-other : T.update_fw_response_topic ≢ T.pairing_topic
  update_fw-other = apart.1.1.1.1.1.0.0

  Keeps-refl : (m : Mqtt W) → Keeps m m
  Keeps-refl m = record { log = refl; fits = λ f. f }

  Keeps-if : (c : Bool) (m a b : Mqtt W) → Keeps m a → Keeps m b → Keeps m (if c then a else b)
  Keeps-if true m a b h k = h
  Keeps-if false m a b h k = k

  drain_responses-log : (m : Mqtt W) → Keeps m (drain_responses E T info m)
  unfolding drain_responses
  drain_responses-log m =
      let drained = Fifo.drain Fifo.fifo_size m.fifo in
      let left = record m { fifo = drained.0 } in
      let sent = publish_to_topic E T.response_topic (c_string drained.1) left in
      let due = is_due E T info m.period_ms m.last_send_tick m && not (Fifo.is_empty m.fifo) in
      let k =
        publish-other E T.pairing_topic T.response_topic (c_string drained.1) left response-other in
      Keeps-if (m.connected && due) m (record sent.0 { last_send_tick = E.tick_count sent.0.world })
        m (record { log = k.log; fits = k.fits }) (Keeps-refl m)

  send_event-log : (m : Mqtt W) → Fits m.events.queue → Keeps m (send_event E T info m)
  unfolding send_event
  send_event-log m fits = elim (Option-cases (Events.peek Events.event_json_max m.events)) [
    | inl none_waits ↦ rw (send_event, none_waits) (Keeps-refl m)
    | inr (row, peeked) ↦
        let (rest, q) = peek-some m.events row fits peeked in
        rw (send_event, peeked)
          (Keeps-if _ m _ m (publish_event-log E T.pairing_topic T info row rest m refl q)
            (Keeps-refl m))
  ]

  get_info-log : (view : Bytes) (m : Mqtt W) → Keeps m (get_info_command E T info view m)
  unfolding get_info_command
  get_info-log view m =
      Keeps-if _ m _ m
        (publish-other E T.pairing_topic T.get_info_response_topic _ m get_info-other)
        (Keeps-refl m)

  publish_responses-log :
      (texts : List Bytes) (m : Mqtt W) → Keeps m (publish_responses E T info texts m)
  unfolding publish_responses publish_response
  publish_responses-log [] m = Keeps-refl m
  publish_responses-log (text ∷ texts) m =
      let id = next_id m.response_id in
      let line = take 255 (decimal id ++ (b':' ∷ text)) in
      let k =
        publish-other E T.pairing_topic T.response_topic line (record m { response_id = id })
          response-other in
      KeepsLog-trans E T.pairing_topic m _ _ (record { log = k.log; fits = k.fits })
        (publish_responses-log texts (publish_response E T info text m))

  -- What a handler keeps, if it does not fault.
  abbrev KeptBy : Mqtt W → Option (Mqtt W) → Type 0
  KeptBy m none = Unit
  KeptBy m (some m') = Keeps m m'

  KeptBy-if :
      (c : Bool) (m : Mqtt W) (a b : Option (Mqtt W))
      → KeptBy m a
      → KeptBy m b
      → KeptBy m (if c then a else b)
  KeptBy-if true m a b h k = h
  KeptBy-if false m a b h k = k

  update_fw-log :
      (view : Bytes) (size : ℕ) (m : Mqtt W) → KeptBy m (update_fw_command E T info view size m)
  unfolding update_fw_command
  update_fw-log view size m =
      let url = record m { firmware_url = take (size - 12) (drop 12 view) } in
      let k =
        publish-other E T.pairing_topic T.update_fw_response_topic (codes "updating:2\n") url
          update_fw-other in
      let topic = T.update_fw_response_topic in
      let reply = λ (text : Bytes). publish-other E T.pairing_topic topic text m update_fw-other in
      let updating = some (publish_to_topic E topic (codes "updating:2\n") url).0 in
      let checked = if ltb size 12 then none else updating in
      let last = if has_prefix view (codes "updatingcomm") then checked else some m in
      let second = some (publish_to_topic E topic (codes "credentialres") m).0 in
      let first = some (publish_to_topic E topic (codes "startupdateres") m).0 in
      KeptBy-if (has_prefix view (codes "startupdatecomm")) m first
        (if has_prefix view (codes "credentialcomm") then second else last)
        (reply (codes "startupdateres"))
        (KeptBy-if (has_prefix view (codes "credentialcomm")) m second last
          (reply (codes "credentialres"))
          (KeptBy-if (has_prefix view (codes "updatingcomm")) m checked (some m)
            (KeptBy-if (ltb size 12) m none updating tt (record { log = k.log; fits = k.fits }))
            (Keeps-refl m)))

  callback-log : (p : Option Packet) (m : Mqtt W) → KeptBy m (callback E T info p m)
  unfolding callback event_callback handle_incoming_publish app_command
  callback-log none m = Keeps-refl m
  callback-log (some (publish_packet topic view size)) m =
      let fw =
        if bytes_eq topic T.update_fw_command_topic
        then update_fw_command E T info view size m
        else some m in
      let scan =
        if bytes_eq topic T.get_info_command_topic
        then some (get_info_command E T info view m)
        else fw in
      KeptBy-if (bytes_eq topic T.command_topic) m (some (app_command E T info view size m)) scan
        (publish_responses-log (E.app_command view size m.world).0 m)
        (KeptBy-if (bytes_eq topic T.get_info_command_topic) m
          (some (get_info_command E T info view m)) fw (get_info-log view m)
          (KeptBy-if (bytes_eq topic T.update_fw_command_topic) m
            (update_fw_command E T info view size m) (some m) (update_fw-log view size m)
            (Keeps-refl m)))
  callback-log (some (suback id code)) m = record { log = refl; fits = λ f. f }
  callback-log (some (unsuback id)) m = record { log = refl; fits = λ f. f }
  callback-log (some pingresp) m = Keeps-refl m
  callback-log (some (puback id)) m = record { log = refl; fits = λ f. f }
  callback-log (some (unknown_packet kind)) m = Keeps-refl m

  -- What a run keeps, if it returns.
  abbrev pub RunKeeps : Mqtt W → Run (Mqtt W × Status) → Type 0
  RunKeeps m (done r) = Keeps m r.0
  RunKeeps m fault = Unit
  RunKeeps m out_of_fuel = Unit

  KeptBy-trans : (a b : Mqtt W) (o : Option (Mqtt W)) → Keeps a b → KeptBy b o → KeptBy a o
  KeptBy-trans a b none h k = tt
  KeptBy-trans a b (some c) h k = KeepsLog-trans E T.pairing_topic a b c h k

  settled-log : (m : Mqtt W) (o : Option (Mqtt W)) → KeptBy m o → RunKeeps m (settled E T info o)
  unfolding settled
  settled-log m none k = tt
  settled-log m (some m') k = record { log = k.log; fits = k.fits }

  process_loop-log : (m : Mqtt W) → RunKeeps m (process_loop E T info m)
  unfolding process_loop
  process_loop-log m =
      let r = E.receive m.world in
      let called = record m { world = r.1 } in
      settled-log m (callback E T info r.0 called) (
        KeptBy-trans m called (callback E T info r.0 called) (record { log = refl; fits = λ f. f })
          (callback-log r.0 called))

  RunKeeps-trans :
      (a b : Mqtt W) (r : Run (Mqtt W × Status)) → Keeps a b → RunKeeps b r → RunKeeps a r
  RunKeeps-trans a b (done s) h k = KeepsLog-trans E T.pairing_topic a b s.0 h k
  RunKeeps-trans a b fault h k = tt
  RunKeeps-trans a b out_of_fuel h k = tt

  poll-log :
      (fuel deadline : ℕ) (s : Mqtt W × Status)
      → Fits s.0.events.queue
      → RunKeeps s.0 (poll E T info (λ s. goes_on s.1) (send_pending E T info) fuel deadline s)
  unfolding poll
  poll-log zero deadline s fits = tt
  poll-log (suc fuel) deadline s fits =
      elim (Bool-cases (ltb (get_time E T info s.0) deadline && goes_on s.1)) [
        | inr stop ↦ rw (poll, stop) (Keeps-refl s.0)
        | inl more ↦ elim (process_loop-Ends E T info (send_pending E T info s.0)) [
          | faults e ↦ rw (poll, more, e) tt
          | returns s' e ↦
              let drained = drain_responses E T info s.0 in
              let emptied = drain_responses-log s.0 in
              let sent = send_event E T info drained in
              let pending : Keeps s.0 sent =
                KeepsLog-trans E T.pairing_topic s.0 drained sent emptied
                  (send_event-log drained (emptied.fits fits)) in
              let looped : Keeps sent s'.0 = subst (RunKeeps sent) e (process_loop-log sent) in
              let both : Keeps s.0 s'.0 =
                KeepsLog-trans E T.pairing_topic s.0 sent s'.0 pending looped in
              rw (poll, more, e)
                (RunKeeps-trans s.0 s'.0 _ both (poll-log fuel deadline s' (both.fits fits)))
        ]
      ]

  -- However processLoopWithTimeout returns, the pairing events that were published before and in it
  -- and those that still wait are together, and in order, the events that were published or waited
  -- before: none is lost, doubled or overtaken on the way from the queue to coreMQTT, even if a
  -- publish fails, as long as no other task touches the queue in the meantime.
  pub process_loop_with_timeout-log :
      (fuel timeout : ℕ) (m m' : Mqtt W) (status : Status)
      → Fits m.events.queue
      → process_loop_with_timeout E T info fuel timeout m ≡ done (m', status)
      → on_topic T.pairing_topic m'.sent ++ m'.events.queue
        ≡ on_topic T.pairing_topic m.sent ++ m.events.queue
  unfolding process_loop_with_timeout
  process_loop_with_timeout-log fuel timeout m m' status fits e =
      let kept : Keeps m m' =
        subst (RunKeeps m) e
          (poll-log fuel (deadline_after E T info timeout m) (m, mqtt_success) fits) in
      kept.log

module _ {W : Type 0} (E : CoreMqtt W) (T : MqttIdentity) (info : W → Info) where
  due-waits :
      (m : Mqtt W)
      → IsValid m.fifo
      → m.connected
          && (is_due E T info m.period_ms m.last_send_tick m && not (Fifo.is_empty m.fifo))
        ≡ true
      → 0 < length (contents m.fifo)
  unfolding Fifo.is_empty
  due-waits m v due = ground (arith, length-contents m.fifo v, due)

  -- When a drain of the response FIFO is due and its publish fails, because five publishes wait for
  -- their acknowledgement or coreMQTT does not take it, the bytes that waited in the valid FIFO are
  -- gone: there were some, the FIFO holds none any more, and nothing was published.
  pub drain_responses-lost :
      (m : Mqtt W)
      → IsValid m.fifo
      → m.connected
          && (is_due E T info m.period_ms m.last_send_tick m && not (Fifo.is_empty m.fifo))
        ≡ true
      → (publish_to_topic E T.response_topic
          (c_string (Fifo.drain Fifo.fifo_size m.fifo).1)
          (record m { fifo = (Fifo.drain Fifo.fifo_size m.fifo).0 })).1
        ≡ false
      → (0 < length (contents m.fifo))
        × (contents (drain_responses E T info m).fifo ≡ [])
        × ((drain_responses E T info m).sent ≡ m.sent)
  unfolding drain_responses
  drain_responses-lost m v due failed =
      let drained = Fifo.drain Fifo.fifo_size m.fifo in
      let left = record m { fifo = drained.0 } in
      elim (publish-Effect E T.pairing_topic T.response_topic (c_string drained.1) left) [
        | took sent s ev ↦ cc
        | took_not not_sent s ev ff ↦
            rw (drain_responses, due, s, ff) (due-waits m v due, drain-none m.fifo v, refl)
      ]
