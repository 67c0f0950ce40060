-- ===== src/Mqtt/Kept.antt =====
-- The table of src/aws/aws_iot_handler.c through the callback and the loops over MQTT_ProcessLoop.
use mathlib.Core.Path.{subst}
use cything.Prelude.{
  ℕ, zero, suc, ◌-◌, ◌≡◌, ◌≢◌, ◌∙◌, refl, arith, Bool, true, false, ◌&&◌, not, Option, none, some,
  List, [], ◌∷◌, ◌++◌, ◌==◌, ltb, if◌then◌else◌, length, take, drop, Bool-cases, Option-cases, inl,
  inr,
}
use cything.Prelude.Bytes.{Bytes, codes, decimal, bytes_eq, has_prefix}
use cything.Prelude.Every.{Every}
use cything.Clients.{next_id}
use cything.Fifo
use cything.Events
use cything.WifiFlash.{c_string}
use cything.Mqtt.{
  Mqtt, CoreMqtt, Publish, Status, Packet, publish_packet, suback, unsuback, puback, pingresp,
  unknown_packet, mqtt_success, cleanup_with_id, publish_to_topic,
}
use cything.Mqtt.Topics.{MqttIdentity}
use cything.Mqtt.Table.{IsClean, IsTable}
use cything.Mqtt.Sending.{publish_to_topic-IsTable}
use cything.Mqtt.Incoming.{
  Info, get_info_command, update_fw_command, publish_response, publish_responses, app_command,
  handle_incoming_publish, event_callback,
}
use cything.Mqtt.Polling.{
  Run, done, fault, out_of_fuel, goes_on, get_time, is_due, drain_responses, publish_event,
  send_event, send_pending, callback, settled, process_loop, poll, process_loop_with_timeout,
  deadline_after,
}
use cything.Mqtt.Acks.{returns, faults, process_loop-Ends}

cleanup-length : (id : ℕ) (ps : List Publish) → length (cleanup_with_id id ps) ≡ length ps
unfolding cleanup_with_id
cleanup-length id [] = refl
cleanup-length id (p ∷ ps) = ground (arith, cleanup-length id ps)

cleanup-IsClean :
    (id : ℕ) (ps : List Publish) → Every IsClean ps → Every IsClean (cleanup_with_id id ps)
unfolding cleanup_with_id
cleanup-IsClean id [] c = tt
cleanup-IsClean id (p ∷ ps) c = elim (Bool-cases (p.packet_id == id)) [
  | inl h ↦ rw (cleanup_with_id, h) ((λ e. refl), c.1)
  | inr h ↦ rw (cleanup_with_id, h) (c.0, cleanup-IsClean id ps c.1)
]

cleanup-IsTable : (id : ℕ) (ps : List Publish) → IsTable ps → IsTable (cleanup_with_id id ps)
cleanup-IsTable id ps t = record {
  size = cleanup-length id ps ∙ t.size;
  clean = cleanup-IsClean id ps t.clean;
}

module _ {W : Type 0} (E : CoreMqtt W) (T : MqttIdentity) (info : W → Info)
    (ids : (w : W) → (E.get_packet_id w).0 ≢ 0) where
  abbrev Sound : Mqtt W → Type 0
  Sound m = IsTable m.outgoing

  publish-Sound :
      (topic payload : Bytes) (m : Mqtt W) → Sound m → Sound (publish_to_topic E topic payload m).0
  publish-Sound topic payload m t = publish_to_topic-IsTable E topic payload m t (ids m.world)

  Sound-if : (c : Bool) (a b : Mqtt W) → Sound a → Sound b → Sound (if c then a else b)
  Sound-if true a b h k = h
  Sound-if false a b h k = k

  drain_responses-Sound : (m : Mqtt W) → Sound m → Sound (drain_responses E T info m)
  unfolding drain_responses
  drain_responses-Sound m t =
      let drained = Fifo.drain Fifo.fifo_size m.fifo in
      let left = record m { fifo = drained.0 } in
      let sent = publish_to_topic E T.response_topic (c_string drained.1) left in
      let due = is_due E T info m.period_ms m.last_send_tick m && not (Fifo.is_empty m.fifo) in
      Sound-if (m.connected && due) (record sent.0 { last_send_tick = E.tick_count sent.0.world }) m
        (publish-Sound T.response_topic (c_string drained.1) left t) t

  publish_event-Sound : (row : Bytes) (m : Mqtt W) → Sound m → Sound (publish_event E T info row m)
  unfolding publish_event
  publish_event-Sound row m t = publish-Sound T.pairing_topic row m t

  send_event-Sound : (m : Mqtt W) → Sound m → Sound (send_event E T info m)
  unfolding send_event
  send_event-Sound m t = elim (Option-cases (Events.peek Events.event_json_max m.events)) [
    | inl none_waits ↦ rw (send_event, none_waits) t
    | inr (row, peeked) ↦
        let due = is_due E T info 1000 m.pairing_last_send_tick m in
        rw (send_event, peeked)
          (Sound-if (m.connected && due) (publish_event E T info row m) m
            (publish_event-Sound row m t) t)
  ]

  publish_responses-Sound :
      (texts : List Bytes) (m : Mqtt W) → Sound m → Sound (publish_responses E T info texts m)
  unfolding publish_responses publish_response
  publish_responses-Sound [] m t = t
  publish_responses-Sound (text ∷ texts) m t =
      let id = next_id m.response_id in
      publish_responses-Sound texts (publish_response E T info text m) (
        publish-Sound T.response_topic (take 255 (decimal id ++ (b':' ∷ text)))
          (record m { response_id = id }) t)

  -- What a handler leaves, if it does not fault.
  abbrev SoundBy : Option (Mqtt W) → Type 0
  SoundBy none = Unit
  SoundBy (some m) = Sound m

  SoundBy-if :
      (c : Bool) (a b : Option (Mqtt W)) → SoundBy a → SoundBy b → SoundBy (if c then a else b)
  SoundBy-if true a b h k = h
  SoundBy-if false a b h k = k

  get_info-Sound : (view : Bytes) (m : Mqtt W) → Sound m → Sound (get_info_command E T info view m)
  unfolding get_info_command
  get_info-Sound view m t = Sound-if _ _ m (publish-Sound T.get_info_response_topic _ m t) t

  update_fw-Sound :
      (view : Bytes) (size : ℕ) (m : Mqtt W)
      → Sound m
      → SoundBy (update_fw_command E T info view size m)
  unfolding update_fw_command
  update_fw-Sound view size m t =
      let url = record m { firmware_url = take (size - 12) (drop 12 view) } in
      let topic = T.update_fw_response_topic in
      let updating = some (publish_to_topic E topic (codes "updating:2\n") url).0 in
      let checked = if ltb size 12 then none else updating in
      let last = if has_prefix view (codes "updatingcomm") then checked else some m in
      let second = some (publish_to_topic E topic (codes "credentialres") m).0 in
      let first = some (publish_to_topic E topic (codes "startupdateres") m).0 in
      SoundBy-if (has_prefix view (codes "startupdatecomm")) first
        (if has_prefix view (codes "credentialcomm") then second else last)
        (publish-Sound topic (codes "startupdateres") m t)
        (SoundBy-if (has_prefix view (codes "credentialcomm")) second last
          (publish-Sound topic (codes "credentialres") m t)
          (SoundBy-if (has_prefix view (codes "updatingcomm")) checked (some m)
            (SoundBy-if (ltb size 12) none updating tt
              (publish-Sound topic (codes "updating:2\n") url t))
            t))

  callback-Sound : (p : Option Packet) (m : Mqtt W) → Sound m → SoundBy (callback E T info p m)
  unfolding callback event_callback handle_incoming_publish app_command
  callback-Sound none m t = t
  callback-Sound (some (publish_packet topic view size)) m t =
      let fw =
        if bytes_eq topic T.update_fw_command_topic
        then update_fw_command E T info view size m
        else some m in
      let scan =
        if bytes_eq topic T.get_info_command_topic
        then some (get_info_command E T info view m)
        else fw in
      SoundBy-if (bytes_eq topic T.command_topic) (some (app_command E T info view size m)) scan
        (publish_responses-Sound (E.app_command view size m.world).0 m t)
        (SoundBy-if (bytes_eq topic T.get_info_command_topic)
          (some (get_info_command E T info view m)) fw (get_info-Sound view m t)
          (SoundBy-if (bytes_eq topic T.update_fw_command_topic)
            (update_fw_command E T info view size m) (some m) (update_fw-Sound view size m t) t))
  callback-Sound (some (suback id code)) m t = t
  callback-Sound (some (unsuback id)) m t = t
  callback-Sound (some pingresp) m t = t
  callback-Sound (some (puback id)) m t = cleanup-IsTable id m.outgoing t
  callback-Sound (some (unknown_packet kind)) m t = t

  -- What a run leaves, if it returns.
  abbrev RunSound : Run (Mqtt W × Status) → Type 0
  RunSound (done r) = Sound r.0
  RunSound fault = Unit
  RunSound out_of_fuel = Unit

  settled-Sound : (o : Option (Mqtt W)) → SoundBy o → RunSound (settled E T info o)
  unfolding settled
  settled-Sound none t = tt
  settled-Sound (some m) t = t

  process_loop-Sound : (m : Mqtt W) → Sound m → RunSound (process_loop E T info m)
  unfolding process_loop
  process_loop-Sound m t =
      let r = E.receive m.world in
      let called = record m { world = r.1 } in
      settled-Sound (callback E T info r.0 called) (callback-Sound r.0 called t)

  poll-Sound :
      (fuel deadline : ℕ) (s : Mqtt W × Status)
      → Sound s.0
      → RunSound (poll E T info (λ s. goes_on s.1) (send_pending E T info) fuel deadline s)
  unfolding poll
  poll-Sound zero deadline s t = tt
  poll-Sound (suc fuel) deadline s t =
      elim (Bool-cases (ltb (get_time E T info s.0) deadline && goes_on s.1)) [
        | inr stop ↦ rw (poll, stop) t
        | inl more ↦ elim (process_loop-Ends E T info (send_pending E T info s.0)) [
          | faults e ↦ rw (poll, more, e) tt
          | returns s' e ↦
              let sent = send_pending E T info s.0 in
              let sound =
                send_event-Sound (drain_responses E T info s.0) (drain_responses-Sound s.0 t) in
              rw (poll, more, e)
                (poll-Sound fuel deadline s' (subst RunSound e (process_loop-Sound sent sound)))
        ]
      ]

  -- If coreMQTT never gives the packet id 0, the table of outgoing publishes stays sound however long
  -- processLoopWithTimeout sends, receives commands and answers them, and takes acknowledgements: it
  -- keeps its five slots, and a slot without a packet id is empty.
  pub process_loop_with_timeout-IsTable :
      (fuel timeout : ℕ) (m m' : Mqtt W) (status : Status)
      → IsTable m.outgoing
      → process_loop_with_timeout E T info fuel timeout m ≡ done (m', status)
      → IsTable m'.outgoing
  unfolding process_loop_with_timeout
  process_loop_with_timeout-IsTable fuel timeout m m' status t e =
      subst RunSound e (poll-Sound fuel (deadline_after E T info timeout m) (m, mqtt_success) t)
