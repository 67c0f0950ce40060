-- ===== src/Mqtt/Polling.antt =====
-- The loops of src/aws/aws_iot_handler.c over `MQTT_ProcessLoop`: processLoopWithTimeout with what it
-- sends in each round, and waitForPacketAck. `none` is a fault in a handler or the end of the fuel.
use cything.Prelude.{
  zero, Option, ◌==◌, ℕ, ◌+◌, ◌-◌, ◌%◌, Bool, true, false, ◌&&◌, not, none, some, ltb, leb,
  if◌then◌else◌,
}
use cything.Prelude.Bytes.{Bytes}
use cything.WifiFlash.{c_string}
use cything.Fifo
use cything.Events
use cything.Mqtt.{
  Packet, Option, suc, Mqtt, CoreMqtt, Status, mqtt_success, need_more_bytes, recv_failed,
  other_failure, publish_to_topic,
}
use cything.Mqtt.Topics.{MqttIdentity}
use cything.Mqtt.Incoming.{event_callback, Info}

-- A run of a handler or of a loop.
pub data Run (A : Type 0) : Type 0 where
  done : A → Run A
  fault : Run A
  out_of_fuel : Run A

-- Whether the loops go on after this status.
abbrev pub goes_on : Status → Bool
goes_on mqtt_success = true
goes_on need_more_bytes = true
goes_on recv_failed = false
goes_on (other_failure code) = false

abbrev pub word32 : ℕ
word32 = 4294967296

-- The difference of two tick counts, as unsigned numbers of 32 bits.
unfoldable pub ticks_since : ℕ → ℕ → ℕ
ticks_since now last = (now + (word32 - last)) % word32

-- `mqtt_response_set_period_ms`, with MQTT_RESPONSE_PERIOD_MS_MIN and _MAX.
unfoldable pub set_period_ms : ℕ → ℕ
set_period_ms period =
    let low = (if ltb period 100 then 100 else period) in if ltb 3600000 low then 3600000 else low

module _ {W : Type 0} (E : CoreMqtt W) (T : MqttIdentity) (info : W → Info) where
  -- `pMqttContext->getTime()`.
  unfoldable pub get_time : Mqtt W → ℕ
  get_time m = E.clock m.world % word32

  -- Whether that many milliseconds have passed since a tick.
  abbrev pub is_due : ℕ → ℕ → Mqtt W → Bool
  is_due ms last m = leb (E.ms_to_ticks ms) (ticks_since (E.tick_count m.world) last)

  -- The drain of the responses. `publishToTopic` takes the staged bytes for a C string.
  unfoldable pub drain_responses : Mqtt W → Mqtt W
  unfolding ticks_since Fifo.is_empty Fifo.drain publish_to_topic c_string
  drain_responses m =
      let drained = Fifo.drain Fifo.fifo_size m.fifo in
      let sent =
        publish_to_topic E T.response_topic (c_string drained.1) (record m { fifo = drained.0 }) in
      if m.connected && (is_due m.period_ms m.last_send_tick m && not (Fifo.is_empty m.fifo))
      then record sent.0 { last_send_tick = E.tick_count sent.0.world }
      else m

  -- The publish of an event, and its removal once coreMQTT has taken it.
  unfoldable pub publish_event : Bytes → Mqtt W → Mqtt W
  unfolding publish_to_topic Events.pop
  publish_event row m =
      let sent = publish_to_topic E T.pairing_topic row m in
      let m' = sent.0 in
      let events = (if sent.1 then Events.pop (E.nvs_ok m'.world) m'.events else m'.events) in
      record m' { events = events; pairing_last_send_tick = E.tick_count m'.world }

  unfoldable pub send_event : Mqtt W → Mqtt W
  unfolding ticks_since Events.peek publish_event
  send_event m = elim (Events.peek Events.event_json_max m.events) [
    | none ↦ m
    | some row ↦
        if m.connected && is_due 1000 m.pairing_last_send_tick m then publish_event row m else m
  ]

  -- The callback, if the call of `MQTT_ProcessLoop` received a packet.
  unfoldable pub callback : Option Packet → Mqtt W → Option (Mqtt W)
  unfolding event_callback
  callback none m = some m
  callback (some p) m = event_callback E T info p m

  unfoldable pub settled : Option (Mqtt W) → Run (Mqtt W × Status)
  settled none = fault
  settled (some m) = let s = E.settle m.world in done (record m { world = s.1 }, s.0)

  -- One call of `MQTT_ProcessLoop`.
  unfoldable pub process_loop : Mqtt W → Run (Mqtt W × Status)
  unfolding callback settled
  process_loop m = let r = E.receive m.world in settled (callback r.0 (record m { world = r.1 }))

  -- The two loops. The time at which a loop starts gives its deadline, as a number of 32 bits.
  unfoldable pub poll :
      (Mqtt W × Status → Bool) → (Mqtt W → Mqtt W) → ℕ → ℕ → Mqtt W × Status → Run (Mqtt W × Status)
  unfolding process_loop get_time
  poll test before zero deadline s = out_of_fuel
  poll test before (suc fuel) deadline s = elim (ltb (get_time s.0) deadline && test s) [
    | false ↦ done s
    | true ↦ elim (process_loop (before s.0)) [
      | done s' ↦ poll test before fuel deadline s'
      | fault ↦ fault
      | out_of_fuel ↦ out_of_fuel
    ]
  ]

  abbrev pub deadline_after : ℕ → Mqtt W → ℕ
  deadline_after timeout m = (get_time m + timeout) % word32

  abbrev pub send_pending : Mqtt W → Mqtt W
  send_pending m = send_event (drain_responses m)

  -- `processLoopWithTimeout`.
  unfoldable pub process_loop_with_timeout : ℕ → ℕ → Mqtt W → Run (Mqtt W × Status)
  unfolding poll get_time send_event drain_responses
  process_loop_with_timeout fuel timeout m =
      poll (λ s. goes_on s.1) send_pending fuel (deadline_after timeout m) (m, mqtt_success)

  abbrev pub awaits : ℕ → Mqtt W × Status → Bool
  awaits id s = not (s.0.ack_id == id) && goes_on s.1

  unfoldable pub ack_result : ℕ → Run (Mqtt W × Status) → Run (Mqtt W × Bool)
  ack_result id (done s) = done (s.0, goes_on s.1 && (s.0.ack_id == id))
  ack_result id fault = fault
  ack_result id out_of_fuel = out_of_fuel

  -- `waitForPacketAck`: whether it returned EXIT_SUCCESS.
  unfoldable pub wait_for_packet_ack : ℕ → ℕ → ℕ → Mqtt W → Run (Mqtt W × Bool)
  unfolding poll get_time ack_result
  wait_for_packet_ack fuel id timeout m = ack_result id (
      poll (awaits id) (λ m. m) fuel (deadline_after timeout m)
        (record m { ack_id = 0 }, mqtt_success))
