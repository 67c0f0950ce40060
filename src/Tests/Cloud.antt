-- ===== src/Tests/Cloud.antt =====
-- The cloud connection at concrete inputs.
use cything.Fifo.Lines.{init-IsValid}
use cything.Fifo.Contents.{contents, IsValid, push_lem}
use mathlib.Core.Option.{some-injective}
use cything.Prelude.{
  ◌*◌, length, ℕ, ◌+◌, ◌<◌, ◌≡◌, refl, ap, ◌∙◌, sym, arith, Bool, true, false, none, some, [], ◌∷◌,
  ◌++◌, ◌==◌, if◌then◌else◌, inl, inr, Bool-cases, replicate,
}
use cything.Prelude.Bytes.{codes}
use cything.Fifo
use cything.Events
use cything.Events.Queue.{pop-push-full}
use cything.Mqtt.{
  cleanup_all, Mqtt, CoreMqtt, empty_publish, Status, mqtt_success, puback, publish_to_topic,
  publish_at, free_index, cleanup_with_id,
}
use cything.Mqtt.Table.{waiting, IsTable}
use cything.Mqtt.Topics.{MqttIdentity, build_mqtt_identity, build_mqtt_identity-Apart}
use cything.Mqtt.Incoming.{Info, event_callback}
use cything.Mqtt.Sending.{publish_to_topic-waiting, publish_to_topic-puback}
use cything.Mqtt.Polling.{
  Run, done, fault, out_of_fuel, get_time, drain_responses, send_event, publish_event, ticks_since,
  callback, settled, process_loop, poll, process_loop_with_timeout, wait_for_packet_ack, ack_result,
}
use cything.Mqtt.Log.{on_topic}
use cything.Mqtt.Kept.{process_loop_with_timeout-IsTable}
use cything.Mqtt.Acks.{IsTimely, Ends, wait_for_packet_ack-Ends}
use cything.Mqtt.Delivery.{process_loop_with_timeout-log, drain_responses-lost}
use cything.Mqtt.Connecting.{
  Attempt, Link, tls_success, begin_session, connect_with_retries, connect_from, attempt, establish,
}
use cything.Mqtt.Connecting.Sessions.{
  start_session, connect_until, connected_with, start_session-empty,
}

-- A network whose state is its clock in milliseconds: everything is taken, a call of MQTT_ProcessLoop
-- takes a millisecond, and the acknowledgement of packet 7 comes in the third.
abbrev net : CoreMqtt ℕ
net = record {
  get_packet_id = λ w. (7, w);
  send_publish = λ p w. (true, w);
  subscribe = λ id topics w. (true, w);
  receive = λ w. (if w == 2 then some (puback 7) else none, w);
  settle = λ w. (mqtt_success, w + 1);
  clock = λ w. w;
  tick_count = λ w. w + 5000;
  ms_to_ticks = λ ms. ms;
  nvs_ok = λ w. true;
  app_command = λ view size w. ([], false);
}

-- The same network when the clock is about to wrap, and when nothing can be sent.
abbrev late_net : CoreMqtt ℕ
late_net = record net { clock = λ w. w + 4294967000 }

abbrev deaf_net : CoreMqtt ℕ
deaf_net = record net { send_publish = λ p w. (false, w) }

abbrev identity : MqttIdentity
identity = build_mqtt_identity (codes "home") (codes "lamp") (codes "1") (codes "iot")

abbrev info : ℕ → Info
info w = record {
  scan_command = codes "GET_INFO";
  scan_response = codes "INFO";
  source_terminal_id = codes "home";
  device_type = codes "lamp";
  device_id = codes "1";
  local_ip = [];
  ssid_b64 = [];
  hardware_version = codes "1";
  firmware_version = codes "2";
}

abbrev idle : Mqtt ℕ
idle = record {
  outgoing = replicate 5 empty_publish;
  ack_id = 0;
  subscribe_id = 7;
  suback_status = 0;
  connected = true;
  fifo = record { buf = 104 ∷ 105 ∷ []; len = 0 };
  period_ms = 1000;
  last_send_tick = 0;
  events = record { queue = codes "{}" ∷ []; flash = [] };
  pairing_last_send_tick = 0;
  response_id = 10;
  firmware_url = [];
  sent = [];
  world = 0;
}

idle-IsTable : IsTable idle.outgoing
idle-IsTable = record {
  size = refl;
  clean = ((λ e. refl), ((λ e. refl), ((λ e. refl), ((λ e. refl), ((λ e. refl), tt)))));
}

publish_to_topic-waiting_example :
    (waiting idle.outgoing ≡ 5 → publish_to_topic net [] [] idle ≡ (idle, false))
    × ((publish_to_topic net [] [] idle).1 ≡ true
        → (waiting idle.outgoing < 5)
          × (waiting (publish_to_topic net [] [] idle).0.outgoing ≡ waiting idle.outgoing + 1))
publish_to_topic-waiting_example = publish_to_topic-waiting net [] [] idle idle-IsTable (λ e. cc)

publish_to_topic-puback_example :
    cleanup_with_id 7 (publish_to_topic net (codes "t") (codes "hi") idle).0.outgoing
    ≡ idle.outgoing
unfolding publish_to_topic publish_at free_index
publish_to_topic-puback_example =
    publish_to_topic-puback net (codes "t") (codes "hi") idle idle-IsTable
      ((λ e. cc), ((λ e. cc), ((λ e. cc), ((λ e. cc), ((λ e. cc), tt))))) refl

abbrev end_world : Run (Mqtt ℕ × Status) → ℕ
end_world (done s) = s.0.world
end_world fault = 0
end_world out_of_fuel = 0

net-end_world : (m : Mqtt ℕ) → end_world (process_loop net identity info m) ≡ m.world + 1
unfolding process_loop callback settled event_callback
net-end_world m = elim (Bool-cases (m.world == 2)) [
  | inl h ↦ rw (process_loop, h) (omega arith)
  | inr h ↦ rw (process_loop, h) (omega arith)
]

-- A call takes one millisecond, with the acknowledgement or without it.
net-IsTimely : IsTimely net identity info (λ w. w * 1000000) 1 (λ m. m)
net-IsTimely = record {
  clock = λ w. omega arith;
  passes = λ m m' status e.
      let at : m'.world ≡ m.world + 1 = sym (ap end_world e) ∙ net-end_world m in
      (omega (arith, at), omega (arith, at));
}

wait_for_packet_ack-Ends_example :
    Ends (wait_for_packet_ack net identity info 5000000002 7 5000 idle)
unfolding get_time
wait_for_packet_ack-Ends_example =
    wait_for_packet_ack-Ends net identity info (λ w. w * 1000000) 1 5000000002 7 5000 idle
      net-IsTimely (omega arith) (omega arith) (inl (omega arith)) (omega arith)

-- The third call brings the acknowledgement.
acked : Run (Mqtt ℕ × Bool) → Bool
acked (done s) = s.1
acked fault = false
acked out_of_fuel = false

wait_for_packet_ack_runs : acked (wait_for_packet_ack net identity info 5002 7 5000 idle) ≡ true
unfolding acked wait_for_packet_ack ack_result poll get_time process_loop callback settled
    event_callback cleanup_with_id
wait_for_packet_ack_runs = refl

-- The event of the queue is published in the first round, within a timeout of two milliseconds.
abbrev end_state : Run (Mqtt ℕ × Status) → Mqtt ℕ
end_state (done s) = s.0
end_state fault = idle
end_state out_of_fuel = idle

abbrev served : Mqtt ℕ
served = end_state (process_loop_with_timeout net identity info 4 2 idle)

process_loop_with_timeout-log_example :
    on_topic identity.pairing_topic served.sent ++ served.events.queue ≡ codes "{}" ∷ []
unfolding process_loop_with_timeout poll get_time process_loop callback settled event_callback
    send_event drain_responses publish_event publish_to_topic publish_at free_index Events.peek
    Events.pop Fifo.is_empty ticks_since on_topic
process_loop_with_timeout-log_example =
    process_loop_with_timeout-log net identity info
      (build_mqtt_identity-Apart (codes "home") (codes "lamp") (codes "1") (codes "iot")) 4 2 idle
      served mqtt_success (omega arith, tt) refl

process_loop_with_timeout-IsTable_example : IsTable served.outgoing
unfolding process_loop_with_timeout poll get_time process_loop callback settled event_callback
    send_event drain_responses publish_event publish_to_topic publish_at free_index Events.peek
    Events.pop Fifo.is_empty ticks_since
process_loop_with_timeout-IsTable_example =
    process_loop_with_timeout-IsTable net identity info (λ w e. cc) 4 2 idle served mqtt_success
      idle-IsTable refl

process_loop_with_timeout_runs : served.events.queue ≡ []
unfolding process_loop_with_timeout poll get_time process_loop callback settled event_callback
    send_event drain_responses publish_event publish_to_topic publish_at free_index Events.peek
    Events.pop Fifo.is_empty ticks_since
process_loop_with_timeout_runs = refl

-- Two bytes wait in a FIFO of two.
abbrev filled : Mqtt ℕ
filled = record idle { fifo = (Fifo.push (codes "hi") Fifo.init).0 }

filled-IsValid : IsValid filled.fifo
filled-IsValid = (push_lem (codes "hi") Fifo.init init-IsValid).0

drain_responses-lost_example :
    (0 < length (contents filled.fifo))
    × (contents (drain_responses deaf_net identity info filled).fifo ≡ [])
    × ((drain_responses deaf_net identity info filled).sent ≡ filled.sent)
unfolding Fifo.is_empty Fifo.push Fifo.init Fifo.ends_line publish_to_topic publish_at free_index
    ticks_since
drain_responses-lost_example =
    drain_responses-lost deaf_net identity info filled filled-IsValid refl refl

-- Eight events wait.
abbrev eight : Events.Events
eight = record { queue = codes "a" ∷ codes "b" ∷ replicate 6 (codes "c"); flash = [] }

pop-push-full_example :
    (Events.pop true (Events.push (codes "enroll") (codes "bob") (codes "user") 1 true eight)).queue
    ≡ replicate 6 (codes "c")
      ++ (Events.event_json (codes "enroll") (codes "bob") (codes "user") 1 ∷ [])
pop-push-full_example =
    pop-push-full (codes "enroll") (codes "bob") (codes "user") 1 true eight (codes "a") (codes "b")
      (replicate 6 (codes "c")) true refl refl

-- A broker that takes every connection and has no session, and a publish that waits from before.
abbrev broker : Link ℕ ℕ
broker = record {
  tls_connect = λ w. (tls_success, w);
  tls_disconnect = λ w. w;
  mqtt_connect = λ clean w. (some false, w);
  sleep_ms = λ ms w. w;
  initial_backoff = 5;
  next_backoff = λ b w. (none, b);
}

abbrev waiting_one : Mqtt ℕ
waiting_one = record idle {
  outgoing =
      record { packet_id = 7; topic = codes "t"; payload = codes "hi"; dup = false }
      ∷ replicate 4 empty_publish;
}

start_session-empty_example :
    (idle.outgoing ≡ cleanup_all)
    × (idle.sent ≡ waiting_one.sent)
    × ((a : Attempt ℕ) × (connect_until net broker
            (λ (c w : ℕ). (0, c))
            0
            6
            1
            (record { success = true; broker_session = false; world = waiting_one.world })
          ≡ done a)
        × (idle.world ≡ a.world))
unfolding start_session begin_session connect_until connect_with_retries connect_from attempt
    establish connected_with
start_session-empty_example =
    start_session-empty net broker (λ (c w : ℕ). (0, c)) 0 identity info 6 1 waiting_one
      (record idle { subscribe_id = 0 }) true (λ w present e. some-injective present false (sym e))
      refl
