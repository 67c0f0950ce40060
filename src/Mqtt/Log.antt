-- ===== src/Mqtt/Log.antt =====
-- What publishToTopic of src/aws/aws_iot_handler.c does to the pairing events that are published and
-- to those that wait.
use mathlib.Core.Path.{subst}
use cything.Prelude.{
  ◌≡◌, ◌≢◌, refl, ap, ◌∙◌, arith, Bool, true, false, List, [], ◌∷◌, ◌++◌, append_assoc,
  if◌then◌else◌, Bool-cases, inl, inr, Option-cases,
}
use cything.Prelude.Bytes.{Bytes, bytes_eq, bytes_eq_iff, bytes_eq_refl}
use cything.Events
use cything.Mqtt.{Mqtt, CoreMqtt, free_index, filled_slot, publish_at, publish_to_topic}
use cything.Mqtt.Topics.{MqttIdentity}
use cything.Mqtt.Incoming.{Info}
use cything.Mqtt.Polling
use cything.Mqtt.Polling.{
  is_due, get_time, Run, done, fault, out_of_fuel, drain_responses, send_event, callback, settled,
  process_loop, poll, send_pending, process_loop_with_timeout, deadline_after, goes_on,
}
use cything.Events.Queue.{Fits, pop-queue}

-- The payloads that were published on a topic, in order.
unfoldable pub on_topic : Bytes → List (Bytes × Bytes) → List Bytes
on_topic topic [] = []
on_topic topic (p ∷ ps) =
    let rest = on_topic topic ps in if bytes_eq p.0 topic then p.1 ∷ rest else rest

on_topic-append :
    (topic : Bytes) (ps qs : List (Bytes × Bytes))
    → on_topic topic (ps ++ qs) ≡ on_topic topic ps ++ on_topic topic qs
unfolding on_topic
on_topic-append topic [] qs = refl
on_topic-append topic (p ∷ ps) qs = elim (Bool-cases (bytes_eq p.0 topic)) [
  | inl h ↦ rw (on_topic, h, on_topic-append topic ps qs) refl
  | inr h ↦ rw (on_topic, h, on_topic-append topic ps qs) refl
]

-- What was logged before, a publish on another topic does not change.
on_topic-other :
    (topic other payload : Bytes) (ps : List (Bytes × Bytes))
    → other ≢ topic
    → on_topic topic (ps ++ ((other, payload) ∷ [])) ≡ on_topic topic ps
unfolding on_topic
on_topic-other topic other payload [] n = ground (arith, n, bytes_eq_iff other topic)
on_topic-other topic other payload (p ∷ ps) n =
    ground (arith, on_topic-other topic other payload ps n)

on_topic-same :
    (topic payload : Bytes) (ps : List (Bytes × Bytes))
    → on_topic topic (ps ++ ((topic, payload) ∷ [])) ≡ on_topic topic ps ++ (payload ∷ [])
unfolding on_topic
on_topic-same topic payload [] = ground (arith, bytes_eq_refl topic)
on_topic-same topic payload (p ∷ ps) = ground (arith, on_topic-same topic payload ps)

module _ {W : Type 0} (E : CoreMqtt W) (pairing : Bytes) where
  -- The events that coreMQTT has taken, and those that wait.
  abbrev pub event_log : Mqtt W → List Bytes
  event_log m = on_topic pairing m.sent ++ m.events.queue

  -- What a step keeps of the events: the log, and that the rows that wait fit.
  pub record KeepsLog (m m' : Mqtt W) : Type 0 where
    pub log : event_log m' ≡ event_log m
    pub fits : Fits m.events.queue → Fits m'.events.queue

  pub KeepsLog-trans : (a b c : Mqtt W) → KeepsLog a b → KeepsLog b c → KeepsLog a c
  KeepsLog-trans a b c h k = record { log = k.log ∙ h.log; fits = λ f. k.fits (h.fits f) }

  -- What a publish can do to the log of publishes and to the events.
  pub data Effect (topic payload : Bytes) (m : Mqtt W) (r : Mqtt W × Bool) : Type 0 where
    took :
        r.1 ≡ true
        → r.0.sent ≡ m.sent ++ ((topic, payload) ∷ [])
        → r.0.events ≡ m.events
        → Effect topic payload m r
    took_not :
        r.1 ≡ false
        → r.0.sent ≡ m.sent
        → r.0.events ≡ m.events
        → r.0.fifo ≡ m.fifo
        → Effect topic payload m r

  pub publish-Effect :
      (topic payload : Bytes) (m : Mqtt W)
      → Effect topic payload m (publish_to_topic E topic payload m)
  unfolding publish_to_topic publish_at
  publish-Effect topic payload m = elim (Option-cases (free_index m.outgoing)) [
    | inl full ↦ rw (publish_to_topic, full) (took_not refl refl refl refl)
    | inr (i, free) ↦
        let id = E.get_packet_id m.world in
        elim (Bool-cases (E.send_publish (filled_slot id.0 topic payload) id.1).0) [
          | inl sent ↦ rw (publish_to_topic, free, publish_at, sent) (took refl refl refl)
          | inr kept ↦ rw (publish_to_topic, free, publish_at, kept) (took_not refl refl refl refl)
        ]
  ]

  pub publish-other :
      (topic payload : Bytes) (m : Mqtt W)
      → topic ≢ pairing
      → KeepsLog m (publish_to_topic E topic payload m).0
  publish-other topic payload m n = elim (publish-Effect topic payload m) [
    | took yes_sent s ev ↦ record {
      log =
          rw (s, ev)
            (ap (λ l. l ++ m.events.queue) (on_topic-other pairing topic payload m.sent n));
      fits = λ f. rw ev f;
    }
    | took_not not_sent s ev ff ↦ record { log = rw (s, ev) refl; fits = λ f. rw ev f }
  ]

  pub publish_event-log :
      (T : MqttIdentity) (info : W → Info) (row : Bytes) (rest : List Bytes) (m : Mqtt W)
      → T.pairing_topic ≡ pairing
      → m.events.queue ≡ row ∷ rest
      → KeepsLog m (Polling.publish_event E T info row m)
  unfolding Polling.publish_event
  publish_event-log T info row rest m e q = elim (publish-Effect T.pairing_topic row m) [
    | took yes_sent s ev ↦
        let popped : (ok : Bool) → (Events.pop ok m.events).queue ≡ rest =
          λ ok. pop-queue ok m.events row rest q in
        record {
          log =
              rw (yes_sent, s, ev, popped, q, e, on_topic-same pairing row m.sent)
                (append_assoc (on_topic pairing m.sent) (row ∷ []) rest);
          fits = λ f. rw (yes_sent, ev, popped) (subst Fits q f).1;
        }
    | took_not not_sent s ev ff ↦ record {
      log = rw (not_sent, s, ev) refl;
      fits = λ f. rw (not_sent, ev) f;
    }
  ]
