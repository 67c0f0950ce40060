-- ===== src/Mqtt/Sending.antt =====
-- publishToTopic of src/aws/aws_iot_handler.c.
use cything.Prelude.{
  ◌<◌, ℕ, ◌+◌, ◌≡◌, ◌≢◌, refl, arith, Bool, true, false, some, [], ◌∷◌, ◌++◌, length, set,
  Bool-cases, Option-cases, inl, inr, length-set, ◌∙◌, ap,
}
use cything.Prelude.Bytes.{Bytes}
use cything.Prelude.Every.{Every-set}
use cything.Mqtt.{
  Mqtt, CoreMqtt, free_index, cleanup_with_id, filled_slot, publish_at, publish_to_topic,
}
use cything.Mqtt.Table.{
  IsClean, IsTable, Absent, waiting, free_index-none, free_index-some, free_index-lt,
  cleanup_at-set, cleanup_with_id-set,
}

module _ {W : Type 0} (E : CoreMqtt W) (topic payload : Bytes) (m : Mqtt W) where
  -- The result, if the publish was taken in slot `i`.
  abbrev pub taken : ℕ → Mqtt W
  taken i =
      let id = E.get_packet_id m.world in
      record m {
        outgoing = set m.outgoing i (filled_slot id.0 topic payload);
        world = (E.send_publish (filled_slot id.0 topic payload) id.1).1;
        sent = m.sent ++ ((topic, payload) ∷ []);
      }

  -- The ways in which a publish can go.
  pub data Outcome (r : Mqtt W × Bool) : Type 0 where
    refused : waiting m.outgoing ≡ length m.outgoing → r ≡ (m, false) → Outcome r
    not_sent :
        (w : W) (i : ℕ)
        → free_index m.outgoing ≡ some i
        → r ≡ (record m { world = w }, false)
        → Outcome r
    was_taken : (i : ℕ) → free_index m.outgoing ≡ some i → r ≡ (taken i, true) → Outcome r

  pub publish_to_topic_cases : IsTable m.outgoing → Outcome (publish_to_topic E topic payload m)
  unfolding publish_to_topic publish_at
  publish_to_topic_cases t = elim (Option-cases (free_index m.outgoing)) [
    | inl full ↦ refused (free_index-none m.outgoing full) (rw (publish_to_topic, full) refl)
    | inr (i, free) ↦
        let id = E.get_packet_id m.world in
        let slot = filled_slot id.0 topic payload in
        elim (Bool-cases (E.send_publish slot id.1).0) [
          | inl sent ↦ was_taken i free (rw (publish_to_topic, free, publish_at, sent) refl)
          | inr kept ↦ not_sent (E.send_publish slot id.1).1 i free (
              rw
                (
                  publish_to_topic,
                  free,
                  publish_at,
                  kept,
                  cleanup_at-set m.outgoing i slot free t.clean,
                )
                refl)
        ]
  ]

  -- A publish that is not reported as sent leaves no trace: it changes nothing but the state of
  -- coreMQTT, in particular not the table of publishes that wait for an acknowledgement.
  pub publish_to_topic_failed :
      IsTable m.outgoing
      → (publish_to_topic E topic payload m).1 ≡ false
      → (w : W) × ((publish_to_topic E topic payload m).0 ≡ record m { world = w })
  publish_to_topic_failed t failed = elim (publish_to_topic_cases t) [
    | refused full e ↦ (m.world, ap (λ r. r.0) e)
    | not_sent w i free e ↦ (w, ap (λ r. r.0) e)
    | was_taken i free e ↦ cc
  ]

  -- With a packet id that coreMQTT gives, which is not 0, a publish is refused without a call when all
  -- five slots wait for an acknowledgement, and one that is taken makes one slot more wait, so that
  -- at most five publishes ever wait.
  pub publish_to_topic-waiting :
      IsTable m.outgoing
      → (E.get_packet_id m.world).0 ≢ 0
      → (waiting m.outgoing ≡ 5 → publish_to_topic E topic payload m ≡ (m, false))
        × ((publish_to_topic E topic payload m).1 ≡ true
            → (waiting m.outgoing < 5)
              × (waiting (publish_to_topic E topic payload m).0.outgoing ≡ waiting m.outgoing + 1))
  publish_to_topic-waiting t n = elim (publish_to_topic_cases t) [
    | refused full e ↦ (λ _. e, λ sent. cc)
    | not_sent w i free e ↦
        ((λ five. absurd (omega (arith, t.size, free_index-lt m.outgoing i free))), λ sent. cc)
    | was_taken i free e ↦
        let slot = filled_slot (E.get_packet_id m.world).0 topic payload in
        let less = free_index-lt m.outgoing i free in
        (
          (λ five. absurd (omega (arith, t.size, less))),
          λ sent. (omega (arith, t.size, less), rw e (free_index-some m.outgoing i slot free n)),
        )
  ]

  -- A publish that is taken under a packet id which no slot waits for is forgotten by the table when
  -- its PUBACK comes: the table is again what it was before.
  pub publish_to_topic-puback :
      IsTable m.outgoing
      → Absent (E.get_packet_id m.world).0 m.outgoing
      → (publish_to_topic E topic payload m).1 ≡ true
      → cleanup_with_id (E.get_packet_id m.world).0 (publish_to_topic E topic payload m).0.outgoing
        ≡ m.outgoing
  publish_to_topic-puback t absent sent = elim (publish_to_topic_cases t) [
    | refused full e ↦ cc
    | not_sent w i free e ↦ cc
    | was_taken i free e ↦ rw e (
        cleanup_with_id-set m.outgoing i (filled_slot (E.get_packet_id m.world).0 topic payload)
          free t.clean absent)
  ]

  -- A publish keeps the table's invariant.
  pub publish_to_topic-IsTable :
      IsTable m.outgoing
      → (E.get_packet_id m.world).0 ≢ 0
      → IsTable (publish_to_topic E topic payload m).0.outgoing
  publish_to_topic-IsTable t n = elim (publish_to_topic_cases t) [
    | refused full e ↦ rw e t
    | not_sent w i free e ↦ rw e t
    | was_taken i free e ↦
        let slot = filled_slot (E.get_packet_id m.world).0 topic payload in
        rw e (record {
          size = length-set m.outgoing i slot ∙ t.size;
          clean = Every-set IsClean m.outgoing i slot t.clean (λ z. absurd (n z));
        })
  ]
