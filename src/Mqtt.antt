-- ===== src/Mqtt.antt =====
-- src/aws/aws_iot_handler.[ch]: the table of publishes that wait for their acknowledgement, and the
-- publishing into it. coreMQTT, the clock and the application's hook are the parameter `CoreMqtt`.
-- A slot of the table holds the bytes that its topic and payload pointed at when they were published.
pub mod Table
pub mod Sending
pub mod Topics
pub mod Incoming
pub mod Acks
pub mod Kept
pub mod Log
pub mod Delivery
pub mod Connecting
pub mod Polling
use mathlib.Core.Option
use cything.Prelude.{
  ℕ, zero, suc, ◌+◌, ◌-◌, ◌%◌, Bool, true, false, ◌&&◌, not, Option, none, some, List, [], ◌∷◌,
  ◌++◌, ◌==◌, ltb, leb, if◌then◌else◌, set, replicate,
}
use cything.Prelude.Bytes.{Bytes}
use cything.Fifo.{Fifo}
use cything.Events.{Events}

abbrev pub max_outgoing_publishes : ℕ
max_outgoing_publishes = 5

-- MQTT_PACKET_ID_INVALID.
abbrev pub packet_id_invalid : ℕ
packet_id_invalid = 0

-- `PublishPackets_t`. The quality of service is 1 and `retain` false in every slot that is in use.
pub record Publish : Type 0 where
  pub packet_id : ℕ
  pub topic : Bytes
  pub payload : Bytes
  pub dup : Bool

abbrev pub empty_publish : Publish
empty_publish = record { packet_id = packet_id_invalid; topic = []; payload = []; dup = false }

-- The statuses of `MQTT_ProcessLoop` that the code tells apart.
pub data Status : Type 0 where
  mqtt_success need_more_bytes recv_failed : Status
  other_failure : ℕ → Status

-- What the callback is told of a packet. The `view` of a publish is the network buffer from the
-- payload on, whose first `size` bytes are the payload.
pub data Packet : Type 0 where
  publish_packet : (topic view : Bytes) (size : ℕ) → Packet
  suback : (id : ℕ) (code : ℕ) → Packet
  unsuback : (id : ℕ) → Packet
  pingresp : Packet
  puback : (id : ℕ) → Packet
  unknown_packet : (kind : ℕ) → Packet

-- coreMQTT over a state of its own and of the network. `MQTT_ProcessLoop` handles one packet at most
-- in a call: `receive` is the call up to the callback, `settle` the rest of it with its status. A
-- publish is taken to be sent, or not.
pub record CoreMqtt (W : Type 0) : Type 0 where
  pub get_packet_id : W → ℕ × W
  pub send_publish : Publish → W → Bool × W
  pub subscribe : ℕ → List Bytes → W → Bool × W
  pub receive : W → Option Packet × W
  pub settle : W → Status × W
  -- the milliseconds since boot, which `getTime` gives modulo 2^32
  pub clock : W → ℕ
  -- `xTaskGetTickCount`, and `pdMS_TO_TICKS`
  pub tick_count : W → ℕ
  pub ms_to_ticks : ℕ → ℕ
  -- whether a write to flash succeeds
  pub nvs_ok : W → Bool
  -- `app_mqtt_command_handle`: what it passes to `mqtt_publish_response`, and what it returns
  pub app_command : Bytes → ℕ → W → List Bytes × Bool

-- The globals of the file and those it shares with the rest, the state of coreMQTT, and the publishes
-- that coreMQTT has taken since boot, the newest last.
pub record Mqtt (W : Type 0) : Type 0 where
  pub outgoing : List Publish
  pub ack_id : ℕ
  pub subscribe_id : ℕ
  pub suback_status : ℕ
  pub connected : Bool
  pub fifo : Fifo
  pub period_ms : ℕ
  pub last_send_tick : ℕ
  pub events : Events
  pub pairing_last_send_tick : ℕ
  pub response_id : ℕ
  pub firmware_url : Bytes
  pub sent : List (Bytes × Bytes)
  pub world : W

-- `getNextFreeIndexForOutgoingPublishes`.
unfoldable pub free_index : List Publish → Option ℕ
free_index [] = none
free_index (p ∷ ps) =
    let rest = Option.map suc (free_index ps) in
    if p.packet_id == packet_id_invalid then some zero else rest

-- `cleanupOutgoingPublishAt`.
unfoldable pub cleanup_at : ℕ → List Publish → List Publish
cleanup_at i ps = set ps i empty_publish

-- `cleanupOutgoingPublishes`, and the empty table.
abbrev pub cleanup_all : List Publish
cleanup_all = replicate max_outgoing_publishes empty_publish

-- `cleanupOutgoingPublishWithPacketID`.
unfoldable pub cleanup_with_id : ℕ → List Publish → List Publish
cleanup_with_id id [] = []
cleanup_with_id id (p ∷ ps) =
    let rest = p ∷ cleanup_with_id id ps in if p.packet_id == id then empty_publish ∷ ps else rest

-- The slot that `publishToTopic` fills.
abbrev pub filled_slot : ℕ → Bytes → Bytes → Publish
filled_slot id topic payload = record {
  packet_id = id;
  topic = topic;
  payload = payload;
  dup = false;
}

module _ {W : Type 0} (E : CoreMqtt W) where
  -- `publishToTopic` with the slot found.
  unfoldable pub publish_at : ℕ → Bytes → Bytes → Mqtt W → Mqtt W × Bool
  unfolding cleanup_at
  publish_at i topic payload m =
      let id = E.get_packet_id m.world in
      let slots = set m.outgoing i (filled_slot id.0 topic payload) in
      let r = E.send_publish (filled_slot id.0 topic payload) id.1 in
      if r.0
      then (
        record m { outgoing = slots; world = r.1; sent = m.sent ++ ((topic, payload) ∷ []) },
        true,
      )
      else (record m { outgoing = cleanup_at i slots; world = r.1 }, false)

  -- `publishToTopic`: whether it returned EXIT_SUCCESS.
  unfoldable pub publish_to_topic : Bytes → Bytes → Mqtt W → Mqtt W × Bool
  unfolding free_index publish_at
  publish_to_topic topic payload m = elim (free_index m.outgoing) [
    | none ↦ (m, false)
    | some i ↦ publish_at i topic payload m
  ]
