-- ===== src/Mqtt/Connecting.antt =====
-- connectToServerWithBackoffRetries, subscribeToTopics, handleResubscribe and the way from one to the
-- next in aws_iot_task of src/aws/aws_iot_handler.c. TLS and backoffAlgorithm are parameters.
pub mod Attempts
pub mod Sessions
use cything.Prelude.{
  ℕ, zero, suc, Bool, true, false, not, Option, none, some, List, ◌==◌, if◌then◌else◌,
}
use cything.Mqtt.{Mqtt, CoreMqtt, cleanup_all}
use cything.Mqtt.Topics.{MqttIdentity, subscribe_topics}
use cything.Mqtt.Incoming.{Info}
use cything.Mqtt.Polling.{Run, done, fault, out_of_fuel, wait_for_packet_ack}

-- The statuses of `xTlsConnect` that the code tells apart.
pub data TlsStatus : Type 0 where
  tls_success tls_connect_failure : TlsStatus
  tls_other : ℕ → TlsStatus

-- The transport, `MQTT_Connect` with the clean-session flag, whose answer says whether the broker has
-- a session, `Clock_SleepMs`, and `BackoffAlgorithm_GetNextBackoff` on its context: the next delay, or
-- that the retries are exhausted. Its random number is one of the world's.
pub record Link (W B : Type 0) : Type 0 where
  pub tls_connect : W → TlsStatus × W
  pub tls_disconnect : W → W
  pub mqtt_connect : Bool → W → Option Bool × W
  pub sleep_ms : ℕ → W → W
  pub initial_backoff : B
  pub next_backoff : B → W → Option ℕ × B

-- MQTTSubAckFailure.
abbrev pub suback_failure : ℕ
suback_failure = 128

-- MQTT_PROCESS_LOOP_TIMEOUT_MS.
abbrev pub process_loop_timeout_ms : ℕ
process_loop_timeout_ms = 5000

-- `returnStatus` as EXIT_SUCCESS, `*pBrokerSessionPresent`, and the world.
pub record Attempt (W : Type 0) : Type 0 where
  pub success : Bool
  pub broker_session : Bool
  pub world : W

module _ {W B : Type 0} (L : Link W B) where
  -- `establishMqttSession` after a TLS session, and what follows its failure.
  unfoldable pub establish : Bool → Attempt W → Attempt W
  establish client_session a =
      let r = L.mqtt_connect (not client_session) a.world in
      elim r.0 [
        | none ↦ record a { success = false; world = L.tls_disconnect r.1 }
        | some present ↦ record { success = true; broker_session = present; world = r.1 }
      ]

  -- The body of the loop up to the retry.
  unfoldable pub attempt : Bool → Attempt W → Attempt W
  unfolding establish
  attempt client_session a =
      let r = L.tls_connect a.world in
      elim r.0 [
        | tls_success ↦ establish client_session (record a { world = r.1 })
        | tls_connect_failure ↦ record a { success = false; world = L.tls_disconnect r.1 }
        | tls_other code ↦ record a { world = r.1 }
      ]

  -- The loop: a failed attempt is followed by the next one after a delay, unless the retries are
  -- exhausted.
  unfoldable pub connect_from : ℕ → Bool → B → Attempt W → Run (Attempt W)
  unfolding attempt
  connect_from zero client_session b a = out_of_fuel
  connect_from (suc fuel) client_session b a =
      let tried = attempt client_session a in
      let next = L.next_backoff b tried.world in
      elim tried.success [
        | true ↦ done tried
        | false ↦ elim next.0 [
          | none ↦ done tried
          | some delay ↦
              connect_from fuel client_session next.1
                (record tried { world = L.sleep_ms delay tried.world })
        ]
      ]

  -- `connectToServerWithBackoffRetries`.
  unfoldable pub connect_with_retries : ℕ → Bool → Bool → W → Run (Attempt W)
  unfolding connect_from
  connect_with_retries fuel client_session broker_session w =
      connect_from fuel client_session L.initial_backoff
        (record { success = true; broker_session = broker_session; world = w })

module _ {W B : Type 0} (E : CoreMqtt W) (L : Link W B) (T : MqttIdentity) (info : W → Info) where
  -- What `aws_iot_task` resets before it connects.
  unfoldable pub begin_session : Mqtt W → Mqtt W
  begin_session m = record m {
    connected = false;
    ack_id = 0;
    subscribe_id = 0;
    outgoing = cleanup_all;
    suback_status = 0;
  }

  -- `subscribeToTopics`.
  unfoldable pub subscribe_to_topics : Mqtt W → Mqtt W × Bool
  unfolding subscribe_topics
  subscribe_to_topics m =
      let id = E.get_packet_id m.world in
      let r = E.subscribe id.0 (subscribe_topics T) id.1 in
      (record m { subscribe_id = id.0; world = r.1 }, r.0)

  -- The wait for the acknowledgement of the subscription.
  abbrev pub await_suback : ℕ → Mqtt W → Run (Mqtt W × Bool)
  await_suback fuel m = wait_for_packet_ack E T info fuel m.subscribe_id process_loop_timeout_ms m

  -- `handleResubscribe`: `waits` is the fuel of each wait, the first number that of the attempts.
  unfoldable pub resubscribe_from : ℕ → ℕ → B → Mqtt W → Run (Mqtt W × Bool)
  unfolding subscribe_topics wait_for_packet_ack
  resubscribe_from waits zero b m = out_of_fuel
  resubscribe_from waits (suc fuel) b m =
      let r = E.subscribe m.subscribe_id (subscribe_topics T) m.world in
      let asked = record m { world = r.1 } in
      elim r.0 [
        | false ↦ done (asked, false)
        | true ↦ elim (await_suback waits asked) [
          | fault ↦ fault
          | out_of_fuel ↦ out_of_fuel
          | done s ↦ elim s.1 [
            | false ↦ done s
            | true ↦
                let next = L.next_backoff b s.0.world in
                elim (s.0.suback_status == suback_failure) [
                  | false ↦ done s
                  | true ↦ elim next.0 [
                    | none ↦ done (s.0, false)
                    | some delay ↦
                        resubscribe_from waits fuel next.1
                          (record s.0 { world = L.sleep_ms delay s.0.world })
                  ]
                ]
          ]
        ]
      ]

  -- From a connection to the start of the processing in `aws_iot_task`: the subscription, the wait for
  -- its acknowledgement, and the further attempts if it was refused.
  unfoldable pub open_session : ℕ → ℕ → Mqtt W → Run (Mqtt W × Bool)
  unfolding subscribe_to_topics resubscribe_from wait_for_packet_ack
  open_session waits fuel m =
      let asked = subscribe_to_topics m in
      elim asked.1 [
        | false ↦ done asked
        | true ↦ elim (await_suback waits asked.0) [
          | fault ↦ fault
          | out_of_fuel ↦ out_of_fuel
          | done s ↦ elim s.1 [
            | false ↦ done s
            | true ↦ elim (s.0.suback_status == suback_failure) [
              | true ↦ resubscribe_from waits fuel L.initial_backoff s.0
              | false ↦ done s
            ]
          ]
        ]
      ]
