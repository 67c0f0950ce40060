-- ===== src/Mqtt/Connecting/Attempts.antt =====
-- How connecting and subscribing in src/aws/aws_iot_handler.c end.
use mathlib.Core.Path.{subst}
use cything.Prelude.{
  ap, ◌⊎◌, ℕ, zero, suc, ◌+◌, ◌<◌, ◌≡◌, ◌≢◌, refl, arith, Bool, true, some, ◌==◌, Bool-cases,
  Option-cases, inl, inr,
}
use cything.Mqtt.{Mqtt, CoreMqtt}
use cything.Mqtt.Topics.{MqttIdentity, subscribe_topics}
use cything.Mqtt.Incoming.{Info}
use cything.Mqtt.Polling.{Run, done, fault, out_of_fuel}
use cything.Mqtt.Acks.{Ends, returns, faults}
use cything.Mqtt.Connecting.{
  tls_other, Link, Attempt, attempt, connect_from, connect_with_retries, suback_failure,
  subscribe_to_topics, await_suback, resubscribe_from, open_session,
}

module _ {W B : Type 0} (L : Link W B) where
  -- The documented behaviour of backoffAlgorithm: every delay that it gives uses up one of the retries
  -- that are left, and of CONNECTION_RETRY_MAX_ATTEMPTS at the start.
  pub record IsBounded (left : B → ℕ) : Type 0 where
    pub initial : left L.initial_backoff ≡ 5
    pub spent :
        (b : B) (w : W) (delay : ℕ)
        → (L.next_backoff b w).0 ≡ some delay
        → left (L.next_backoff b w).1 + 1 ≡ left b

  module _ (left : B → ℕ) (bounded : IsBounded left) where
    connect_from-ends :
        (fuel : ℕ) (client_session : Bool) (b : B) (a : Attempt W)
        → left b < fuel
        → (r : Attempt W) × (connect_from L fuel client_session b a ≡ done r)
    unfolding connect_from
    connect_from-ends zero client_session b a h = absurd (omega arith)
    connect_from-ends (suc fuel) client_session b a h =
        let tried = attempt L client_session a in
        elim (Bool-cases tried.success) [
          | inl ok ↦ (tried, rw (connect_from, ok) refl)
          | inr failed ↦ elim (Option-cases (L.next_backoff b tried.world).0) [
            | inl exhausted ↦ (tried, rw (connect_from, failed, exhausted) refl)
            | inr (delay, e) ↦
                let again = record tried { world = L.sleep_ms delay tried.world } in
                rw (connect_from, failed, e)
                  (connect_from-ends fuel client_session (L.next_backoff b tried.world).1 again
                    (omega (arith, h, bounded.spent b tried.world delay e)))
          ]
        ]

    -- Connecting comes to an end after six attempts at most, if backoffAlgorithm keeps to its limit of
    -- five retries: seven rounds of fuel are enough, whatever the network does.
    pub connect_with_retries-ends :
        (client_session broker_session : Bool) (w : W)
        → (r : Attempt W) × (connect_with_retries L 6 client_session broker_session w ≡ done r)
    unfolding connect_with_retries
    connect_with_retries-ends client_session broker_session w =
        connect_from-ends 6 client_session L.initial_backoff
          (record { success = true; broker_session = broker_session; world = w })
          (omega (arith, bounded.initial))

  -- If the first xTlsConnect fails with another status than TLS_TRANSPORT_CONNECT_FAILURE, the function
  -- reports a connection: it returns EXIT_SUCCESS without MQTT_Connect having been called.
  pub connect_with_retries-unconnected :
      (fuel : ℕ) (client_session broker_session : Bool) (code : ℕ) (w : W)
      → (L.tls_connect w).0 ≡ tls_other code
      → connect_with_retries L (suc fuel) client_session broker_session w
        ≡ done (record {
          success = true;
          broker_session = broker_session;
          world = (L.tls_connect w).1;
        })
  unfolding connect_with_retries connect_from attempt
  connect_with_retries-unconnected fuel client_session broker_session code w e =
      let start : Attempt W = record {
        success = true;
        broker_session = broker_session;
        world = w;
      } in
      let tried : attempt L client_session start ≡ record start { world = (L.tls_connect w).1 } =
        rw (attempt, e) refl in
      rw (connect_with_retries, connect_from, tried) (ap done tried)

module _ {W B : Type 0} (E : CoreMqtt W) (L : Link W B) (T : MqttIdentity) (info : W → Info) where
  Run-cases : (r : Run (Mqtt W × Bool)) → Ends r ⊎ (r ≡ out_of_fuel)
  Run-cases (done a) = inl (returns a refl)
  Run-cases fault = inl (faults refl)
  Run-cases out_of_fuel = inr refl

  -- Whether a run that reports success leaves a granted subscription.
  abbrev Granted : Run (Mqtt W × Bool) → Type 0
  Granted (done s) = s.1 ≡ true → s.0.suback_status ≢ suback_failure
  Granted fault = Unit
  Granted out_of_fuel = Unit

  resubscribe_from-Granted :
      (waits fuel : ℕ) (b : B) (m : Mqtt W) → Granted (resubscribe_from E L T info waits fuel b m)
  unfolding resubscribe_from
  resubscribe_from-Granted waits zero b m = tt
  resubscribe_from-Granted waits (suc fuel) b m =
      let r = E.subscribe m.subscribe_id (subscribe_topics T) m.world in
      let asked = record m { world = r.1 } in
      elim (Bool-cases r.0) [
        | inr refused ↦ rw (resubscribe_from, refused) (λ e. cc)
        | inl sent ↦ elim (Run-cases (await_suback E L T info waits asked)) [
          | inr e ↦ rw (resubscribe_from, sent, e) tt
          | inl (faults e) ↦ rw (resubscribe_from, sent, e) tt
          | inl (returns s e) ↦ elim (Bool-cases s.1) [
            | inr late ↦ rw (resubscribe_from, sent, e, late) (λ t. cc)
            | inl acked ↦ elim (Bool-cases (s.0.suback_status == suback_failure)) [
              | inr granted ↦
                  rw (resubscribe_from, sent, e, acked, granted) (λ t g. ground (arith, g, granted))
              | inl failed ↦ elim (Option-cases (L.next_backoff b s.0.world).0) [
                | inl exhausted ↦ rw (resubscribe_from, sent, e, acked, failed, exhausted) (λ t. cc)
                | inr (delay, d) ↦
                    rw (resubscribe_from, sent, e, acked, failed, d)
                      (resubscribe_from-Granted waits fuel _ _)
              ]
            ]
          ]
        ]
      ]

  open_session-Granted :
      (waits fuel : ℕ) (m : Mqtt W) → Granted (open_session E L T info waits fuel m)
  unfolding open_session
  open_session-Granted waits fuel m =
      let asked = subscribe_to_topics E L T info m in
      elim (Bool-cases asked.1) [
        | inr refused ↦ rw (open_session, refused) (λ e. cc)
        | inl sent ↦ elim (Run-cases (await_suback E L T info waits asked.0)) [
          | inr e ↦ rw (open_session, sent, e) tt
          | inl (faults e) ↦ rw (open_session, sent, e) tt
          | inl (returns s e) ↦ elim (Bool-cases s.1) [
            | inr late ↦ rw (open_session, sent, e, late) (λ t. cc)
            | inl acked ↦ elim (Bool-cases (s.0.suback_status == suback_failure)) [
              | inr granted ↦
                  rw (open_session, sent, e, acked, granted) (λ t g. ground (arith, g, granted))
              | inl failed ↦
                  rw (open_session, sent, e, acked, failed)
                    (resubscribe_from-Granted waits fuel L.initial_backoff s.0)
            ]
          ]
        ]
      ]

  -- Once the way from the connection to the processing reports success, the code of the last SUBACK is
  -- not a refusal.
  pub open_session-granted :
      (waits fuel : ℕ) (m m' : Mqtt W)
      → open_session E L T info waits fuel m ≡ done (m', true)
      → m'.suback_status ≢ suback_failure
  unfolding open_session
  open_session-granted waits fuel m m' opened =
      subst Granted opened (open_session-Granted waits fuel m) refl
