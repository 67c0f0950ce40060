-- ===== src/Mqtt/Acks.antt =====
-- The end of the loops of src/aws/aws_iot_handler.c over `MQTT_ProcessLoop`, on a clock of 32 bits.
use cything.Prelude.{
  ap, &&-eq_true, ℕ, zero, suc, ◌+◌, ◌*◌, ◌-◌, ◌/◌, ◌<◌, ◌≤◌, ◌≡◌, ◌≢◌, ◌⊎◌, inl, inr, refl, arith,
  Bool, true, false, ◌&&◌, ltb, Bool-cases, Option, none, some, ltb→lt,
}
use cything.Mqtt.{Mqtt, CoreMqtt, Status, mqtt_success}
use cything.Mqtt.Topics.{MqttIdentity}
use cything.Mqtt.Incoming.{Info}
use cything.Mqtt.Polling.{
  Run, done, fault, word32, get_time, process_loop, callback, settled, poll, deadline_after, awaits,
  ack_result, wait_for_packet_ack, process_loop_with_timeout, send_pending,
}

-- A run that comes to its end: with a result, or with a fault.
pub data Ends {A : Type 0} (r : Run A) : Type 0 where
  returns : (a : A) → r ≡ done a → Ends r
  faults : r ≡ fault → Ends r

late : (a b : ℕ) (c : Bool) → b ≤ a → ltb a b && c ≡ false
late a b c h = ground arith

module _ {W : Type 0} (E : CoreMqtt W) (T : MqttIdentity) (info : W → Info) where
  settled-Ends : (o : Option (Mqtt W)) → Ends (settled E T info o)
  unfolding settled
  settled-Ends none = faults refl
  settled-Ends (some m) = returns _ refl

  pub process_loop-Ends : (m : Mqtt W) → Ends (process_loop E T info m)
  unfolding process_loop
  process_loop-Ends m =
      let r = E.receive m.world in settled-Ends (callback E T info r.0 (record m { world = r.1 }))

  -- The clock counts whole milliseconds of the time in nanoseconds. A round, failed or not, takes some
  -- time, and at most `longest` milliseconds.
  pub record IsTimely (nanos : W → ℕ) (longest : ℕ) (before : Mqtt W → Mqtt W) : Type 0 where
    pub clock : (w : W) → E.clock w ≡ nanos w / 1000000
    pub passes :
        (m m' : Mqtt W) (status : Status)
        → process_loop E T info (before m) ≡ done (m', status)
        → (nanos m.world < nanos m'.world) × (nanos m'.world ≤ nanos m.world + longest * 1000000)

  module _ (test : Mqtt W × Status → Bool) (before : Mqtt W → Mqtt W) where
    -- A deadline that wraps lies behind the time at which the loop starts.
    wrapped :
        (timeout : ℕ) (m : Mqtt W) (s : Mqtt W × Status)
        → s.0.world ≡ m.world
        → 0 < timeout
        → timeout < word32
        → word32 ≤ get_time E T info m + timeout
        → ltb (get_time E T info s.0) (deadline_after E T info timeout m) && test s ≡ false
    unfolding get_time
    wrapped timeout m s e some_time small h =
        let same : E.clock s.0.world ≡ E.clock m.world = ap (λ w. E.clock w) e in
        late _ _ (test s) (omega (arith, same))

    poll-wrapped :
        (fuel timeout : ℕ) (m : Mqtt W) (s : Mqtt W × Status)
        → s.0.world ≡ m.world
        → 0 < timeout
        → timeout < word32
        → word32 ≤ get_time E T info m + timeout
        → poll E T info test before (suc fuel) (deadline_after E T info timeout m) s ≡ done s
    unfolding poll
    poll-wrapped fuel timeout m s e some_time small h =
        rw (poll, wrapped timeout m s e some_time small h) refl

  module _ (test : Mqtt W × Status → Bool) (before : Mqtt W → Mqtt W) (nanos : W → ℕ) (longest : ℕ)
      (timely : IsTimely nanos longest before) where
    before_deadline :
        (s : Mqtt W × Status) (deadline base : ℕ)
        → deadline + longest ≤ word32
        → base * word32 ≤ E.clock s.0.world
        → E.clock s.0.world < base * word32 + deadline + longest
        → ltb (get_time E T info s.0) deadline ≡ true
        → E.clock s.0.world < base * word32 + deadline
    unfolding get_time
    before_deadline s deadline base small low high early =
        omega (arith, small, low, high, ltb→lt (get_time E T info s.0) deadline early)

    poll-Ends :
        (fuel deadline base : ℕ) (s : Mqtt W × Status)
        → deadline + longest ≤ word32
        → base * word32 ≤ E.clock s.0.world
        → E.clock s.0.world < base * word32 + deadline + longest
        → (base * word32 + deadline) * 1000000 - nanos s.0.world < fuel
        → Ends (poll E T info test before fuel deadline s)
    unfolding poll
    poll-Ends zero deadline base s small low high enough = absurd (omega arith)
    poll-Ends (suc fuel) deadline base s small low high enough =
        elim (Bool-cases (ltb (get_time E T info s.0) deadline && test s)) [
          | inr stop ↦ rw (poll, stop) (returns s refl)
          | inl more ↦ elim (process_loop-Ends (before s.0)) [
            | faults e ↦ rw (poll, more, e) (faults refl)
            | returns s' e ↦
                let step = timely.passes s.0 s'.0 s'.1 e in
                let now = timely.clock s.0.world in
                let then = timely.clock s'.0.world in
                let early =
                  before_deadline s deadline base small low high (&&-eq_true _ (test s) more).0 in
                rw (poll, more, e)
                  (poll-Ends fuel deadline base s' small (omega (arith, step, low, now, then))
                    (omega (arith, step, early, now, then))
                    (omega (arith, step, early, now, enough)))
          ]
        ]

    -- Whatever the time at the start is, but for the last moments before the clock wraps.
    loop-Ends :
        (fuel timeout : ℕ) (m : Mqtt W) (s : Mqtt W × Status)
        → s.0.world ≡ m.world
        → 0 < timeout
        → timeout < word32
        → (get_time E T info m + timeout + longest < word32)
          ⊎ (word32 ≤ get_time E T info m + timeout)
        → timeout * 1000000 + 1 < fuel
        → Ends (poll E T info test before fuel (deadline_after E T info timeout m) s)
    unfolding get_time
    loop-Ends zero timeout m s e some_time small gap enough = absurd (omega arith)
    loop-Ends (suc fuel) timeout m s e some_time small (inl h) enough =
        let same : E.clock s.0.world ≡ E.clock m.world = ap (λ w. E.clock w) e in
        poll-Ends (suc fuel) (deadline_after E T info timeout m) (E.clock m.world / word32) s
          (omega arith) (omega (arith, same)) (omega (arith, same))
          (omega (arith, same, timely.clock s.0.world))
    loop-Ends (suc fuel) timeout m s e some_time small (inr h) enough =
        returns s (poll-wrapped test before fuel timeout m s e some_time small h)

  -- With a timeout of at least a millisecond and below 2^32, waitForPacketAck returns, or a handler
  -- that it runs faults, whatever MQTT_ProcessLoop receives or answers: if each call of it, failed
  -- or not, takes any time at all and at most `longest` milliseconds, the 32-bit clock counts the
  -- whole milliseconds of the time, and it does not stand so close to its wrap-around that it wraps
  -- in the last of the calls. The number of calls is then bounded by the nanoseconds of the
  -- timeout.
  pub wait_for_packet_ack-Ends :
      (nanos : W → ℕ) (longest fuel id timeout : ℕ) (m : Mqtt W)
      → IsTimely nanos longest (λ m. m)
      → 0 < timeout
      → timeout < word32
      → (get_time E T info m + timeout + longest < word32)
        ⊎ (word32 ≤ get_time E T info m + timeout)
      → timeout * 1000000 + 1 < fuel
      → Ends (wait_for_packet_ack E T info fuel id timeout m)
  unfolding wait_for_packet_ack ack_result
  wait_for_packet_ack-Ends nanos longest fuel id timeout m timely some_time small gap enough =
      elim (loop-Ends (awaits E T info id) (λ m. m) nanos longest timely fuel timeout m
        (record m { ack_id = 0 }, mqtt_success) refl some_time small gap enough) [
          | returns s e ↦ rw e (returns _ refl)
          | faults e ↦ rw e (faults refl)
        ]

  -- processLoopWithTimeout returns, or a handler that it runs faults, under the same conditions, where
  -- a round also sends what is due.
  pub process_loop_with_timeout-Ends :
      (nanos : W → ℕ) (longest fuel timeout : ℕ) (m : Mqtt W)
      → IsTimely nanos longest (send_pending E T info)
      → 0 < timeout
      → timeout < word32
      → (get_time E T info m + timeout + longest < word32)
        ⊎ (word32 ≤ get_time E T info m + timeout)
      → timeout * 1000000 + 1 < fuel
      → Ends (process_loop_with_timeout E T info fuel timeout m)
  unfolding process_loop_with_timeout
  process_loop_with_timeout-Ends nanos longest fuel timeout m timely some_time small gap enough =
      loop-Ends _ (send_pending E T info) nanos longest timely fuel timeout m (m, mqtt_success) refl
        some_time small gap enough

  -- If the 32-bit clock wraps within the timeout, waitForPacketAck fails at once: it does not call
  -- MQTT_ProcessLoop at all, so that no acknowledgement can be seen, and only resets the
  -- acknowledged id.
  pub wait_for_packet_ack-wrapped :
      (fuel id timeout : ℕ) (m : Mqtt W)
      → id ≢ 0
      → 0 < timeout
      → timeout < word32
      → word32 ≤ get_time E T info m + timeout
      → wait_for_packet_ack E T info (suc fuel) id timeout m ≡ done (record m { ack_id = 0 }, false)
  unfolding wait_for_packet_ack ack_result
  wait_for_packet_ack-wrapped fuel id timeout m n some_time small h =
      let at_once =
        poll-wrapped (awaits E T info id) (λ m. m) fuel timeout m
          (record m { ack_id = 0 }, mqtt_success) refl some_time small h in
      rw at_once (ground (arith, n))
