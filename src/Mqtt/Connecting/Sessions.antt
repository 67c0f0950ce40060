-- ===== src/Mqtt/Connecting/Sessions.antt =====
-- handlePublishResend and the start of a session in aws_iot_task of src/aws/aws_iot_handler.c.
use mathlib.Core.Path.{subst}
use cything.Prelude.{
  sym, ◌⊎◌, ℕ, zero, suc, ◌≡◌, refl, Bool, true, false, ◌&&◌, not, some, List, [], ◌∷◌, ◌==◌,
  if◌then◌else◌, Bool-cases, Option-cases, inl, inr,
}
use cything.Mqtt.{Mqtt, CoreMqtt, Publish, packet_id_invalid, cleanup_all}
use cything.Mqtt.Topics.{MqttIdentity}
use cything.Mqtt.Incoming.{Info}
use cything.Mqtt.Polling.{Run, done, fault, out_of_fuel}
use cything.Mqtt.Connecting.{
  TlsStatus, tls_success, tls_connect_failure, tls_other, Link, Attempt, establish, attempt,
  connect_from, connect_with_retries, begin_session,
}

module _ {W C : Type 0} (E : CoreMqtt W) (next_resend : C → W → ℕ × C) where
  -- The state of one search of the table: the slots behind it, whether the id was found, whether all
  -- was sent, and the world.
  pub record Search : Type 0 where
    pub slots : List Publish
    pub found : Bool
    pub sent : Bool
    pub world : W

  abbrev behind : Publish → Bool → Search → Search
  behind p found s = record s { slots = p ∷ s.slots; found = if found then true else s.found }

  -- The inner loop: every slot with the id is sent again, up to the first that fails.
  unfoldable pub resend_slots : ℕ → List Publish → W → Search
  resend_slots id [] w = record { slots = []; found = false; sent = true; world = w }
  resend_slots id (p ∷ ps) w =
      let again = record p { dup = true } in
      let r = E.send_publish again w in
      let skipped = behind p false (resend_slots id ps w) in
      let resent = behind again true (resend_slots id ps r.1) in
      if not (p.packet_id == id)
      then skipped
      else if r.0
      then resent
      else record { slots = again ∷ ps; found = true; sent = false; world = r.1 }

  -- The loop over `MQTT_PublishToResend`, whose cursor gives 0 at the end.
  unfoldable pub resend_from : ℕ → C → Bool → Mqtt W → Run (Mqtt W × Bool)
  unfolding resend_slots
  resend_from zero c ok m = out_of_fuel
  resend_from (suc fuel) c ok m =
      let next = next_resend c m.world in
      let s = resend_slots next.0 m.outgoing m.world in
      let m' = record m { outgoing = s.slots; world = s.world } in
      let rest = resend_from fuel next.1 (ok && s.sent) m' in
      if next.0 == packet_id_invalid
      then done (m, ok)
      else if s.found
      then rest
      else done (m', false)

module _ {W B C : Type 0} (E : CoreMqtt W) (L : Link W B) (next_resend : C → W → ℕ × C)
    (cursor : C) where
  -- What follows a connection: the publishes of a session that the broker still has are sent again,
  -- otherwise the table is cleared.
  unfoldable pub connected_with : ℕ → Attempt W → Mqtt W → Run (Mqtt W × Bool)
  unfolding resend_from
  connected_with fuel a m =
      let up = record m { world = a.world } in
      if a.broker_session
      then resend_from E next_resend fuel cursor true (record up { connected = true })
      else done (record up { outgoing = cleanup_all; connected = true }, true)

  -- The inner loop of `aws_iot_task`, which tries until a connection is reported.
  unfoldable pub connect_until : ℕ → ℕ → Attempt W → Run (Attempt W)
  unfolding connect_with_retries
  connect_until fuel zero a = out_of_fuel
  connect_until fuel (suc rounds) a =
      elim (connect_with_retries L fuel false a.broker_session a.world) [
        | fault ↦ fault
        | out_of_fuel ↦ out_of_fuel
        | done b ↦ elim b.success [
          | true ↦ done b
          | false ↦ connect_until fuel rounds (record b { world = L.sleep_ms 2000 b.world })
        ]
      ]

  abbrev continue_with : ℕ → Mqtt W → Run (Attempt W) → Run (Mqtt W × Bool)
  continue_with fuel m (done a) = connected_with fuel a m
  continue_with fuel m fault = fault
  continue_with fuel m out_of_fuel = out_of_fuel

  -- The start of a session, from the reset of the globals to the table behind the connection.
  unfoldable pub start_session : MqttIdentity → (W → Info) → ℕ → ℕ → Mqtt W → Run (Mqtt W × Bool)
  unfolding begin_session connect_until connected_with
  start_session T info fuel rounds m = continue_with fuel (begin_session E L T info m) (
      connect_until fuel rounds
        (record { success = true; broker_session = false; world = m.world }))

module _ {W B : Type 0} (L : Link W B) where
  -- The documented answer to a CONNECT that asks for a clean session: the broker has none.
  abbrev pub AnswersClean : Type 0
  AnswersClean =
      (w : W) (present : Bool) → (L.mqtt_connect true w).0 ≡ some present → present ≡ false

  establish-fresh :
      (a : Attempt W)
      → AnswersClean
      → a.broker_session ≡ false
      → (establish L false a).broker_session ≡ false
  unfolding establish
  establish-fresh a clean e = elim (Option-cases (L.mqtt_connect true a.world).0) [
    | inl failed ↦ rw (establish, failed) e
    | inr (present, h) ↦ rw (establish, h) (clean a.world present h)
  ]

  attempt-by :
      (a : Attempt W) (tls : TlsStatus)
      → (L.tls_connect a.world).0 ≡ tls
      → AnswersClean
      → a.broker_session ≡ false
      → (attempt L false a).broker_session ≡ false
  unfolding attempt
  attempt-by a tls_success h clean e =
      rw (attempt, h) (establish-fresh (record a { world = (L.tls_connect a.world).1 }) clean e)
  attempt-by a tls_connect_failure h clean e = rw (attempt, h) e
  attempt-by a (tls_other code) h clean e = rw (attempt, h) e

  -- Whether a run that returns has no session of the broker.
  abbrev Fresh : Run (Attempt W) → Type 0
  Fresh (done a) = a.broker_session ≡ false
  Fresh fault = Unit
  Fresh out_of_fuel = Unit

  connect_from-Fresh :
      (fuel : ℕ) (b : B) (a : Attempt W)
      → AnswersClean
      → a.broker_session ≡ false
      → Fresh (connect_from L fuel false b a)
  unfolding connect_from
  connect_from-Fresh zero b a clean e = tt
  connect_from-Fresh (suc fuel) b a clean e =
      let tried = attempt L false a in
      let fresh = attempt-by a (L.tls_connect a.world).0 refl clean e in
      elim (Bool-cases tried.success) [
        | inl ok ↦ rw (connect_from, ok) fresh
        | inr failed ↦ elim (Option-cases (L.next_backoff b tried.world).0) [
          | inl exhausted ↦ rw (connect_from, failed, exhausted) fresh
          | inr (delay, d) ↦
              rw (connect_from, failed, d)
                (connect_from-Fresh fuel (L.next_backoff b tried.world).1
                  (record tried { world = L.sleep_ms delay tried.world }) clean fresh)
        ]
      ]

  Fresh-cases :
      (r : Run (Attempt W))
      → Fresh r
      → ((a : Attempt W) × ((r ≡ done a) × (a.broker_session ≡ false)))
        ⊎ ((r ≡ fault) ⊎ (r ≡ out_of_fuel))
  Fresh-cases (done a) h = inl (a, (refl, h))
  Fresh-cases fault h = inr (inl refl)
  Fresh-cases out_of_fuel h = inr (inr refl)

module _ {W B C : Type 0} (E : CoreMqtt W) (L : Link W B) (next_resend : C → W → ℕ × C)
    (cursor : C) where
  connect_until-Fresh :
      (fuel rounds : ℕ) (a : Attempt W)
      → AnswersClean L
      → a.broker_session ≡ false
      → Fresh L (connect_until E L next_resend cursor fuel rounds a)
  unfolding connect_until connect_with_retries
  connect_until-Fresh fuel zero a clean e = tt
  connect_until-Fresh fuel (suc rounds) a clean e =
      let start = record a { success = true } in
      elim (Fresh-cases L (connect_with_retries L fuel false a.broker_session a.world)
        (connect_from-Fresh L fuel L.initial_backoff start clean e)) [
          | inr (inl h) ↦ rw (connect_until, h) tt
          | inr (inr h) ↦ rw (connect_until, h) tt
          | inl (b, (h, fresh)) ↦ elim (Bool-cases b.success) [
            | inl ok ↦ rw (connect_until, h, ok) fresh
            | inr failed ↦
                rw (connect_until, h, failed)
                  (connect_until-Fresh fuel rounds (record b { world = L.sleep_ms 2000 b.world })
                    clean fresh)
          ]
        ]

  connected_with-fresh :
      (fuel : ℕ) (a : Attempt W) (m : Mqtt W)
      → a.broker_session ≡ false
      → connected_with E L next_resend cursor fuel a m
        ≡ done (record m { world = a.world; outgoing = cleanup_all; connected = true }, true)
  unfolding connected_with
  connected_with-fresh fuel a m fresh = rw (connected_with, fresh) refl

  -- A session that came about over the connection of a run of attempts.
  abbrev Started : Mqtt W → Run (Attempt W) → Run (Mqtt W × Bool) → Type 0
  Started m r (done s) =
      (s.0.outgoing ≡ cleanup_all)
      × (s.0.sent ≡ m.sent)
      × ((a : Attempt W) × (r ≡ done a) × (s.0.world ≡ a.world))
  Started m r fault = Unit
  Started m r out_of_fuel = Unit

  continue_with-Started :
      (T : MqttIdentity) (info : W → Info) (fuel : ℕ) (m : Mqtt W) (r : Run (Attempt W))
      → Fresh L r
      → Started m r (continue_with E L next_resend cursor fuel (begin_session E L T info m) r)
  unfolding begin_session
  continue_with-Started T info fuel m (done a) fresh =
      subst (Started m (done a))
        (sym (connected_with-fresh fuel a (begin_session E L T info m) fresh))
        (refl, refl, (a, refl, refl))
  continue_with-Started T info fuel m fault fresh = tt
  continue_with-Started T info fuel m out_of_fuel fresh = tt

  -- If the broker answers a clean CONNECT as documented, a session that comes about starts with an
  -- empty table, whatever waited for its acknowledgement before. No publish of an earlier session is
  -- sent again on the way: the log of publishes is the same, and coreMQTT is as the last attempt to
  -- connect left it.
  pub start_session-empty :
      (T : MqttIdentity) (info : W → Info) (fuel rounds : ℕ) (m m' : Mqtt W) (ok : Bool)
      → AnswersClean L
      → start_session E L next_resend cursor T info fuel rounds m ≡ done (m', ok)
      → (m'.outgoing ≡ cleanup_all)
        × (m'.sent ≡ m.sent)
        × ((a : Attempt W) × (connect_until E L next_resend cursor fuel rounds
                (record { success = true; broker_session = false; world = m.world })
              ≡ done a)
            × (m'.world ≡ a.world))
  unfolding start_session
  start_session-empty T info fuel rounds m m' ok clean started =
      let start : Attempt W = record { success = true; broker_session = false; world = m.world } in
      let tried = connect_until E L next_resend cursor fuel rounds start in
      subst (Started m tried) started (
        continue_with-Started T info fuel m tried
          (connect_until-Fresh fuel rounds start clean refl))
