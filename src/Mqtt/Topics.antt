-- ===== src/Mqtt/Topics.antt =====
-- build_mqtt_identity and set_topic of src/aws/aws_iot_handler.c: the client id, the endpoint and the
-- topics of a provisioned device. Each topic is a C string in a buffer of 160 bytes.
use cything.Prelude.Every.{Every}
use cything.Prelude.{
  take_of-le, map, &&-eq_true, ◌&&◌, not, Bool, true, ℕ, ◌-◌, ◌≤◌, ◌≡◌, ◌≢◌, refl, sym, ◌∙◌, arith,
  List, [], ◌∷◌, ◌++◌, length, take, length-append, length-take,
}
use cything.Prelude.Bytes.{bytes_eq_iff, bytes_eq, Bytes, codes}

abbrev pub topic_size : ℕ
topic_size = 160

-- `mqtt_identity_t` without the certificate and the key, which it points to.
pub record MqttIdentity : Type 0 where
  pub client_id : Bytes
  pub endpoint : Bytes
  pub command_topic : Bytes
  pub get_info_command_topic : Bytes
  pub update_fw_command_topic : Bytes
  pub response_topic : Bytes
  pub get_info_response_topic : Bytes
  pub update_fw_response_topic : Bytes
  pub pairing_topic : Bytes

-- `set_topic`: `snprintf(dst, dst_size, "%s/%s", base, suffix)`.
unfoldable pub set_topic : Bytes → Bytes → Bytes
set_topic base suffix = take (topic_size - 1) (base ++ (b'/' ∷ suffix))

-- The base of the topics, in a buffer of 128 bytes.
unfoldable pub topic_base : Bytes → Bytes → Bytes → Bytes
topic_base source_terminal_id device_type device_id =
    take 127 (source_terminal_id ++ (b'/' ∷ (device_type ++ (b'/' ∷ device_id))))

-- `build_mqtt_identity` on a provisioned device.
unfoldable pub build_mqtt_identity : Bytes → Bytes → Bytes → Bytes → MqttIdentity
unfolding topic_base set_topic
build_mqtt_identity source_terminal_id device_type device_id iot_endpoint =
    let base = topic_base source_terminal_id device_type device_id in
    record {
      client_id = take 47 device_id;
      endpoint = take 127 iot_endpoint;
      command_topic = set_topic base (codes "command");
      get_info_command_topic = set_topic base (codes "getInfoCommand");
      update_fw_command_topic = set_topic base (codes "updateFwCommand");
      response_topic = set_topic base (codes "response");
      get_info_response_topic = set_topic base (codes "getInfoResponse");
      update_fw_response_topic = set_topic base (codes "updateFwResponse");
      pairing_topic = set_topic base (codes "pairing");
    }

-- `subscribeTopics`.
unfoldable pub subscribe_topics : MqttIdentity → List Bytes
subscribe_topics T = T.command_topic ∷ T.get_info_command_topic ∷ T.update_fw_command_topic ∷ []

append_cancel : (xs ys zs : Bytes) → xs ++ ys ≡ xs ++ zs → ys ≡ zs
append_cancel [] ys zs e = e
append_cancel (x ∷ xs) ys zs e = append_cancel xs ys zs cc

base_short :
    (source_terminal_id device_type device_id : Bytes)
    → length (topic_base source_terminal_id device_type device_id) ≤ 127
unfolding topic_base
base_short source_terminal_id device_type device_id =
    let s = source_terminal_id ++ (b'/' ∷ (device_type ++ (b'/' ∷ device_id))) in
    omega (arith, length-take 127 s)

-- No topic is cut: the base leaves room for the longest suffix.
whole_topic :
    (base suffix : Bytes)
    → length base ≤ 127
    → length suffix ≤ 31
    → set_topic base suffix ≡ base ++ (b'/' ∷ suffix)
unfolding set_topic
whole_topic base suffix h k = take_of-le 159 _ (omega (arith, length-append base (b'/' ∷ suffix)))

-- Two topics of one base with different suffixes differ.
topics_differ :
    (base s t : Bytes)
    → length base ≤ 127
    → length s ≤ 31
    → length t ≤ 31
    → s ≢ t
    → set_topic base s ≢ set_topic base t
topics_differ base s t h k l n e =
    let whole : base ++ (b'/' ∷ s) ≡ base ++ (b'/' ∷ t) =
      sym (whole_topic base s h k) ∙ e ∙ whole_topic base t h l in
    let tails : b'/' ∷ s ≡ b'/' ∷ t = append_cancel base (b'/' ∷ s) (b'/' ∷ t) whole in n cc

-- Each element differs from all later ones.
abbrev pub Apart : List Bytes → Type 0
Apart [] = Unit
Apart (x ∷ xs) = Every (λ y. x ≢ y) xs × Apart xs

differs_from : Bytes → List Bytes → Bool
differs_from x [] = true
differs_from x (y ∷ ys) = not (bytes_eq x y) && differs_from x ys

pairwise_different : List Bytes → Bool
pairwise_different [] = true
pairwise_different (x ∷ xs) = differs_from x xs && pairwise_different xs

differs_from→Every :
    (x : Bytes) (ys : List Bytes) → differs_from x ys ≡ true → Every (λ y. x ≢ y) ys
unfolding differs_from
differs_from→Every x [] h = tt
differs_from→Every x (y ∷ ys) h =
    let both = &&-eq_true (not (bytes_eq x y)) (differs_from x ys) h in
    (λ e. ground (arith, e, both.0, bytes_eq_iff x y), differs_from→Every x ys both.1)

pairwise_different→Apart : (xs : List Bytes) → pairwise_different xs ≡ true → Apart xs
unfolding pairwise_different
pairwise_different→Apart [] h = tt
pairwise_different→Apart (x ∷ xs) h =
    let both = &&-eq_true (differs_from x xs) (pairwise_different xs) h in
    (differs_from→Every x xs both.0, pairwise_different→Apart xs both.1)

abbrev suffixes : List Bytes
suffixes =
    codes "command"
    ∷ codes "getInfoCommand"
    ∷ codes "updateFwCommand"
    ∷ codes "response"
    ∷ codes "getInfoResponse"
    ∷ codes "updateFwResponse"
    ∷ codes "pairing"
    ∷ []

suffixes-Apart : Apart suffixes
unfolding pairwise_different differs_from bytes_eq
suffixes-Apart = pairwise_different→Apart suffixes refl

suffixes_short : Every (λ s. length s ≤ 31) suffixes
suffixes_short = ground arith

module _ (base : Bytes) (h : length base ≤ 127) where
  Every-topic :
      (s : Bytes) (ts : List Bytes)
      → length s ≤ 31
      → Every (λ t. length t ≤ 31) ts
      → Every (λ t. s ≢ t) ts
      → Every (λ t. set_topic base s ≢ t) (map (set_topic base) ts)
  Every-topic s [] k l a = tt
  Every-topic s (t ∷ ts) k l a = (topics_differ base s t h k l.0 a.0, Every-topic s ts k l.1 a.1)

  Apart-topics :
      (ts : List Bytes) → Every (λ t. length t ≤ 31) ts → Apart ts → Apart (map (set_topic base) ts)
  Apart-topics [] l a = tt
  Apart-topics (t ∷ ts) l a = (Every-topic t ts l.0 l.1 a.0, Apart-topics ts l.1 a.1)

abbrev pub all_topics : MqttIdentity → List Bytes
all_topics T =
    T.command_topic ∷ T.get_info_command_topic ∷ T.update_fw_command_topic ∷ T.response_topic
    ∷ T.get_info_response_topic ∷ T.update_fw_response_topic ∷ T.pairing_topic ∷ []

-- Whatever the stored identity is, the seven topics that `build_mqtt_identity` makes of it are
-- pairwise different: no message on one of them is taken for one on another.
pub build_mqtt_identity-Apart :
    (source_terminal_id device_type device_id iot_endpoint : Bytes)
    → Apart (all_topics (build_mqtt_identity source_terminal_id device_type device_id iot_endpoint))
unfolding build_mqtt_identity
build_mqtt_identity-Apart source_terminal_id device_type device_id iot_endpoint =
    Apart-topics (topic_base source_terminal_id device_type device_id)
      (base_short source_terminal_id device_type device_id) suffixes suffixes_short suffixes-Apart
