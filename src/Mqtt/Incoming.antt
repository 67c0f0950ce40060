-- ===== src/Mqtt/Incoming.antt =====
-- eventCallback and the handlers of incoming publishes of src/aws/aws_iot_handler.c.
use cything.Prelude.{
  length, ℕ, ◌-◌, Option, none, some, List, [], ◌∷◌, ◌++◌, ltb, if◌then◌else◌, take, drop,
}
use cything.Prelude.Bytes.{Bytes, codes, decimal, bytes_eq, has_prefix}
use cything.Clients.{next_id}
use cything.Mqtt.{
  Mqtt, CoreMqtt, Packet, publish_packet, suback, unsuback, pingresp, puback, unknown_packet,
  publish_to_topic, cleanup_with_id,
}
use cything.Mqtt.Topics.{MqttIdentity}

-- `cy_scan_command_len`.
unfoldable pub scan_command_len : ℕ → ℕ
scan_command_len length = if ltb 2 length then length - 2 else length

-- What a get-info reply reports: the configuration, the identity, the station's address, if it has
-- one, and the base64 text of its SSID, if it has one that could be encoded.
pub record Info : Type 0 where
  pub scan_command : Bytes
  pub scan_response : Bytes
  pub source_terminal_id : Bytes
  pub device_type : Bytes
  pub device_id : Bytes
  pub local_ip : Bytes
  pub ssid_b64 : Bytes
  pub hardware_version : Bytes
  pub firmware_version : Bytes

-- The `snprintf` of the get-info reply into its 320 bytes.
unfoldable pub get_info_text : Info → Bytes
get_info_text i = take 319 (
    i.scan_response
    ++ (b','
        ∷ (i.source_terminal_id
            ++ (b','
                ∷ (i.device_type
                    ++ (b','
                        ∷ (i.device_id
                            ++ (b','
                                ∷ (i.local_ip
                                    ++ (b','
                                        ∷ (i.ssid_b64
                                            ++ (b','
                                                ∷ (i.hardware_version
                                                    ++ (b',' ∷ i.firmware_version))))))))))))))

module _ {W : Type 0} (E : CoreMqtt W) (T : MqttIdentity) (info : W → Info) where
  -- `process_aws_iot_get_info_command`: `memcmp` reads the network buffer, not the payload's size.
  unfoldable pub get_info_command : Bytes → Mqtt W → Mqtt W
  unfolding publish_to_topic has_prefix get_info_text scan_command_len
  get_info_command view m =
      let i = info m.world in
      let command = take (scan_command_len (length i.scan_command)) i.scan_command in
      if has_prefix view command
      then (publish_to_topic E T.get_info_response_topic (get_info_text i) m).0
      else m

  -- `process_aws_iot_update_fw_response`. A payload of fewer than 12 bytes that is taken for the last
  -- command makes the length of its `memcpy` negative: the model has no state for what follows.
  unfoldable pub update_fw_command : Bytes → ℕ → Mqtt W → Option (Mqtt W)
  unfolding publish_to_topic has_prefix
  update_fw_command view size m =
      if has_prefix view (codes "startupdatecomm")
      then some (publish_to_topic E T.update_fw_response_topic (codes "startupdateres") m).0
      else if has_prefix view (codes "credentialcomm")
      then some (publish_to_topic E T.update_fw_response_topic (codes "credentialres") m).0
      else if has_prefix view (codes "updatingcomm")
      then (if ltb size 12
          then none
          else some
              (publish_to_topic E T.update_fw_response_topic (codes "updating:2\n")
                (record m { firmware_url = take (size - 12) (drop 12 view) })).0)
      else some m

  -- `mqtt_publish_response` inside the application's hook.
  unfoldable pub publish_response : Bytes → Mqtt W → Mqtt W
  unfolding publish_to_topic next_id decimal
  publish_response text m =
      let id = next_id m.response_id in
      (publish_to_topic E T.response_topic (take 255 (decimal id ++ (b':' ∷ text)))
        (record m { response_id = id })).0

  unfoldable pub publish_responses : List Bytes → Mqtt W → Mqtt W
  unfolding publish_response
  publish_responses [] m = m
  publish_responses (text ∷ texts) m = publish_responses texts (publish_response text m)

  -- `process_aws_iot_command`.
  unfoldable pub app_command : Bytes → ℕ → Mqtt W → Mqtt W
  unfolding publish_responses
  app_command view size m = publish_responses (E.app_command view size m.world).0 m

  -- `handleIncomingPublish`.
  unfoldable pub handle_incoming_publish : Bytes → Bytes → ℕ → Mqtt W → Option (Mqtt W)
  unfolding app_command get_info_command update_fw_command
  handle_incoming_publish topic view size m =
      if bytes_eq topic T.command_topic
      then some (app_command view size m)
      else if bytes_eq topic T.get_info_command_topic
      then some (get_info_command view m)
      else if bytes_eq topic T.update_fw_command_topic
      then update_fw_command view size m
      else some m

  -- `eventCallback`. Of a SUBACK's codes only the first is kept.
  unfoldable pub event_callback : Packet → Mqtt W → Option (Mqtt W)
  unfolding handle_incoming_publish cleanup_with_id
  event_callback (publish_packet topic view size) m = handle_incoming_publish topic view size m
  event_callback (suback id code) m = some (record m { suback_status = code; ack_id = id })
  event_callback (unsuback id) m = some (record m { ack_id = id })
  event_callback pingresp m = some m
  event_callback (puback id) m =
      some (record m { outgoing = cleanup_with_id id m.outgoing; ack_id = id })
  event_callback (unknown_packet kind) m = some m
