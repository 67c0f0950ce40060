-- ===== src/Lib.antt =====
-- The local link of the cything firmware library, modelled and verified: how lines come in over TCP
-- and replies go out, who may send a line, how a phone pairs, enrols and authenticates, how lines are
-- encrypted, what the owner can do, how the device gets its Wi-Fi credentials over TCP and over
-- Bluetooth LE, how it gets its identity in the cloud and talks to it over MQTT, what its scan beacon
-- says, and how power cycling resets it.
--
-- The parts and their files:
-- - Fifo: src/common/response_fifo.c. Fifo is response_fifo_t; init, push, drain and is_empty are
--   response_fifo_init, _push, _drain and _is_empty. Fifo/Blocks has lemmas on blocks of bytes.
-- - Session: src/security/local_session.c, the pool of eight connection slots; acquire, find, release,
--   on_paired_removed, reset_handshake, drop_all_auth, count and shutdown_peer are local_session_ with
--   those names. A pointer to a slot is its index.
-- - Paired: src/security/paired_list.c, the accounts with their keys in RAM and in flash; init, find,
--   get, add, remove, rotate_owner_key and clear are paired_list_ with those names.
-- - Password: src/security/device_password.c, the password verifier and the lockout; set_password is
--   device_password_set, the others have the source's names.
-- - Events: src/security/pairing_events.c, the queue of events for the cloud.
-- - Device: the state that the handlers share, and Env, the record of what they call outside src/.
-- - Frame: src/security/enc_frame.c; unwrap is enc_frame_unwrap, frame_send is enc_frame_send, and
--   send_line is security_send_line of src/security/pake_handler.c.
-- - Policy: src/security/access_policy.c; allow is access_policy_allow.
-- - Pake: src/security/pake_handler.c; Auth: src/security/local_auth.c; Owner:
--   src/security/owner_commands.c. Each has one function for each handler, and the entry that
--   recognises its lines.
-- - Dispatch: tcp_dispatch_line of src/tcp_server/tcp_command.c, the handling of a complete line in
--   src/tcp_server/tcp_client_recv.c, and the taking and giving back of slots by the TCP server.
-- - Framing: the loop of tcp_client_recv_task of src/tcp_server/tcp_client_recv.c, from bytes to lines.
-- - Clients: src/tcp_server/tcp_client_list.c, the registry of clients, the producers and the sending
--   task; accept is what tcp_server_task of src/tcp_server/tcp_server.c does with a new connection, and
--   next_id is update_response_id. The other functions have the source's names.
-- - WifiFlash: src/memory_handler/flash_wifi_info_handler.c. WifiPairing: src/tcp_server/pairing.c.
-- - BlePairing: src/ble/ble_pairing.c; write_ssid, write_pass and write_ctrl are the cases of
--   gatt_access, commit_begin, commit_tried and commit_store the parts of ble_commit_task between its
--   waits, and step a callback (on_sync among them) or such a part. BlePairing/Trial: src/wifi/wifi_trial.c.
-- - Provisioning: src/aws/provisioning.c; handle_prov, handle_csrreq, handle_devid, handle_cert and
--   handle_pfin are the parts of provisioning_handle_tcp_line.
-- - Mqtt: src/aws/aws_iot_handler.c. The table of publishes and publish_to_topic stand in Mqtt, the
--   topics of build_mqtt_identity in Mqtt/Topics, event_callback and its handlers in Mqtt/Incoming,
--   process_loop_with_timeout and wait_for_packet_ack in Mqtt/Polling, connecting and subscribing in
--   Mqtt/Connecting, where open_session is the part of aws_iot_task from the connection to its loop, and
--   Mqtt/Connecting/Sessions has handlePublishResend and the start of a session.
-- - Beacon: src/ble/ble_beacon.c and src/ble/discovery_mode.c; step has a clause for each callback.
-- - PowerCycle: src/common/reset_handler.c and src/memory_handler/flash_reset_handler.c; reset_handler
--   is one boot.
-- - Station: event_handler of src/wifi/station_mode.c and the steps of wifi_init_sta after the first
--   address. Discovery: src/udp_socket/udp_response_handler.c, processData of udp_server.c, build_txt
--   and the service of src/mdns/mdns_discovery.c, the names of src/wifi/wifi_info_handler.c.
-- - Handling: tcp_dispatch_line with all the handlers, of which Dispatch has the security modules'.
-- - Prelude: lists, integers, bytes and tests over the native numbers. Tests: the theorems at concrete
--   inputs.
--
-- A line goes from Dispatch.receive through Frame.unwrap and Policy.allow to Pake, Auth and Owner,
-- which change Session, Paired, Password and Events and reply through Frame. Framing cuts the lines
-- out of the stream. WifiPairing and the application reply through Clients, whose lines wait in a Fifo
-- and leave through Frame; WifiPairing and BlePairing store through WifiFlash. Clients also fills the
-- FIFO that Mqtt drains, and the owner commands the Events that Mqtt publishes.
--
-- Bounds: bytes are natural numbers, strings are without their NUL, arrays are lists of the source's
-- size, 64-bit counters wrap by % 2 ^ 64, counters of failures stop at 255. Times in microseconds do
-- not overflow. Loops are structural, or take a count of rounds that is the number of rows left, one
-- of which each round handles. The loops of Mqtt run on fuel: a round takes some
-- time, so more rounds than the timeout has nanoseconds are enough; and one attempt more than
-- backoffAlgorithm allows retries. A device first boots with nothing in flash, a paired list that cannot
-- be used, or a valid one of the present or the former format.
--
-- Parameters: base64, AES-256-GCM, HMAC, SRP, random bytes, clocks and the outcome of each call of
-- a flash driver, and in provisioning the claim's answer to REQID. A write that fails leaves the
-- flash as it was. In Mqtt, coreMQTT with its clock is CoreMqtt, TLS and backoffAlgorithm are Link, and
-- a slot of the table holds the bytes of its payload where the source keeps a pointer. Assertions are taken to be off. Each handler runs as one step, which is what the modules' mutexes and the one
-- task for each connection give; interleavings inside a handler are not modelled. The commit task
-- of BLE pairing is several steps.
--
-- Not modelled: the endless loop of aws_iot_task around a session and initializeMqtt; sockets,
-- the download of firmware and the bring-up of Wi-Fi and Bluetooth (input and output), and the copies of coreMQTT and
-- backoffAlgorithm (third-party). A
-- registry that changes while the sending task works through one drain, and a line of pairing on
-- two connections at once, are not modelled either.
pub mod Prelude
pub mod Fifo
pub mod Framing
pub mod Session
pub mod Paired
pub mod Password
pub mod Events
pub mod Device
pub mod Frame
pub mod Policy
pub mod Pake
pub mod Auth
pub mod Owner
pub mod Dispatch
pub mod Clients
pub mod WifiFlash
pub mod WifiPairing
pub mod BlePairing
pub mod Mqtt
pub mod Beacon
pub mod PowerCycle
pub mod Station
pub mod Discovery
pub mod Handling
pub mod Provisioning
mod Tests
