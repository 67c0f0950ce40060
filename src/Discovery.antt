-- ===== src/Discovery.antt =====
-- How the device is found: the scan reply over UDP of src/udp_socket/udp_response_handler.c and
-- udp_server.c, the mDNS service of src/mdns/mdns_discovery.c, and the names of
-- src/wifi/wifi_info_handler.c.
pub mod Reply
pub mod Service
use cything.Prelude.{
  ℕ, ◌+◌, ◌-◌, ◌/◌, ◌%◌, Bool, true, false, ◌&&◌, not, Option, none, some, List, [], ◌∷◌, ◌++◌, ltb,
  leb, if◌then◌else◌, length, take, map,
}
use cything.Prelude.Bytes.{Bytes, codes, decimal, has_prefix}

-- What `provisioning_get_scan_fields` gives: the ids are empty and the state is "unprovisioned" on a
-- device without an identity.
pub record ScanFields : Type 0 where
  pub source_terminal_id : Bytes
  pub device_id : Bytes
  pub provision_state : Bytes

unfoldable pub scan_fields : Bool → Bytes → Bytes → ScanFields
scan_fields is_active source_terminal_id device_id =
    if is_active
    then record {
      source_terminal_id = take 39 source_terminal_id;
      device_id = take 39 device_id;
      provision_state = codes "claimed";
    }
    else record { source_terminal_id = []; device_id = []; provision_state = codes "unprovisioned" }

-- The configuration and the state that the texts report. `address` has the four bytes of `device_ip`.
pub record Facts : Type 0 where
  pub address : ℕ × (ℕ × (ℕ × ℕ))
  pub is_active : Bool
  pub source_terminal_id : Bytes
  pub device_id : Bytes
  pub device_name : Bytes
  pub device_type : Bytes
  pub firmware_version : Bytes
  pub hardware_version : Bytes
  pub channel_tag : Bytes
  pub claim_present : Bool
  pub password_set : Bool
  pub paired_count : ℕ
  pub mac : ℕ × (ℕ × ℕ)

-- `get_device_wifi_info`: `sprintf` with IPSTR, "%d.%d.%d.%d".
unfoldable pub device_wifi_info : ℕ × (ℕ × (ℕ × ℕ)) → Bytes
unfolding decimal
device_wifi_info a =
    decimal a.0
    ++ (b'.' ∷ (decimal a.1.0 ++ (b'.' ∷ (decimal a.1.1.0 ++ (b'.' ∷ decimal a.1.1.1)))))

-- The capabilities, in 40 bytes that hold all of them, with LOCAL_AUTH_ENFORCE on.
unfoldable pub provisioning_caps : Bool → Bool → Bytes
provisioning_caps claim_present password_set =
    codes "pake"
    ++ ((if claim_present then codes "|claim" else [])
        ++ ((if password_set then codes "|authreq" else codes "|nopw") ++ codes "|email"))

-- The nine fields of the reply.
unfoldable pub reply_fields : Facts → List Bytes
unfolding scan_fields device_wifi_info provisioning_caps
reply_fields f =
    let s = scan_fields f.is_active f.source_terminal_id f.device_id in
    device_wifi_info f.address
    ∷ s.source_terminal_id
    ∷ f.device_name
    ∷ f.device_type
    ∷ s.device_id
    ∷ s.provision_state
    ∷ f.firmware_version
    ∷ f.hardware_version
    ∷ provisioning_caps f.claim_present f.password_set
    ∷ []

-- The fields as "%s,%s,…".
unfoldable pub join_fields : List Bytes → Bytes
join_fields [] = []
join_fields (s ∷ []) = s
join_fields (s ∷ t ∷ rest) = s ++ (b',' ∷ join_fields (t ∷ rest))

-- `udp_get_info_response` into a buffer: the bytes before the NUL, and the length that it returns.
unfoldable pub udp_get_info_response : Facts → ℕ → Bytes × ℕ
unfolding reply_fields join_fields
udp_get_info_response f reply_size =
    let text = join_fields (reply_fields f) in
    (
      take (reply_size - 1) text,
      if leb reply_size (length text) then reply_size - 1 else length text,
    )

-- `processData`, with the part of the scan command that has to match: the reply, or none.
unfoldable pub process_data : Bytes → Bytes → Facts → ℕ → Option (Bytes × ℕ)
unfolding has_prefix udp_get_info_response
process_data rx command f reply_size =
    if has_prefix rx command then some (udp_get_info_response f reply_size) else none

-- A hexadecimal digit as "%X" prints it.
abbrev hex_digit : ℕ → ℕ
hex_digit n = if ltb n 10 then b'0' + n else b'A' + (n - 10)

abbrev hex_byte : ℕ → Bytes
hex_byte n = hex_digit (n / 16) ∷ hex_digit (n % 16) ∷ []

-- `wifi_get_unit_suffix` from the last three bytes of the address, and `wifi_get_ap_ssid` into a
-- buffer.
unfoldable pub unit_suffix : ℕ × (ℕ × ℕ) → Bytes
unit_suffix mac = hex_byte mac.0 ++ (hex_byte mac.1.0 ++ hex_byte mac.1.1)

unfoldable pub ap_ssid : Bytes → ℕ × (ℕ × ℕ) → ℕ → Bytes
unfolding unit_suffix
ap_ssid prefix mac size = take (size - 1) (prefix ++ unit_suffix mac)

-- The value of a flag in the TXT record.
abbrev flag : Bool → Bytes
flag b = if b then codes "1" else codes "0"

-- `build_txt`, with the tag as `load_channel_tag` cut it.
unfoldable pub build_txt : Bytes → Facts → List (Bytes × Bytes)
unfolding scan_fields
build_txt tag f =
    (codes "id", (scan_fields f.is_active f.source_terminal_id f.device_id).device_id)
    ∷ (codes "ch", tag)
    ∷ (codes "v", f.firmware_version)
    ∷ (codes "type", f.device_type)
    ∷ (codes "paired", flag (ltb 0 f.paired_count))
    ∷ (codes "pw", flag f.password_set)
    ∷ (codes "prov", flag f.is_active)
    ∷ []

-- `s_started` and `s_tag`, and what the responder holds: how often it was set up, and the TXT record of
-- its service, if it has one.
pub record Mdns : Type 0 where
  pub started : Bool
  pub tag : Bytes
  pub responders : ℕ
  pub service : Option (List (Bytes × Bytes))

-- The outcomes of `mdns_init`, of the setting up of the service, and of `mdns_service_txt_set`.
pub record MdnsEnv : Type 0 where
  pub init_ok : Bool
  pub setup_ok : Bool
  pub txt_ok : Bool

-- `mdns_discovery_start`.
unfoldable pub mdns_start : MdnsEnv → Facts → Mdns → Mdns
unfolding build_txt
mdns_start env f m =
    let tag = take 16 f.channel_tag in
    if m.started
    then m
    else if not env.init_ok
    then record m { tag = tag }
    else if not env.setup_ok
    then record m { tag = tag; service = none }
    else record {
      started = true;
      tag = tag;
      responders = m.responders + 1;
      service = some (build_txt tag f);
    }

-- `mdns_discovery_refresh`.
unfoldable pub mdns_refresh : MdnsEnv → Facts → Mdns → Mdns
unfolding build_txt
mdns_refresh env f m =
    if m.started && env.txt_ok then record m { service = some (build_txt m.tag f) } else m
