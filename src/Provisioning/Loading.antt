-- ===== src/Provisioning/Loading.antt =====
-- provisioning_init of src/aws/provisioning.c: the identity that a boot finds.
use cything.Prelude.{Bool, true, false, ◌&&◌, Option, none, some, []}
use cything.Prelude.Bytes.{Bytes}
use cything.Provisioning.{Identity, trim_trailing_ws}

-- The five values in NVS that `provisioning_init` reads, where `nvs_get_string` finds them.
pub record Nvs : Type 0 where
  pub device_id : Option Bytes
  pub source_terminal_id : Option Bytes
  pub iot_endpoint : Option Bytes
  pub cert_pem : Option Bytes
  pub key_pem : Option Bytes

abbrev is_there : Option Bytes → Bool
is_there none = false
is_there (some s) = true

abbrev text_of : Option Bytes → Bytes
text_of none = []
text_of (some s) = s

-- `provisioning_init`: whether the device is provisioned, and its identity.
unfoldable pub provisioning_init : Nvs → Bool × Identity
unfolding trim_trailing_ws
provisioning_init n = (
  is_there n.device_id
      && (is_there n.source_terminal_id
          && (is_there n.iot_endpoint && (is_there n.cert_pem && is_there n.key_pem))),
  record {
    device_id = trim_trailing_ws (text_of n.device_id);
    source_terminal_id = trim_trailing_ws (text_of n.source_terminal_id);
    iot_endpoint = trim_trailing_ws (text_of n.iot_endpoint);
    cert_pem = text_of n.cert_pem;
  },
)
