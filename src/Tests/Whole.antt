-- ===== src/Tests/Whole.antt =====
-- A line through all handlers, and the scan reply, at concrete inputs.
use cything.Prelude.{◌++◌, ◌≤◌, ◌<◌, ◌≡◌, refl, arith, inr, true, false, [], ◌∷◌, pos, length}
use cything.Prelude.Bytes.{Bytes, codes, has_prefix, decimal, digits}
use cything.Password
use cything.Device.{Device, send}
use cything.Policy.{is_handshake, is_public, sock_encrypted}
use cything.Session.{find}
use cything.Dispatch.{refused}
use cything.WifiPairing.{default_prefixes}
use cything.Handling.{Node, NodeEnv, dispatch_line}
use cything.Handling.Protected.{dispatch_line-refused}
use cything.Discovery.{
  Facts, udp_get_info_response, reply_fields, join_fields, scan_fields, device_wifi_info,
  provisioning_caps,
}
use cything.Discovery.Reply.{fields, IsPlain, udp_get_info_response_lem}
use cything.Tests.{echo, device, owner_session}
use cything.Tests.Provisioning.{good, provisioned}
use cything.Tests.Pairing.{quiet, interrupted}

abbrev outside : NodeEnv
outside = record {
  env = echo;
  prov = good;
  prefixes = default_prefixes;
  flash = record { ok = λ n. true; behind_mode = [] };
  app = λ line sock c. (c, false);
}

-- The owner's phone sends in the clear.
abbrev bare : Device
bare = record device { pool = record owner_session { rx_encrypted = false } ∷ [] }

abbrev node : Node
node = record {
  device = bare;
  prov = provisioned;
  pairing = interrupted;
  clients = quiet;
  firmware_url = [];
  ota_tasks = [];
}

dispatch_line-refused_example :
    (text : Bytes) × (dispatch_line outside (codes "updatingcommhttp://x") (pos 4) node
      ≡ (record node { device = send (pos 4) text bare }, refused))
unfolding is_handshake is_public Password.is_set has_prefix sock_encrypted find
dispatch_line-refused_example =
    dispatch_line-refused outside (codes "updatingcommhttp://x") (pos 4) node refl refl (inr refl)

abbrev facts : Facts
facts = record {
  address = (10, (0, (0, 7)));
  is_active = false;
  source_terminal_id = [];
  device_id = [];
  device_name = codes "Lamp";
  device_type = codes "lamp";
  firmware_version = codes "1";
  hardware_version = codes "2";
  channel_tag = [];
  claim_present = false;
  password_set = true;
  paired_count = 0;
  mac = (0, (1, 2));
}

facts-IsPlain : IsPlain facts
facts-IsPlain = record {
  source_terminal_id = tt;
  device_id = tt;
  device_name = ground arith;
  device_type = ground arith;
  firmware_version = ground arith;
  hardware_version = ground arith;
}

udp_get_info_response_lem_example :
    (length (join_fields (reply_fields facts)) < 512
      → fields (udp_get_info_response facts 512).0 ≡ reply_fields facts)
    × (512 ≤ length (join_fields (reply_fields facts))
        → (length (udp_get_info_response facts 512).0 ≡ 511)
          × ((rest : Bytes) × (udp_get_info_response facts 512).0 ++ rest
                ≡ join_fields (reply_fields facts)))
    × (length (udp_get_info_response facts 512).0 ≡ (udp_get_info_response facts 512).1)
udp_get_info_response_lem_example = udp_get_info_response_lem facts 512 facts-IsPlain (omega arith)

reply_text :
    (udp_get_info_response facts 512).0
    ≡ codes "10.0.0.7,,Lamp,lamp,,unprovisioned,1,2,pake|authreq|email"
unfolding udp_get_info_response join_fields reply_fields scan_fields device_wifi_info
    provisioning_caps decimal digits
reply_text = refl
