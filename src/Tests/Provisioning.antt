-- ===== src/Tests/Provisioning.antt =====
-- Provisioning at concrete inputs.
use cything.Prelude.{◌≡◌, refl, true, false, none, some, [], ◌∷◌, pos, arith}
use cything.Prelude.Bytes.{codes, has_prefix, split_byte}
use cything.Provisioning.{
  ProvEnv, Prov, Identity, hs_idle, handle_devid, handle_pfin, handle_prov, reset_handshake,
  provisioning_handle_tcp_line, trim_trailing_ws, ack,
}
use cything.Provisioning.Certificate.{take_chunks, take_chunks_lem}
use cything.Provisioning.Finishing.{provisioning_line_kept, pfin_stale}

-- An outside where everything succeeds and base64 is the text itself.
abbrev pub good : ProvEnv
good = record {
  claim = λ id. none;
  parses = λ pem. true;
  generate_key = some (codes "key");
  write_csr = λ pem. some (codes "csr");
  base64_decode = λ text. some text;
  nvs_ok = λ n. true;
}

abbrev lamp : Identity
lamp = record {
  device_id = codes "lamp-1";
  source_terminal_id = codes "home";
  iot_endpoint = codes "iot";
  cert_pem = codes "old";
}

abbrev pub provisioned : Prov
provisioned = record {
  active = true;
  state = hs_idle;
  pending_source_terminal_id = [];
  pending_iot_endpoint = [];
  pending_device_id = [];
  cert_b64 = [];
  cert_total_chunks = pos 0;
  cert_next_seq = pos 1;
  identity = lamp;
  key_pem = codes "key";
  nvs = lamp;
  nvs_opkey = some (codes "key");
  rebooting = false;
}

take_chunks_lem_example :
    (take_chunks good 1 2
      (codes "ab" ∷ codes "cd" ∷ [])
      (handle_devid (codes "lamp-2") provisioned).0).identity.cert_pem
    ≡ codes "abcd"
take_chunks_lem_example =
    take_chunks_lem good (codes "lamp-2") (codes "ab") (codes "cd" ∷ []) (codes "abcd") provisioned
      (omega arith) refl (omega arith)

provisioning_line_kept_example :
    ((handle_prov (codes "attic,lamp,iot2") provisioned).0.nvs ≡ lamp)
    × ((handle_prov (codes "attic,lamp,iot2") provisioned).0.rebooting ≡ false)
unfolding provisioning_handle_tcp_line has_prefix trim_trailing_ws handle_prov split_byte
provisioning_line_kept_example =
    provisioning_line_kept good (codes "PROV:attic,lamp,iot2\n") provisioned
      (handle_prov (codes "attic,lamp,iot2") provisioned).0 ack refl refl

pfin_stale_example :
    (handle_pfin good (handle_devid (codes "lamp-2") provisioned).0).0
    ≡ record (reset_handshake provisioned) {
      identity = record {
        device_id = codes "lamp-2";
        source_terminal_id = [];
        iot_endpoint = [];
        cert_pem = codes "old";
      };
      nvs = record {
        device_id = codes "lamp-2";
        source_terminal_id = [];
        iot_endpoint = [];
        cert_pem = codes "old";
      };
      rebooting = true;
    }
pfin_stale_example =
    pfin_stale good (codes "lamp-2") provisioned (λ n. refl) (omega arith) (omega arith)
      (omega arith) (omega arith) (omega arith)
