-- ===== src/Provisioning/Finishing.antt =====
-- What PFIN of src/aws/provisioning.c commits.
use mathlib.Core.Path.{subst}
use cything.Prelude.{
  take_of-le, if◌then◌else◌, drop, take, ◌-◌, ℕ, ◌≡◌, ◌≤◌, ◌<◌, refl, arith, Bool, true, false,
  Option, none, some, length, ◌==◌,
}
use cything.Prelude.Bytes.{Bytes, codes, has_prefix}
use cything.Provisioning.{
  ack, trim_trailing_ws, Prov, ProvEnv, provisioning_handle_tcp_line, handle_prov, handle_csrreq,
  handle_devid, handle_cert, handle_pfin, take_chunk, decode_cert, reset_handshake,
  load_or_generate_keypair, build_csr_base64, new_identity, store_identity, is_receiving,
  device_id_max, source_terminal_id_max, endpoint_max,
}

kept_csrreq :
    (env : ProvEnv) (p : Prov)
    → ((handle_csrreq env p).0.nvs ≡ p.nvs) × ((handle_csrreq env p).0.rebooting ≡ p.rebooting)
unfolding handle_csrreq build_csr_base64 load_or_generate_keypair
kept_csrreq env p = ground arith

kept_cert :
    (env : ProvEnv) (rest : Bytes) (p : Prov)
    → ((handle_cert env rest p).0.nvs ≡ p.nvs)
      × ((handle_cert env rest p).0.rebooting ≡ p.rebooting)
unfolding handle_cert take_chunk decode_cert reset_handshake
kept_cert env rest p = ground arith

kept_prov :
    (rest : Bytes) (p : Prov)
    → ((handle_prov rest p).0.nvs ≡ p.nvs) × ((handle_prov rest p).0.rebooting ≡ p.rebooting)
unfolding handle_prov
kept_prov rest p = ground arith

-- A result that leaves what NVS holds and arms no reboot.
abbrev Kept : Prov → Option (Prov × Bytes) → Type 0
Kept p none = Unit
Kept p (some r) = (r.0.nvs ≡ p.nvs) × (r.0.rebooting ≡ p.rebooting)

Kept-if :
    (p : Prov) (test : Bool) (x y : Option (Prov × Bytes))
    → Kept p x
    → Kept p y
    → Kept p (if test then x else y)
Kept-if p true x y h k = h
Kept-if p false x y h k = k

Kept-claim :
    (p : Prov) (claim : Option Bytes)
    → Kept p (elim claim [ none ↦ some (p, ack) | some reply ↦ some (p, reply) ])
Kept-claim p none = (refl, refl)
Kept-claim p (some reply) = (refl, refl)

Kept-line :
    (env : ProvEnv) (raw : Bytes) (p : Prov)
    → has_prefix raw (codes "PFIN") ≡ false
    → Kept p (provisioning_handle_tcp_line env raw p)
unfolding provisioning_handle_tcp_line handle_devid
Kept-line env raw p n =
    let line = trim_trailing_ws raw in
    Kept-if p (has_prefix raw (codes "REQID:")) _ _ (Kept-claim p (env.claim (drop 6 line))) (
      Kept-if p (has_prefix raw (codes "PROV:")) _ _ (kept_prov (drop 5 line) p) (
        Kept-if p (has_prefix raw (codes "CSRREQ")) _ _ (kept_csrreq env p) (
          Kept-if p (has_prefix raw (codes "DEVID:")) _ _ (refl, refl)
            (Kept-if p (has_prefix raw (codes "CERT:")) _ _ (kept_cert env (drop 5 line) p)
              (rw n tt)))))

-- The identity in NVS changes, and a reboot is armed, by PFIN only: every other line of provisioning,
-- in whatever state and order and with whatever outcome, leaves both as they are.
pub provisioning_line_kept :
    (env : ProvEnv) (raw : Bytes) (p p' : Prov) (reply : Bytes)
    → provisioning_handle_tcp_line env raw p ≡ some (p', reply)
    → has_prefix raw (codes "PFIN") ≡ false
    → (p'.nvs ≡ p.nvs) × (p'.rebooting ≡ p.rebooting)
provisioning_line_kept env raw p p' reply e n = subst (Kept p) e (Kept-line env raw p n)

-- After DEVID, PFIN commits although no certificate came: on a device that has one from before,
-- with NVS in order, an id that is not empty, and texts that fit their fields, it stores the new id
-- with that certificate and with whatever channel and endpoint are pending, and reboots into it.
pub pfin_stale :
    (env : ProvEnv) (id : Bytes) (p : Prov)
    → ((n : ℕ) → env.nvs_ok n ≡ true)
    → 1 ≤ length id
    → length id < device_id_max
    → 1 ≤ length p.identity.cert_pem
    → length p.pending_source_terminal_id < source_terminal_id_max
    → length p.pending_iot_endpoint < endpoint_max
    → (handle_pfin env (handle_devid id p).0).0 ≡ record (reset_handshake p) {
      identity = record {
        device_id = id;
        source_terminal_id = p.pending_source_terminal_id;
        iot_endpoint = p.pending_iot_endpoint;
        cert_pem = p.identity.cert_pem;
      };
      nvs = record {
        device_id = id;
        source_terminal_id = p.pending_source_terminal_id;
        iot_endpoint = p.pending_iot_endpoint;
        cert_pem = p.identity.cert_pem;
      };
      rebooting = true;
    }
unfolding handle_pfin handle_devid new_identity store_identity reset_handshake is_receiving
pfin_stale env id p ok l m c s t =
    rw (whole, whole, some_id, some_cert, ok 0, ok 1, ok 2, ok 3, channel, endpoint) refl
  where
    whole : take (device_id_max - 1) id ≡ id
    whole = take_of-le (device_id_max - 1) id (omega (arith, m))

    channel :
        take (source_terminal_id_max - 1) p.pending_source_terminal_id
        ≡ p.pending_source_terminal_id
    channel =
        take_of-le (source_terminal_id_max - 1) p.pending_source_terminal_id (omega (arith, s))

    endpoint : take (endpoint_max - 1) p.pending_iot_endpoint ≡ p.pending_iot_endpoint
    endpoint = take_of-le (endpoint_max - 1) p.pending_iot_endpoint (omega (arith, t))

    some_cert : (length p.identity.cert_pem == 0) ≡ false
    some_cert = ground (arith, c)

    some_id : (length id == 0) ≡ false
    some_id = ground (arith, l)
