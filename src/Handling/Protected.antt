-- ===== src/Handling/Protected.antt =====
-- What a line can reach through tcp_dispatch_line of src/tcp_server/tcp_command.c.
use cything.Prelude.{Bool-cases, ◌≡◌, refl, ◌⊎◌, inl, inr, true, false, ℤ}
use cything.Prelude.Bytes.{codes, Bytes}
use cything.Device.{send}
use cything.Policy.{is_handshake, is_public, sock_authenticated, sock_encrypted}
use cything.Policy.Gate.{allow_lem}
use cything.Dispatch.{refused}
use cything.Handling.{codes, Node, NodeEnv, dispatch_line}

-- On a device with a password, a line that is neither a handshake line nor public and does not come
-- encrypted over an authenticated session reaches no handler at all: not the owner commands, not
-- provisioning, not the firmware update, not Wi-Fi pairing and not the application. All that happens
-- is one packet to its sender.
pub dispatch_line-refused :
    (E : NodeEnv) (line : Bytes) (sock : ℤ) (n : Node)
    → is_handshake line ≡ false
    → is_public E.env line n.device ≡ false
    → (sock_authenticated sock n.device ≡ false) ⊎ (sock_encrypted sock n.device ≡ false)
    → (text : Bytes) × (dispatch_line E line sock n
        ≡ (record n { device = send sock text n.device }, refused))
unfolding dispatch_line
dispatch_line-refused E line sock n h q out =
    let gate = allow_lem E.env line sock n.device h q in
    elim (Bool-cases (sock_authenticated sock n.device)) [
      | inr a ↦ (codes "ERR:AUTH\n", rw (dispatch_line, gate, a) refl)
      | inl a ↦ elim (Bool-cases (sock_encrypted sock n.device)) [
        | inr c ↦ (codes "ERR:ENC\n", rw (dispatch_line, gate, a, c) refl)
        | inl c ↦ absurd (through a c out)
      ]
    ]
  where
    through :
        sock_authenticated sock n.device ≡ true
        → sock_encrypted sock n.device ≡ true
        → (sock_authenticated sock n.device ≡ false) ⊎ (sock_encrypted sock n.device ≡ false)
        → ⊥
    through a c (inl not_yet) = cc
    through a c (inr plain) = cc
