-- ===== src/Dispatch.antt =====
-- src/tcp_server/tcp_command.c, the line handling of src/tcp_server/tcp_client_recv.c, and the
-- connections of src/tcp_server/tcp_server.c as far as the security modules are concerned. The
-- handlers behind these (provisioning, OTA, Wi-Fi pairing, the application), which Handling has,
-- see a line that is passed on, and change nothing of this state.
pub mod Invariant
pub mod Slots
pub mod Handshakes
pub mod Accounts
pub mod Owners
pub mod Runs
use cything.Prelude.{ℕ, none, some, ℤ, if◌then◌else◌}
use cything.Prelude.Bytes.{Bytes}
use cything.Session
use cything.Device.{Env, Device}
use cything.Frame.{unwrap}
use cything.Policy.{allow}
use cything.Pake.{pake_handle_line}
use cything.Auth.{local_auth_handle_line}
use cything.Owner.{owner_commands_handle_line}

-- What became of a line.
pub data Outcome : Type 0 where
  dropped refused handled passed_on : Outcome

-- The handlers of `tcp_dispatch_line`, in its order.
unfoldable pub handlers : Env → Bytes → ℤ → Device → Device × Outcome
handlers env line sock d = elim (pake_handle_line env line sock d) [
  | some d' ↦ (d', handled)
  | none ↦ elim (local_auth_handle_line env line sock d) [
    | some d' ↦ (d', handled)
    | none ↦ elim (owner_commands_handle_line env line sock d) [
      | some d' ↦ (d', handled)
      | none ↦ (d, passed_on)
    ]
  ]
]

-- `tcp_dispatch_line`.
unfoldable pub dispatch : Env → Bytes → ℤ → Device → Device × Outcome
unfolding handlers
dispatch env line sock d =
    let (d', allowed) = allow env line sock d in
    if allowed then handlers env line sock d' else (d', refused)

-- A complete line, as `tcp_client_recv_task` handles it.
unfoldable pub receive : Env → Bytes → ℤ → Device → Device × Outcome
unfolding dispatch
receive env line sock d =
    let (d', plain) = unwrap env line sock d in
    elim plain [ none ↦ (d', dropped) | some text ↦ dispatch env text sock d' ]

-- A connection is accepted, with its peer's address.
unfoldable pub connect : ℤ → ℕ → Device → Device
connect sock ip d = record d { pool = (Session.acquire sock ip d.pool).0 }

-- A connection ends.
unfoldable pub disconnect : ℤ → Device → Device
disconnect sock d = record d { pool = Session.release sock d.pool }
