-- ===== src/Handling.antt =====
-- tcp_dispatch_line of src/tcp_server/tcp_command.c with all the handlers of a line: those that
-- Dispatch has, and behind them provisioning, the firmware update, Wi-Fi pairing and the application.
pub mod Protected
use cything.Prelude.{
  ℕ, ◌-◌, ◌+◌, Bool, true, false, Option, none, some, List, [], ◌∷◌, ◌++◌, ℤ, ltb, length,
  if◌then◌else◌, take, drop,
}
use cything.Prelude.Bytes.{Bytes, codes, has_prefix}
use cything.Device.{Env, Device, send}
use cything.Policy.{allow}
use cything.Dispatch.{Outcome, dropped, refused, handled, passed_on, handlers}
use cything.Clients.{Clients, send_raw_to_client}
use cything.Provisioning.{Prov, ProvEnv, provisioning_handle_tcp_line}
use cything.WifiPairing.{Pairing, Prefixes, pairing_handle_line}
use cything.WifiFlash.{FlashEnv}

-- The size of `firmwareUrl`.
abbrev pub firmware_url_size : ℕ
firmware_url_size = 4096

-- What the handlers change, and the sockets for which an update task was created.
pub record Node : Type 0 where
  pub device : Device
  pub prov : Prov
  pub pairing : Pairing
  pub clients : Clients
  pub firmware_url : Bytes
  pub ota_tasks : List ℤ

-- What the handlers take from outside. `app` is `app_command_handle_line`, which may reply.
pub record NodeEnv : Type 0 where
  pub env : Env
  pub prov : ProvEnv
  pub prefixes : Prefixes
  pub flash : FlashEnv
  pub app : Bytes → ℤ → Clients → Clients × Bool

-- `ota_handle_line`.
unfoldable pub ota_handle_line : Bytes → ℤ → Node → Option Node
unfolding has_prefix send_raw_to_client
ota_handle_line line sock n =
    let reply = λ (text : Bytes). send_raw_to_client sock text n.clients in
    if has_prefix line (codes "startupdatecomm")
    then some (record n { clients = reply (codes "startupdateres") })
    else if has_prefix line (codes "credentialcomm")
    then some (record n { clients = reply (codes "credentialres") })
    else if has_prefix line (codes "updatingcomm")
    then some (record n {
      firmware_url = take (firmware_url_size - 1) (drop 12 line);
      ota_tasks = n.ota_tasks ++ (sock ∷ []);
      clients = reply (codes "updating:2");
    })
    else none

-- Wi-Fi pairing, and the application behind it.
unfoldable pub last_handlers : NodeEnv → Bytes → ℤ → Node → Node × Outcome
unfolding pairing_handle_line
last_handlers E line sock n =
    let (pairing, clients, taken) =
      pairing_handle_line E.prefixes E.flash line sock n.pairing n.clients in
    let (clients', claimed) = E.app line sock n.clients in
    if taken
    then (record n { pairing = pairing; clients = clients }, handled)
    else (record n { clients = clients' }, if claimed then handled else dropped)

-- `send_line` of src/aws/provisioning.c: in the clear, in one packet where the line fits 64 bytes.
unfoldable pub prov_send : ℤ → Bytes → Device → Device
prov_send sock text d =
    if ltb (length text + 1) 64
    then send sock (text ++ codes "\n") d
    else send sock (codes "\n") (send sock text d)

-- The handlers behind the security modules.
unfoldable pub later_handlers : NodeEnv → Bytes → ℤ → Node → Node × Outcome
unfolding provisioning_handle_tcp_line ota_handle_line last_handlers prov_send
later_handlers E line sock n = elim (provisioning_handle_tcp_line E.prov line n.prov) [
  | some r ↦ (record n { prov = r.0; device = prov_send sock r.1 n.device }, handled)
  | none ↦ elim (ota_handle_line line sock n) [
    | some n' ↦ (n', handled)
    | none ↦ last_handlers E line sock n
  ]
]

-- After the access policy.
unfoldable pub all_handlers : NodeEnv → Bytes → ℤ → Node → Node × Outcome
unfolding handlers later_handlers
all_handlers E line sock n =
    let r = handlers E.env line sock n.device in
    let n' = record n { device = r.0 } in
    elim r.1 [
      | dropped ↦ (n', dropped)
      | refused ↦ (n', refused)
      | handled ↦ (n', handled)
      | passed_on ↦ later_handlers E line sock n'
    ]

-- `tcp_dispatch_line`.
unfoldable pub dispatch_line : NodeEnv → Bytes → ℤ → Node → Node × Outcome
unfolding allow all_handlers
dispatch_line E line sock n =
    let r = allow E.env line sock n.device in
    let n' = record n { device = r.0 } in if r.1 then all_handlers E line sock n' else (n', refused)
