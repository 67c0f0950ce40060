-- ===== src/Clients.antt =====
-- src/tcp_server/tcp_client_list.c: the registry of connected clients, the producers of the lines that
-- they receive, and the task that sends these; and the accepting of a connection in
-- src/tcp_server/tcp_server.c. Only the rows in use of the table of sockets are kept.
pub mod Ids
pub mod Targets
pub mod Replies
pub mod Routing
pub mod Accepting
use cything.Prelude.{
  ℕ, suc, ◌+◌, ◌-◌, Bool, true, false, ◌&&◌, ◌||◌, not, Option, none, some, List, [], ◌∷◌, ◌++◌,
  ◌==◌, ltb, leb, if◌then◌else◌, length, take, ℤ, pos, negsuc, ◌==ℤ◌, minus_one,
}
use cything.Prelude.Bytes.{Bytes, codes, decimal, split_byte, digits_value}
use mathlib.Core.Option
use cything.Fifo
use cything.Fifo.{Fifo, fifo_size}
use cything.Session
use cything.Password
use cything.Policy.{sock_authenticated}
use cything.Device.{Env, Device}
use cything.Frame.{frame_send}
use cything.Dispatch.{connect, disconnect}

-- The length of `account_struct_list`, RESPONSE_LINE_MAX, and TCP_CLIENT_MAX of tcp_server.h.
abbrev pub account_list_max : ℕ
account_list_max = 100

abbrev pub response_line_max : ℕ
response_line_max = 256

abbrev pub tcp_client_max : ℕ
tcp_client_max = 3

-- SEND_TO_ALL, SEND_TO_ALL_PUBLIC, RESPONSE_TARGET_ALL and RESPONSE_TARGET_EVERYONE.
abbrev pub send_to_all : ℤ
send_to_all = negsuc 1

abbrev pub send_to_all_public : ℤ
send_to_all_public = negsuc 2

abbrev pub response_target_all : ℤ
response_target_all = pos 0

abbrev pub response_target_everyone : ℤ
response_target_everyone = negsuc 0

-- The file's state and the FIFOs that it feeds.
pub record Clients : Type 0 where
  pub accounts : List ℤ
  pub response_id : ℕ
  pub tcp_response_fifo : Fifo
  pub mqtt_response_fifo : Fifo

unfoldable pub next_id : ℕ → ℕ
next_id id = if leb 255 (id + 1) then 10 else id + 1

unfoldable pub remove_account : ℤ → List ℤ → List ℤ
remove_account sock [] = []
remove_account sock (s ∷ accounts) =
    let rest = remove_account sock accounts in if s ==ℤ sock then accounts else s ∷ rest

unfoldable pub add_account : ℤ → List ℤ → List ℤ × Bool
add_account sock accounts =
    if leb account_list_max (length accounts)
    then (accounts, false)
    else (accounts ++ (sock ∷ []), true)

unfoldable pub is_client_connected : ℤ → List ℤ → Bool
is_client_connected sock [] = false
is_client_connected sock (s ∷ accounts) =
    let rest = is_client_connected sock accounts in if s ==ℤ sock then true else rest

-- `%d`.
unfoldable pub decimal_ℤ : ℤ → Bytes
decimal_ℤ (pos n) = decimal n
decimal_ℤ (negsuc n) = b'-' ∷ decimal (suc n)

-- What `push_tcp_line` leaves in `line_out` of the text that its format makes.
unfoldable pub cut_line : Bytes → Bytes
cut_line text =
    if leb response_line_max (length text)
    then take (response_line_max - 2) text ++ (b'\n' ∷ [])
    else text

unfoldable pub push_tcp_line : Bytes → Clients → Clients
unfolding cut_line
push_tcp_line text c = record c {
  tcp_response_fifo = (Fifo.push (cut_line text) c.tcp_response_fifo).0;
}

-- `strchr(line, ':') + 1`.
unfoldable pub behind_colon : Bytes → Bytes
behind_colon line = elim (split_byte b':' line) [ none ↦ [] | some (front, rest) ↦ rest ]

-- The target that `send_data_to_clients` writes in front of its line.
unfoldable pub target_of : ℤ → ℤ
target_of sock =
    if sock ==ℤ send_to_all
    then response_target_all
    else if sock ==ℤ send_to_all_public
    then response_target_everyone
    else sock

-- The text of an application response, `"%d:%d:%.*s"`.
unfoldable pub data_text : ℤ → ℕ → Bytes → Bytes
data_text target id payload = decimal_ℤ target ++ (b':' ∷ (decimal id ++ (b':' ∷ payload)))

unfoldable pub send_data_to_clients : ℤ → Bytes → Clients → Clients
unfolding next_id target_of data_text push_tcp_line cut_line behind_colon
send_data_to_clients sock payload c =
    let id = next_id c.response_id in
    let text = data_text (target_of sock) id payload in
    let c' = push_tcp_line text (record c { response_id = id }) in
    if (sock ==ℤ send_to_all) || (sock ==ℤ send_to_all_public)
    then record c' {
      mqtt_response_fifo = (Fifo.push (behind_colon (cut_line text)) c'.mqtt_response_fifo).0;
    }
    else c'

-- The text of a reply to one client, `"%d:%s\n"`.
unfoldable pub raw_text : ℤ → Bytes → Bytes
raw_text sock text = decimal_ℤ sock ++ (b':' ∷ (text ++ codes "\n"))

unfoldable pub send_raw_to_client : ℤ → Bytes → Clients → Clients
unfolding push_tcp_line raw_text
send_raw_to_client sock text c = push_tcp_line (raw_text sock text) c

-- The lines of what was drained, each with its line end, and what is behind the last one.
unfoldable pub split_lines : Bytes → List Bytes
split_lines [] = []
split_lines (c ∷ s) =
    let rest = split_lines s in
    if c == b'\n'
    then (c ∷ []) ∷ rest
    else elim rest [ [] ↦ (c ∷ []) ∷ [] | line ∷ lines ↦ (c ∷ line) ∷ lines ]

-- White space, as `strtol` skips it.
unfoldable pub skip_space : Bytes → Bytes
skip_space [] = []
skip_space (c ∷ s) =
    let rest = skip_space s in if (c == 32) || (leb 9 c && leb c 13) then rest else c ∷ s

-- The value of one decimal digit at least, up to `limit`, which a larger one is cut to.
unfoldable pub unsigned_long : ℕ → Bytes → Option ℕ
unsigned_long limit [] = none
unsigned_long limit (c ∷ s) = elim (digits_value 0 (c ∷ s)) [
  | none ↦ none
  | some n ↦ some (if ltb limit n then limit else n)
]

-- The number with its sign.
unfoldable pub signed_long : Bytes → Option ℤ
unfolding unsigned_long
signed_long [] = none
signed_long (c ∷ s) =
    let positive = Option.map pos (unsigned_long 2147483647 s) in
    let negative = Option.map negated (unsigned_long 2147483648 s) in
    let unsigned = Option.map pos (unsigned_long 2147483647 (c ∷ s)) in
    if c == b'-' then negative else if c == b'+' then positive else unsigned
  where
    negated : ℕ → ℤ
    negated ℕ.zero = pos 0
    negated (suc n) = negsuc n

-- `strtol(text, …, 10)` on a 32-bit `long`, where it takes the whole text.
unfoldable pub strtol : Bytes → Option ℤ
unfolding skip_space signed_long
strtol text = signed_long (skip_space text)

-- The target in front of a line and its payload; `none` if there is no such prefix.
unfoldable pub parse_target : Bytes → Option (ℤ × Bytes)
unfolding strtol
parse_target line = elim (split_byte b':' line) [
  | none ↦ none
  | some (prefix, payload) ↦ Option.map (λ target. (target, payload)) (strtol prefix)
]

-- A payload to every client that may have it: while a password is set, only to those that have
-- authenticated, if `paired_only`.
unfoldable pub broadcast : Env → Bool → Bytes → List ℤ → Device → Device
broadcast env paired_only payload [] d = d
broadcast env paired_only payload (dst ∷ accounts) d = broadcast env paired_only payload accounts (
    if paired_only && (Password.is_set d.password && not (sock_authenticated dst d))
    then d
    else frame_send env dst payload d)

-- One line of `tcp_response_send_task`.
unfoldable pub route : Env → List ℤ → Bytes → Device → Device
unfolding parse_target broadcast
route env accounts line d = elim (parse_target line) [
  | none ↦ d
  | some (target, payload) ↦
      if (target ==ℤ response_target_all) || (target ==ℤ response_target_everyone)
      then broadcast env (target ==ℤ response_target_all) payload accounts d
      else if is_client_connected target accounts
      then frame_send env target payload d
      else d
]

unfoldable pub route_all : Env → List ℤ → List Bytes → Device → Device
unfolding route
route_all env accounts [] d = d
route_all env accounts (line ∷ lines) d = route_all env accounts lines (route env accounts line d)

-- One round of `tcp_response_send_task`.
unfoldable pub response_send : Env → Clients → Device → Clients × Device
unfolding split_lines route_all
response_send env c d =
    let (fifo, staging) = Fifo.drain fifo_size c.tcp_response_fifo in
    (record c { tcp_response_fifo = fifo }, route_all env c.accounts (split_lines staging) d)

-- A connection that `accept` gave in `tcp_server_task`, with its peer's address and whether there is
-- memory for its task; the result says whether it is served.
unfoldable pub accept : ℤ → ℕ → Bool → List ℤ → Device → List ℤ × Device × Bool
accept sock ip heap accounts d =
    if leb tcp_client_max (Session.count d.pool) && (length (Session.shutdown_peer ip d.pool) == 0)
    then (accounts, d, false)
    else if not (add_account sock accounts).1
    then (accounts, d, false)
    else elim (Session.acquire sock ip d.pool).1 [
      | none ↦ (remove_account sock (add_account sock accounts).0, connect sock ip d, false)
      | some i ↦ if heap then ((add_account sock accounts).0, connect sock ip d, true) else (
        remove_account sock (add_account sock accounts).0,
        disconnect sock (connect sock ip d),
        false,
      )
    ]

-- The end of `tcp_client_recv_task`.
unfoldable pub close : ℤ → List ℤ → Device → List ℤ × Device
close sock accounts d = (remove_account sock accounts, disconnect sock d)
