-- ===== src/Owner.antt =====
-- src/security/owner_commands.[ch]: the paired list and the password as their owner manages them, and
-- UNPAIR for everyone else. A session's slot pointer is its index, so the handlers read the session
-- again after they changed the pool.
pub mod Authority
pub mod Listing
pub mod Resetting
use cything.Prelude.{
  ℕ, zero, suc, ◌+◌, ◌-◌, Bool, true, false, ◌&&◌, ◌||◌, not, Option, none, some, [], ◌∷◌, ◌++◌, ℤ,
  pos, is_neg, ◌==◌, ◌==ℤ◌, ltb, if◌then◌else◌, length, drop,
}
use mathlib.Core.Option
use cything.Prelude.Bytes.{Bytes, codes, has_prefix, bytes_eq, split_comma, decimal}
use cything.Session
use cything.Session.{Session, State, Role, role_none, role_user, role_owner, ls_pake_ok, ls_auth_ok}
use cything.Paired
use cything.Paired.{Entry, paired_sub_max, paired_role_owner}
use cything.Password
use cything.Events
use cything.Device.{Env, Device, slot, decode}
use cything.Frame.{send_line, send_err}
use cything.Auth.{role_word, role_is_owner, to_cstr, unix_time}

-- `is_owner_session` for a session that exists.
unfoldable pub is_owner_session : Session → Bool
is_owner_session s =
    s.rx_encrypted
    && (role_is_owner s.role && elim s.state [
      | ls_auth_ok ↦ true
      | ls_pake_ok ↦ not (is_neg s.paired_index)
      | _ ↦ false
    ])

-- `is_authed_session` for a session that exists.
unfoldable pub is_authed_session : Session → Bool
is_authed_session s =
    s.rx_encrypted
    && (not (is_neg s.paired_index)
        && elim s.state [ ls_auth_ok ↦ true | ls_pake_ok ↦ true | _ ↦ false ])

-- `pairing_events_push` with the next write to flash.
unfoldable pub push_event : Env → Bytes → Bytes → Bytes → Device → Device
push_event env event sub role d = record d {
  events = Events.push event sub role (unix_time env) (env.flash_ok d.writes) d.events;
  writes = d.writes + 1;
}

-- `paired_list_remove` with the next write to flash.
unfoldable pub remove_entry : Env → ℤ → Device → Device × Paired.EspErr
remove_entry env index d =
    let (paired, err) = Paired.remove index (env.flash_ok d.writes) d.paired in
    (record d { paired = paired; writes = d.writes + 1 }, err)

-- `local_session_on_paired_removed`.
unfoldable pub follow_sessions : ℕ → Device → Device
follow_sessions index d = record d { pool = Session.on_paired_removed index d.pool }

-- One line of LIST.
unfoldable pub list_line : Env → Entry → Bytes
list_line env e =
    codes "PAIRED:"
    ++ env.base64_encode e.user_sub
    ++ codes ","
    ++ env.base64_encode e.user_email
    ++ codes ","
    ++ decimal e.paired_at
    ++ codes ","
    ++ role_word e.role

-- The loop of `handle_list` with `n` rounds left.
unfoldable pub list_from : Env → ℤ → ℕ → ℕ → Device → Device
unfolding list_line
list_from env sock zero i d = d
list_from env sock (suc n) i d = elim (Paired.get (pos i) d.paired.ram) [
  | none ↦ d
  | some e ↦ list_from env sock n (i + 1) (send_line env sock (list_line env e) d)
]

unfoldable pub handle_list : Env → ℕ → Device → Device
unfolding list_from
handle_list env i d =
    let count = d.paired.ram.count in
    send_line env (slot i d).sock (codes "PAIREND:" ++ decimal count)
      (list_from env (slot i d).sock count 0 d)

-- The sub of a REVOKE line; a second field is only checked for its format.
unfoldable pub parse_revoke : Env → Bytes → Option Bytes
unfolding to_cstr
parse_revoke env text = elim (split_comma text) [
  | none ↦ elim (decode env (paired_sub_max + 1) text) [
    | none ↦ none
    | some b ↦ to_cstr (paired_sub_max + 1) b
  ]
  | some (left, right) ↦ elim (decode env (paired_sub_max + 1) left) [
    | none ↦ none
    | some b ↦ elim (to_cstr (paired_sub_max + 1) b) [
      | none ↦ none
      | some sub ↦ elim (split_comma right) [
        | some r ↦ none
        | none ↦ elim (decode env (paired_sub_max + 1) right) [
          | none ↦ none
          | some inst ↦ Option.map (λ _. sub) (to_cstr (paired_sub_max + 1) inst)
        ]
      ]
    ]
  ]
]

-- `handle_revoke` for a row that was found.
unfoldable pub revoke_row : Env → ℕ → Bytes → Entry → ℕ → Device → Device
revoke_row env index sub e i d =
    let (d', err) = remove_entry env (pos index) d in
    if pos index ==ℤ (slot i d).paired_index
    then send_err env (slot i d).sock (codes "OWNER") d
    else elim err [
      | Paired.esp_ok ↦
          send_line env (slot i d).sock (codes "ACK")
            (push_event env (codes "unpaired") sub (role_word e.role) (follow_sessions index d'))
      | _ ↦ send_err env (slot i d).sock (codes "STORE") d'
    ]

unfoldable pub handle_revoke : Env → Bytes → ℕ → Device → Device
unfolding parse_revoke revoke_row
handle_revoke env line i d = elim (parse_revoke env (drop 7 line)) [
  | none ↦ send_err env (slot i d).sock (codes "BADFMT") d
  | some sub ↦ elim (Paired.find sub d.paired.ram) [
    | none ↦ send_err env (slot i d).sock (codes "UNKNOWN") d
    | some index ↦ elim (Paired.get (pos index) d.paired.ram) [
      | none ↦ send_err env (slot i d).sock (codes "UNKNOWN") d
      | some e ↦ revoke_row env index sub e i d
    ]
  ]
]

-- The loop of `revoke_all_non_owner` at row `i`, with `n` rounds left. Each round removes a row or
-- steps over one, so as many rounds as there are rows are enough.
unfoldable pub revoke_from : Env → ℕ → ℕ → Device → Device
revoke_from env zero i d = d
revoke_from env (suc n) i d = elim (Paired.get (pos i) d.paired.ram) [
  | none ↦ d
  | some e ↦
      let (d', err) = remove_entry env (pos i) d in
      let kept = revoke_from env n (i + 1) d in
      let revoked : Device = elim err [
        | Paired.esp_ok ↦
            revoke_from env n i
              (push_event env (codes "unpaired") e.user_sub (codes "user") (follow_sessions i d'))
        | _ ↦ revoke_from env n (i + 1) d'
      ] in
      if e.role == paired_role_owner then kept else revoked
]

unfoldable pub revoke_all_non_owner : Env → Device → Device
unfolding revoke_from
revoke_all_non_owner env d = revoke_from env d.paired.ram.count 0 d

-- `paired_list_rotate_owner_key` with the next random block and the next write to flash.
unfoldable pub rotate_key : Env → Device → Device
rotate_key env d =
    let (paired, err) =
      Paired.rotate_owner_key (env.random d.draws) (env.flash_ok d.writes) d.paired in
    record d { paired = paired; draws = d.draws + 1; writes = d.writes + 1 }

-- `handle_pwset` with a password that was read.
unfoldable pub set_password : Env → Bytes → ℕ → Device → Device
set_password env pw i d =
    let (password, err) =
      Password.set_password pw (env.srp_make pw) (env.flash_ok d.writes) d.password in
    let d' = record d { password = password; writes = d.writes + 1 } in
    elim err [
      | Password.esp_ok ↦
          send_line env (slot i d).sock (codes "ACK") (rotate_key env (revoke_all_non_owner env d'))
      | _ ↦ send_err env (slot i d).sock (codes "STORE") d'
    ]

unfoldable pub handle_pwset : Env → Bytes → ℕ → Device → Device
unfolding set_password
handle_pwset env line i d =
    let bad = send_err env (slot i d).sock (codes "BADFMT") d in
    elim (split_comma (drop 6 line)) [
      | some r ↦ bad
      | none ↦ elim (decode env (Password.pw_max_len + 1) (drop 6 line)) [
        | none ↦ bad
        | some pw ↦
            if ltb (length pw) Password.pw_min_len || ltb Password.pw_max_len (length pw)
            then bad
            else set_password env pw i d
      ]
    ]

unfoldable pub handle_pwclear : Env → ℕ → Device → Device
handle_pwclear env i d =
    let (password, err) = Password.clear (env.flash_ok d.writes) d.password in
    let d' = record d { password = password; writes = d.writes + 1 } in
    elim err [
      | Password.esp_ok ↦ send_line env (slot i d).sock (codes "ACK") d'
      | _ ↦ send_err env (slot i d).sock (codes "STORE") d'
    ]

-- What RESET does once it has replied.
unfoldable pub wipe_all : Env → Device → Device
unfolding push_event
wipe_all env d =
    let (paired, _) = Paired.clear (env.flash_ok d.writes) d.paired in
    let (password, _) = Password.clear (env.flash_ok (d.writes + 1)) d.password in
    push_event env (codes "reset") [] [] (record d {
      paired = paired;
      password = password;
      pool = Session.drop_all_auth d.pool;
      writes = d.writes + 2;
    })

unfoldable pub handle_reset : Env → ℕ → Device → Device
unfolding wipe_all
handle_reset env i d = wipe_all env (send_line env (slot i d).sock (codes "ACK") d)

-- `handle_discoverymode`; `discovery_mode_set` stores the mode with the next write to flash. The
-- call of `ble_beacon_apply_discovery_mode` behind it touches the beacon alone: apply_mode in
-- Beacon.
unfoldable pub handle_discoverymode : Env → Bytes → ℕ → Device → Device
handle_discoverymode env line i d =
    let bad = send_err env (slot i d).sock (codes "BADFMT") d in
    elim (drop 14 line) [
      | c ∷ [] ↦
          (if ltb c b'1' || ltb b'3' c
            then bad
            else if env.flash_ok d.writes
            then send_line env (slot i d).sock (codes "ACK")
                (record d { mode = c - b'0'; writes = d.writes + 1 })
            else send_err env (slot i d).sock (codes "STORE") (record d { writes = d.writes + 1 }))
      | _ ↦ bad
    ]

unfoldable pub handle_discoverymode_get : Env → ℕ → Device → Device
handle_discoverymode_get env i d =
    send_line env (slot i d).sock (codes "DISCOVERYMODE:" ++ decimal d.mode) d

-- `handle_unpair` for the caller's own entry, which is not the owner's: the reply goes out first.
unfoldable pub unpair_row : Env → Entry → ℕ → ℕ → Device → Device
unpair_row env e index i d =
    let sent = send_line env (slot i d).sock (codes "ACK") d in
    let (d', err) = remove_entry env (pos index) sent in
    elim err [
      | Paired.esp_ok ↦
          push_event env (codes "unpaired") e.user_sub (codes "user") (follow_sessions index d')
      | _ ↦ d'
    ]

unfoldable pub handle_unpair : Env → ℕ → Device → Device
unfolding unpair_row
handle_unpair env i d = elim (Paired.in_range (slot i d).paired_index d.paired.ram) [
  | none ↦ send_err env (slot i d).sock (codes "UNKNOWN") d
  | some index ↦ elim (Paired.get (pos index) d.paired.ram) [
    | none ↦ send_err env (slot i d).sock (codes "UNKNOWN") d
    | some e ↦
        if e.role == paired_role_owner
        then send_err env (slot i d).sock (codes "OWNER") d
        else unpair_row env e index i d
  ]
]

-- The commands of this file.
pub data Command : Type 0 where
  list revoke pwset pwclear reset discoverymode discoverymode_get unpair : Command

-- Which of them a line is. The prefixes and the whole lines exclude one another.
unfoldable pub command_of : Bytes → Option Command
command_of line =
    if bytes_eq line (codes "UNPAIR")
    then some unpair
    else if bytes_eq line (codes "LIST")
    then some list
    else if has_prefix line (codes "REVOKE:")
    then some revoke
    else if has_prefix line (codes "PWSET:")
    then some pwset
    else if bytes_eq line (codes "PWCLEAR")
    then some pwclear
    else if has_prefix line (codes "DISCOVERYMODE:")
    then some discoverymode
    else if bytes_eq line (codes "DISCOVERYMODE?")
    then some discoverymode_get
    else if bytes_eq line (codes "RESET")
    then some reset
    else none

unfoldable pub run_owner : Env → Command → Bytes → ℕ → Device → Device
unfolding handle_list handle_revoke handle_pwset handle_pwclear handle_reset handle_discoverymode
    handle_discoverymode_get
run_owner env list line i d = handle_list env i d
run_owner env revoke line i d = handle_revoke env line i d
run_owner env pwset line i d = handle_pwset env line i d
run_owner env pwclear line i d = handle_pwclear env i d
run_owner env discoverymode line i d = handle_discoverymode env line i d
run_owner env discoverymode_get line i d = handle_discoverymode_get env i d
run_owner env reset line i d = handle_reset env i d
run_owner env unpair line i d = d

unfoldable pub run_command : Env → Command → Bytes → ℕ → Device → Device
unfolding run_owner handle_unpair
run_command env unpair line i d =
    if is_authed_session (slot i d)
    then handle_unpair env i d
    else send_err env (slot i d).sock (codes "AUTH") d
run_command env c line i d =
    if is_owner_session (slot i d)
    then run_owner env c line i d
    else send_err env (slot i d).sock (codes "AUTH") d

-- `owner_commands_handle_line`: `none` if the line is not one of them.
unfoldable pub owner_commands_handle_line : Env → Bytes → ℤ → Device → Option Device
unfolding command_of run_command
owner_commands_handle_line env line sock d = elim (command_of line) [
  | none ↦ none
  | some c ↦ elim (Session.find sock d.pool) [
    | none ↦ some (send_err env sock (codes "NOSESSION") d)
    | some i ↦ some (run_command env c line i d)
  ]
]
