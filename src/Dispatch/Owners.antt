-- ===== src/Dispatch/Owners.antt =====
-- src/security/owner_commands.c: the owner commands keep the shared state valid.
use cything.Prelude.{
  ℕ, zero, suc, ◌≡◌, refl, ◌∙◌, [], ◌∷◌, arith, inl, inr, Option-cases, some, length-map, ◌+◌, ◌-◌,
  pos, ℤ, drop,
}
use cything.Prelude.Bytes.{Bytes, codes, split_comma}
use cything.Session
use cything.Session.{Session, on_paired_removed, drop_all_auth, drop_live, follow_removed}
use cything.Session.Invariant.{on_paired_removed-IsSoundPool, drop_all_auth-IsSoundPool}
use cything.Session.Reachable.{on_paired_removed-DistinctSocks, drop_all_auth-DistinctSocks}
use cything.Paired
use cything.Paired.{Entry, empty_blob, in_range, paired_role_owner, nvs_store}
use cything.Paired.Stored.{IsStored, remove-IsStored, rotate-IsStored, clear-IsStored}
use cything.Password
use cything.Device.{Env, Device, slot, decode}
use cything.Frame.{send_line}
use cything.Auth.{role_word}
use cything.Owner.{
  command_of, list, revoke, pwset, pwclear, reset, discoverymode, discoverymode_get, unpair,
  push_event, remove_entry, follow_sessions, list_from, handle_list, parse_revoke, revoke_row,
  handle_revoke, revoke_from, revoke_all_non_owner, rotate_key, set_password, handle_pwset,
  handle_pwclear, wipe_all, handle_reset, handle_discoverymode, unpair_row, handle_unpair, Command,
  run_owner, run_command, owner_commands_handle_line,
}
use cything.Dispatch.Invariant.{IsValid, send_err-IsValid, send_line-IsValid}
use cything.Dispatch.Slots.{same-IsValid}

-- A change to the list that keeps it valid.
list-IsValid : {d d' : Device} → d'.pool ≡ d.pool → IsStored d'.paired → IsValid d → IsValid d'
list-IsValid p q v = record {
  pool_size = rw p v.pool_size;
  sound = rw p v.sound;
  distinct = rw p v.distinct;
  paired = q;
}

pub remove_entry-IsValid :
    (env : Env) (index : ℤ) (d : Device) → IsValid d → IsValid (remove_entry env index d).0
unfolding remove_entry
remove_entry-IsValid env index d v =
    list-IsValid refl (remove-IsStored index (env.flash_ok d.writes) d.paired v.paired) v

pub follow_sessions-IsValid :
    (index : ℕ) (d : Device) → IsValid d → IsValid (follow_sessions index d)
unfolding follow_sessions on_paired_removed
follow_sessions-IsValid index d v = record {
  pool_size = length-map d.pool (follow_removed index) ∙ v.pool_size;
  sound = on_paired_removed-IsSoundPool index d.pool v.sound;
  distinct = on_paired_removed-DistinctSocks index d.pool v.distinct;
  paired = v.paired;
}

pub push_event-IsValid :
    (env : Env) (event sub role : Bytes) (d : Device)
    → IsValid d
    → IsValid (push_event env event sub role d)
unfolding push_event
push_event-IsValid env event sub role d v = same-IsValid refl refl v

list_from-IsValid :
    (env : Env) (sock : ℤ) (n i : ℕ) (d : Device) → IsValid d → IsValid (list_from env sock n i d)
unfolding list_from
list_from-IsValid env sock zero i d v = v
list_from-IsValid env sock (suc n) i d v = elim (Option-cases (Paired.get (pos i) d.paired.ram)) [
  | inl e ↦ rw (list_from, e) v
  | inr (row, e) ↦
      rw (list_from, e) (list_from-IsValid env sock n (i + 1) _ (send_line-IsValid env sock _ d v))
]

handle_list-IsValid : (env : Env) (i : ℕ) (d : Device) → IsValid d → IsValid (handle_list env i d)
unfolding handle_list
handle_list-IsValid env i d v = send_line-IsValid env _ _ _ (list_from-IsValid env _ _ 0 d v)

-- The revocation of a row, once it is off the list.
revoked-IsValid :
    (env : Env) (index : ℕ) (sub role : Bytes) (d : Device)
    → IsValid d
    → IsValid (push_event env (codes "unpaired") sub role (follow_sessions index d))
revoked-IsValid env index sub role d v =
    push_event-IsValid env _ sub role _ (follow_sessions-IsValid index d v)

revoke_row-IsValid :
    (env : Env) (index : ℕ) (sub : Bytes) (e : Entry) (i : ℕ) (d : Device)
    → IsValid d
    → IsValid (revoke_row env index sub e i d)
unfolding revoke_row
revoke_row-IsValid env index sub e i d v =
    let removed = remove_entry-IsValid env (pos index) d v in
    ground (
      arith,
      send_err-IsValid env (slot i d).sock (codes "OWNER") d v,
      send_err-IsValid env (slot i d).sock (codes "STORE") _ removed,
      send_line-IsValid env (slot i d).sock (codes "ACK") _
          (revoked-IsValid env index sub (role_word e.role) _ removed),
    )

handle_revoke-IsValid :
    (env : Env) (line : Bytes) (i : ℕ) (d : Device)
    → IsValid d
    → IsValid (handle_revoke env line i d)
unfolding handle_revoke
handle_revoke-IsValid env line i d v = elim (Option-cases (parse_revoke env (drop 7 line))) [
  | inl a ↦ rw (handle_revoke, a) (send_err-IsValid env _ _ _ v)
  | inr (sub, a) ↦ elim (Option-cases (Paired.find sub d.paired.ram)) [
    | inl b ↦ rw (handle_revoke, a, b) (send_err-IsValid env _ _ _ v)
    | inr (index, b) ↦ elim (Option-cases (Paired.get (pos index) d.paired.ram)) [
      | inl c ↦ rw (handle_revoke, a, b, c) (send_err-IsValid env _ _ _ v)
      | inr (e, c) ↦ rw (handle_revoke, a, b, c) (revoke_row-IsValid env index sub e i d v)
    ]
  ]
]

revoke_from-IsValid :
    (env : Env) (n i : ℕ) (d : Device) → IsValid d → IsValid (revoke_from env n i d)
unfolding revoke_from
revoke_from-IsValid env zero i d v = v
revoke_from-IsValid env (suc n) i d v = elim (Option-cases (Paired.get (pos i) d.paired.ram)) [
  | inl a ↦ rw (revoke_from, a) v
  | inr (e, a) ↦
      let removed = remove_entry-IsValid env (pos i) d v in
      ground (
        arith,
        a,
        revoke_from-IsValid env n (i + 1) d v,
        revoke_from-IsValid env n (i + 1) (remove_entry env (pos i) d).0 removed,
        revoke_from-IsValid env n i _ (revoked-IsValid env i e.user_sub (codes "user") _ removed),
      )
]

rotate_key-IsValid : (env : Env) (d : Device) → IsValid d → IsValid (rotate_key env d)
unfolding rotate_key
rotate_key-IsValid env d v =
    list-IsValid refl
      (rotate-IsStored (env.random d.draws) (env.flash_ok d.writes) d.paired v.paired) v

set_password-IsValid :
    (env : Env) (pw : Bytes) (i : ℕ) (d : Device) → IsValid d → IsValid (set_password env pw i d)
unfolding set_password revoke_all_non_owner
set_password-IsValid env pw i d v =
    let stored : IsValid (record d { password = set.0; writes = d.writes + 1 }) =
      same-IsValid refl refl v in
    ground (
      arith,
      send_err-IsValid env (slot i d).sock (codes "STORE") _ stored,
      send_line-IsValid env (slot i d).sock (codes "ACK") _
          (rotate_key-IsValid env _ (revoke_from-IsValid env d.paired.ram.count 0 _ stored)),
    )
  where
    set : Password.Password × Password.EspErr
    set = Password.set_password pw (env.srp_make pw) (env.flash_ok d.writes) d.password

handle_pwset-IsValid :
    (env : Env) (line : Bytes) (i : ℕ) (d : Device)
    → IsValid d
    → IsValid (handle_pwset env line i d)
unfolding handle_pwset
handle_pwset-IsValid env line i d v = elim (Option-cases (split_comma (drop 6 line))) [
  | inr (r, a) ↦ rw (handle_pwset, a) (send_err-IsValid env _ _ _ v)
  | inl a ↦ elim (Option-cases (decode env (Password.pw_max_len + 1) (drop 6 line))) [
    | inl b ↦ rw (handle_pwset, a, b) (send_err-IsValid env _ _ _ v)
    | inr (pw, b) ↦ ground (
      arith,
      a,
      b,
      send_err-IsValid env (slot i d).sock (codes "BADFMT") d v,
      set_password-IsValid env pw i d v,
    )
  ]
]

handle_pwclear-IsValid :
    (env : Env) (i : ℕ) (d : Device) → IsValid d → IsValid (handle_pwclear env i d)
unfolding handle_pwclear
handle_pwclear-IsValid env i d v =
    let cleared : IsValid (record d { password = clear.0; writes = d.writes + 1 }) =
      same-IsValid refl refl v in
    ground (
      arith,
      send_err-IsValid env (slot i d).sock (codes "STORE") _ cleared,
      send_line-IsValid env (slot i d).sock (codes "ACK") _ cleared,
    )
  where
    clear : Password.Password × Password.EspErr
    clear = Password.clear (env.flash_ok d.writes) d.password

handle_reset-IsValid : (env : Env) (i : ℕ) (d : Device) → IsValid d → IsValid (handle_reset env i d)
unfolding handle_reset wipe_all push_event drop_all_auth
handle_reset-IsValid env i d v =
    let sent = send_line-IsValid env (slot i d).sock (codes "ACK") d v in
    let d' = send_line env (slot i d).sock (codes "ACK") d in
    record {
      pool_size = length-map d'.pool drop_live ∙ sent.pool_size;
      sound = drop_all_auth-IsSoundPool d'.pool sent.sound;
      distinct = drop_all_auth-DistinctSocks d'.pool sent.distinct;
      paired = clear-IsStored (env.flash_ok d'.writes) d'.paired sent.paired;
    }

handle_discoverymode-IsValid :
    (env : Env) (line : Bytes) (i : ℕ) (d : Device)
    → IsValid d
    → IsValid (handle_discoverymode env line i d)
unfolding handle_discoverymode
handle_discoverymode-IsValid env line i d v = go (drop 14 line) refl
  where
    written : (mode : ℕ) → IsValid (record d { mode = mode; writes = d.writes + 1 })
    written mode = same-IsValid refl refl v

    go : (text : Bytes) → drop 14 line ≡ text → IsValid (handle_discoverymode env line i d)
    go [] e = rw (handle_discoverymode, e) (send_err-IsValid env _ _ _ v)
    go (c ∷ []) e = ground (
      arith,
      e,
      send_err-IsValid env (slot i d).sock (codes "BADFMT") d v,
      send_line-IsValid env (slot i d).sock (codes "ACK") _ (written (c - b'0')),
      send_err-IsValid env (slot i d).sock (codes "STORE") _ (written d.mode),
    )
    go (c ∷ c' ∷ text) e = rw (handle_discoverymode, e) (send_err-IsValid env _ _ _ v)

unpair_row-IsValid :
    (env : Env) (e : Entry) (index i : ℕ) (d : Device)
    → IsValid d
    → IsValid (unpair_row env e index i d)
unfolding unpair_row
unpair_row-IsValid env e index i d v =
    let sent = send_line-IsValid env (slot i d).sock (codes "ACK") d v in
    let removed = remove_entry-IsValid env (pos index) _ sent in
    ground (arith, removed, revoked-IsValid env index e.user_sub (codes "user") _ removed)

handle_unpair-IsValid :
    (env : Env) (i : ℕ) (d : Device) → IsValid d → IsValid (handle_unpair env i d)
unfolding handle_unpair
handle_unpair-IsValid env i d v =
    elim (Option-cases (in_range (slot i d).paired_index d.paired.ram)) [
      | inl a ↦ rw (handle_unpair, a) (send_err-IsValid env _ _ _ v)
      | inr (index, a) ↦ elim (Option-cases (Paired.get (pos index) d.paired.ram)) [
        | inl b ↦ rw (handle_unpair, a, b) (send_err-IsValid env _ _ _ v)
        | inr (e, b) ↦ ground (
          arith,
          a,
          b,
          send_err-IsValid env (slot i d).sock (codes "OWNER") d v,
          unpair_row-IsValid env e index i d v,
        )
      ]
    ]

run_owner-IsValid :
    (env : Env) (c : Command) (line : Bytes) (i : ℕ) (d : Device)
    → IsValid d
    → IsValid (run_owner env c line i d)
unfolding run_owner
run_owner-IsValid env list line i d v = handle_list-IsValid env i d v
run_owner-IsValid env revoke line i d v = handle_revoke-IsValid env line i d v
run_owner-IsValid env pwset line i d v = handle_pwset-IsValid env line i d v
run_owner-IsValid env pwclear line i d v = handle_pwclear-IsValid env i d v
run_owner-IsValid env discoverymode line i d v = handle_discoverymode-IsValid env line i d v
run_owner-IsValid env discoverymode_get line i d v = send_line-IsValid env _ _ d v
run_owner-IsValid env reset line i d v = handle_reset-IsValid env i d v
run_owner-IsValid env unpair line i d v = v

run_command-IsValid :
    (env : Env) (c : Command) (line : Bytes) (i : ℕ) (d : Device)
    → IsValid d
    → IsValid (run_command env c line i d)
unfolding run_command
run_command-IsValid env unpair line i d v = ground (
  arith,
  send_err-IsValid env (slot i d).sock (codes "AUTH") d v,
  handle_unpair-IsValid env i d v,
)
run_command-IsValid env c line i d v = ground (
  arith,
  send_err-IsValid env (slot i d).sock (codes "AUTH") d v,
  run_owner-IsValid env c line i d v,
)

-- Every line of the owner's commands keeps the state valid.
pub owner_commands_handle_line-IsValid :
    (env : Env) (line : Bytes) (sock : ℤ) (d d' : Device)
    → IsValid d
    → owner_commands_handle_line env line sock d ≡ some d'
    → IsValid d'
unfolding owner_commands_handle_line
owner_commands_handle_line-IsValid env line sock d d' v h = elim (Option-cases (command_of line)) [
  | inl a ↦ ground (arith, a)
  | inr (c, a) ↦ elim (Option-cases (Session.find sock d.pool)) [
    | inl b ↦ ground (arith, a, b, send_err-IsValid env sock (codes "NOSESSION") d v)
    | inr (i, b) ↦ ground (arith, a, b, run_command-IsValid env c line i d v)
  ]
]
