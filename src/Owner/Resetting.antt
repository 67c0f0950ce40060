-- ===== src/Owner/Resetting.antt =====
-- src/security/owner_commands.c: what RESET leaves.
use cything.Prelude.{ℕ, Bool, refl, ◌≡◌, false, arith}
use cything.Prelude.Bytes.{codes}
use cything.Prelude.Every.{Every, Every-map}
use cything.Session.{Session, ls_new, role_none, zeros, drop_live, drop_auth, drop_all_auth}
use cything.Session.Invariant.{IsSound, IsSoundPool}
use cything.Paired
use cything.Paired.{empty_blob, nvs_store}
use cything.Password
use cything.Device.{Env, Device, slot}
use cything.Frame.{send_line}
use cything.Frame.Effects.{send_line-Replies, SamePool-IsSoundPool}
use cything.Owner.{wipe_all, handle_reset, push_event}

-- A slot with no handshake, no key and no account.
pub record IsBlank (s : Session) : Type 0 where
  pub no_handshake : s.state ≡ ls_new
  pub no_key : s.key ≡ zeros 32
  pub no_role : s.role ≡ role_none

drop_live-IsBlank : (s : Session) → IsSound s → IsBlank (drop_live s)
unfolding drop_live drop_auth
drop_live-IsBlank s v = ground arith

wiped : (env : Env) (d : Device) → IsSoundPool d.pool → Every IsBlank (wipe_all env d).pool
unfolding wipe_all drop_all_auth push_event
wiped env d v = Every-map IsSound IsBlank drop_live drop_live-IsBlank d.pool v

clear_ram : (ok : Bool) (p : Paired.Paired) → (Paired.clear ok p).0.ram ≡ empty_blob
unfolding Paired.clear nvs_store
clear_ram ok p = ground arith

-- RESET on sound slots leaves no account in RAM, no password, and no connection with a handshake, a
-- key or a role, whether or not the flash could be written.
pub handle_reset_lem :
    (env : Env) (i : ℕ) (d : Device)
    → IsSoundPool d.pool
    → let d' = handle_reset env i d in
      (d'.paired.ram ≡ empty_blob) × (Password.is_set d'.password ≡ false) × Every IsBlank d'.pool
unfolding handle_reset wipe_all push_event Password.clear Password.is_set
handle_reset_lem env i d v =
    let sent = send_line env (slot i d).sock (codes "ACK") d in
    let r = send_line-Replies env (slot i d).sock (codes "ACK") d in
    (
      clear_ram (env.flash_ok sent.writes) sent.paired,
      refl,
      wiped env sent (SamePool-IsSoundPool d.pool sent.pool r.same_pool v),
    )
