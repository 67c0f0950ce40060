-- ===== src/Policy.antt =====
-- src/security/access_policy.[ch], with LOCAL_AUTH_ENFORCE as device_config.h sets it: whether a
-- received line may be handled at all.
pub mod Gate
use cything.Prelude.{Bool, true, false, ◌&&◌, ◌||◌, not, none, some, ℤ, is_neg, if◌then◌else◌}
use cything.Prelude.Bytes.{Bytes, codes, has_prefix}
use cything.Session
use cything.Session.{Session, State, ls_pake_ok, ls_auth_ok}
use cything.Password
use cything.Device.{Env, Device, slot, send}

unfoldable pub is_handshake : Bytes → Bool
is_handshake line =
    has_prefix line (codes "PAKE1:")
    || (has_prefix line (codes "PAKE3:")
        || (has_prefix line (codes "AUTH1:")
            || (has_prefix line (codes "AUTH3:") || has_prefix line (codes "ENROLL:"))))

unfoldable pub is_public : Env → Bytes → Device → Bool
is_public env line d =
    if has_prefix line env.scan_command
    then true
    else if not (Password.is_set d.password)
    then true
    else env.app_command_is_public line

-- `access_policy_sock_authenticated` for a session that exists.
unfoldable pub authenticated : Session → Bool
authenticated s = elim s.state [
  | ls_auth_ok ↦ true
  | ls_pake_ok ↦ not (is_neg s.paired_index)
  | _ ↦ false
]

unfoldable pub sock_authenticated : ℤ → Device → Bool
sock_authenticated sock d = elim (Session.find sock d.pool) [
  | none ↦ false
  | some i ↦ authenticated (slot i d)
]

unfoldable pub sock_encrypted : ℤ → Device → Bool
sock_encrypted sock d = elim (Session.find sock d.pool) [
  | none ↦ false
  | some i ↦ (slot i d).rx_encrypted
]

-- `access_policy_allow`: a line that is refused is answered in the clear.
unfoldable pub allow : Env → Bytes → ℤ → Device → Device × Bool
allow env line sock d =
    if is_handshake line || is_public env line d
    then (d, true)
    else if sock_authenticated sock d && sock_encrypted sock d
    then (d, true)
    else if not (sock_authenticated sock d)
    then (send sock (codes "ERR:AUTH\n") d, false)
    else (send sock (codes "ERR:ENC\n") d, false)
