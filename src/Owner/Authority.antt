-- ===== src/Owner/Authority.antt =====
-- src/security/owner_commands.c: who may do what.
use cything.Prelude.{◌≡◌, ◌⊎◌, ◌↔◌, true, false, arith, is_neg}
use cything.Prelude.Bytes.{Bytes}
use cything.Session.{Session, ls_auth_ok, ls_pake_ok, role_owner}
use cything.Device.{Device}
use cything.Owner.{is_owner_session}

-- An owner's session has authenticated as the owner, and its line came encrypted.
pub is_owner_session_iff :
    (s : Session)
    → (is_owner_session s ≡ true) ↔ (
        (s.rx_encrypted ≡ true)
        × (s.role ≡ role_owner)
        × ((s.state ≡ ls_auth_ok) ⊎ ((s.state ≡ ls_pake_ok) × (is_neg s.paired_index ≡ false))))
unfolding is_owner_session
is_owner_session_iff s = (λ h. ground arith, λ h. ground arith)
