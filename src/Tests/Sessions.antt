-- ===== src/Tests/Sessions.antt =====
-- The theorems on connections and on who may do what, on a device with an owner and a user.
use cything.Tests.{echo, two_sessions, device}
use cything.Prelude.{some, ℕ, refl, true, false, ◌≡◌, ◌⊎◌, pos, arith}
use cything.Prelude.Bytes.{codes, has_prefix}
use cything.Session
use cything.Session.{
  acquire, release, count, free_slot, local_session_max, ls_auth_ok, ls_pake_ok, role_owner,
}
use cything.Session.Slots.{Absent, DistinctSocks}
use cything.Password
use cything.Device.{slot, send}
use cything.Policy.{allow, is_handshake, is_public}
use cything.Policy.Gate.{allow_protected, IsAuthenticated}

none_at_boot : Absent (pos 4) Session.init
unfolding Session.init
none_at_boot = ground arith

six-Absent : Absent (pos 6) two_sessions
six-Absent = ground arith

two_sessions-DistinctSocks : DistinctSocks two_sessions
two_sessions-DistinctSocks = ground arith

allow_protected_example :
    ((allow echo (codes "GO") (pos 4) device ≡ (device, true))
      × ((i : ℕ) × (Session.find (pos 4) device.pool ≡ some i)
          × IsAuthenticated (slot i device)
          × ((slot i device).rx_encrypted ≡ true)))
    ⊎ ((allow echo (codes "GO") (pos 4) device ≡ (send (pos 4) (codes "ERR:ENC\n") device, false))
        × ((i : ℕ) × (Session.find (pos 4) device.pool ≡ some i)
            × IsAuthenticated (slot i device)
            × ((slot i device).rx_encrypted ≡ false)))
    ⊎ ((allow echo (codes "GO") (pos 4) device ≡ (send (pos 4) (codes "ERR:AUTH\n") device, false))
        × ((i : ℕ) → Session.find (pos 4) device.pool ≡ some i → ¬ IsAuthenticated (slot i device)))
unfolding is_handshake is_public Password.is_set has_prefix
allow_protected_example = allow_protected echo (codes "GO") (pos 4) device refl refl
