-- ===== src/Policy/Gate.antt =====
-- src/security/access_policy.c: what it takes for a line to be let through.
use mathlib.Core.Option.{some-injective}
use cything.Prelude.{
  ap, sym, if◌then◌else◌, ℕ, refl, some, Option-cases, inl, inr, Bool-cases, ◌≡◌, ◌⊎◌, ◌↔◌, true,
  false, ℤ, arith, is_neg,
}
use cything.Prelude.Bytes.{codes, Bytes}
use cything.Session
use cything.Session.{Session, ls_auth_ok, ls_pake_ok}
use cything.Device.{slot, send, Env, Device}
use cything.Policy.{
  codes, allow, is_handshake, is_public, sock_authenticated, sock_encrypted, authenticated,
}

-- What makes a session authenticated.
abbrev pub IsAuthenticated : Session → Type 0
IsAuthenticated s =
    (s.state ≡ ls_auth_ok) ⊎ ((s.state ≡ ls_pake_ok) × (is_neg s.paired_index ≡ false))

-- A session counts as authenticated only in LS_AUTH_OK, or in LS_PAKE_OK with a row of the paired
-- list; in particular not between AUTH1 and AUTH3, nor between PAKE1 and PAKE3.
pub authenticated_iff : (s : Session) → (authenticated s ≡ true) ↔ IsAuthenticated s
unfolding authenticated
authenticated_iff s = (λ h. ground arith, λ h. ground arith)

-- What the gate comes to for such a line.
pub allow_lem :
    (env : Env) (line : Bytes) (sock : ℤ) (d : Device)
    → is_handshake line ≡ false
    → is_public env line d ≡ false
    → allow env line sock d ≡ (
        if sock_authenticated sock d
        then (if sock_encrypted sock d then (d, true) else (send sock (codes "ERR:ENC\n") d, false))
        else (send sock (codes "ERR:AUTH\n") d, false))
unfolding allow
allow_lem env line sock d h q = ground arith

elsewhere :
    (d : Device) (i j : ℕ)
    → authenticated (slot i d) ≡ false
    → some i ≡ some j
    → ¬ IsAuthenticated (slot j d)
elsewhere d i j a f w =
    let same = some-injective i j f in
    let yes = (authenticated_iff (slot j d)).1 w in
    let no = ap (λ k. authenticated (slot k d)) (sym same) in cc

-- A line that is neither a handshake line nor public (the scan command, any line while no password is
-- set, or one that the application declares public) is let through, with nothing changed, exactly when
-- the session of its socket is in LS_AUTH_OK, or in LS_PAKE_OK with a row of the paired list, and the
-- line came encrypted. Otherwise it is refused, with ERR:AUTH if no such session is there and with
-- ERR:ENC if only the encryption is missing, and nothing changes but this packet to the sender.
pub allow_protected :
    (env : Env) (line : Bytes) (sock : ℤ) (d : Device)
    → is_handshake line ≡ false
    → is_public env line d ≡ false
    → ((allow env line sock d ≡ (d, true))
        × ((i : ℕ) × (Session.find sock d.pool ≡ some i)
            × IsAuthenticated (slot i d)
            × ((slot i d).rx_encrypted ≡ true)))
      ⊎ ((allow env line sock d ≡ (send sock (codes "ERR:ENC\n") d, false))
          × ((i : ℕ) × (Session.find sock d.pool ≡ some i)
              × IsAuthenticated (slot i d)
              × ((slot i d).rx_encrypted ≡ false)))
      ⊎ ((allow env line sock d ≡ (send sock (codes "ERR:AUTH\n") d, false))
          × ((i : ℕ) → Session.find sock d.pool ≡ some i → ¬ IsAuthenticated (slot i d)))
unfolding sock_authenticated sock_encrypted
allow_protected env line sock d h q = elim (Option-cases (Session.find sock d.pool)) [
  | inl e ↦
      rw (allow_lem env line sock d h q, sock_authenticated, e) (inr (inr (refl, λ i f w. cc)))
  | inr (i, e) ↦ elim (Bool-cases (authenticated (slot i d))) [
    | inr a ↦
        rw (allow_lem env line sock d h q, sock_authenticated, e, a)
          (inr (inr (refl, λ j f w. elsewhere d i j a f w)))
    | inl a ↦ elim (Bool-cases (slot i d).rx_encrypted) [
      | inl c ↦
          rw (allow_lem env line sock d h q, sock_authenticated, sock_encrypted, e, a, c)
            (inl (refl, (i, refl, (authenticated_iff (slot i d)).0 a, c)))
      | inr c ↦
          rw (allow_lem env line sock d h q, sock_authenticated, sock_encrypted, e, a, c)
            (inr (inl (refl, (i, refl, (authenticated_iff (slot i d)).0 a, c))))
    ]
  ]
]
