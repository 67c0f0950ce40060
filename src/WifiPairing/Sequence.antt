-- ===== src/WifiPairing/Sequence.antt =====
-- The order of the lines that src/tcp_server/pairing.c asks for, and what a run of them stores.
use cything.Prelude.{
  append_assoc, ℕ, ◌+◌, ◌-◌, ◌<◌, ◌≡◌, refl, ap, sym, ◌∙◌, arith, true, false, List, [], ◌∷◌, ◌++◌,
  ℤ, inl, inr, Bool-cases, if◌then◌else◌, length, take, drop, leb, ltb, length-append, length-take,
  ==_refl,
}
use cything.Prelude.Bytes.{Bytes, codes, bytes_eq, has_prefix}
use cything.Fifo.Blocks.{take-exact, drop-exact}
use cything.Clients.{Clients}
use cything.WifiFlash.{FlashEnv, flash_store_wifi_router_info}
use cything.WifiPairing.{
  start_pairing, set_router_ssid, set_router_pass, finish_pairing, Pairing, Prefixes,
  default_prefixes, value_size, suffix, is_pairing_command_valid, copy_pairing_value,
  pairing_commit, pairing_handle_line, ack,
}

has_prefix-append : (prefix s : Bytes) → has_prefix (prefix ++ s) prefix ≡ true
unfolding has_prefix
has_prefix-append [] [] = refl
has_prefix-append [] (c ∷ s) = refl
has_prefix-append (x ∷ prefix) s = rw (==_refl x) (has_prefix-append prefix s)

-- A line with a value between the prefix and the line end.
abbrev pub line_with : Bytes → Bytes → Bytes
line_with prefix value = prefix ++ (value ++ suffix)

length-line_with :
    (prefix value : Bytes) → length (line_with prefix value) ≡ length prefix + length value + 1
length-line_with prefix value =
    omega (arith, length-append prefix (value ++ suffix), length-append value suffix)

line_with-suffix :
    (prefix value : Bytes)
    → drop (length (line_with prefix value) - 1) (line_with prefix value) ≡ suffix
line_with-suffix prefix value =
    ap (drop (length (line_with prefix value) - 1)) (sym (append_assoc prefix value suffix))
    ∙ drop-exact (length (line_with prefix value) - 1) (prefix ++ value) suffix
        (omega (arith, length-line_with prefix value, length-append prefix value))

valid-line_with :
    (prefix value : Bytes) → is_pairing_command_valid (line_with prefix value) prefix suffix ≡ true
unfolding is_pairing_command_valid bytes_eq
valid-line_with prefix value =
    rw (long_enough, has_prefix-append prefix (value ++ suffix), line_with-suffix prefix value) refl
  where
    long_enough : ltb (length (line_with prefix value)) (length prefix + 1) ≡ false
    long_enough = ground (arith, length-line_with prefix value)

copy-line_with :
    (prefix value : Bytes) (size : ℕ)
    → length value < size
    → copy_pairing_value (line_with prefix value) prefix suffix size ≡ value
unfolding copy_pairing_value
copy-line_with prefix value size h =
    ap
      (λ t.
        take (if leb size t then size - 1 else t) (drop (length prefix) (line_with prefix value)))
      len
    ∙ rw fits (
        ap (take (length value)) (drop-exact (length prefix) prefix (value ++ suffix) refl)
        ∙ take-exact (length value) value suffix refl)
  where
    len : length (line_with prefix value) - length prefix - 1 ≡ length value
    len = omega (arith, length-line_with prefix value)

    fits : leb size (length value) ≡ false
    fits = ground (arith, h)

not_valid :
    (line prefix : Bytes)
    → has_prefix line prefix ≡ false
    → is_pairing_command_valid line prefix suffix ≡ false
unfolding is_pairing_command_valid
not_valid line prefix h = ground (arith, h)

unfoldable pub handle_lines :
    Prefixes → FlashEnv → List Bytes → ℤ → Pairing → Clients → Pairing × Clients
handle_lines cy env [] sock p c = (p, c)
handle_lines cy env (line ∷ lines) sock p c =
    let (p', c', known) = pairing_handle_line cy env line sock p c in
    handle_lines cy env lines sock p' c'

start_line :
    (env : FlashEnv) (sock : ℤ) (p : Pairing) (c : Clients)
    → pairing_handle_line default_prefixes env (codes "StartP\n") sock p c
      ≡ (record p { step = set_router_ssid; watched = true }, ack sock c, true)
unfolding pairing_handle_line has_prefix
start_line env sock p c = refl

ssid_line :
    (env : FlashEnv) (s : Bytes) (sock : ℤ) (p : Pairing) (c : Clients)
    → length s < value_size
    → p.step ≡ set_router_ssid
    → pairing_handle_line default_prefixes env (line_with (codes "ssid:") s) sock p c
      ≡ (record p { temp_ssid = s; step = set_router_pass; watched = true }, ack sock c, true)
unfolding pairing_handle_line has_prefix
ssid_line env s sock p c h e =
    rw
      (
        pairing_handle_line,
        valid-line_with (codes "ssid:") s,
        e,
        copy-line_with (codes "ssid:") s value_size h,
      )
      refl

pass_line :
    (env : FlashEnv) (w : Bytes) (sock : ℤ) (p : Pairing) (c : Clients)
    → length w < value_size
    → p.step ≡ set_router_pass
    → pairing_handle_line default_prefixes env (line_with (codes "pass:") w) sock p c
      ≡ (record p { temp_password = w; step = finish_pairing; watched = true }, ack sock c, true)
unfolding pairing_handle_line has_prefix
pass_line env w sock p c h e =
    rw
      (
        pairing_handle_line,
        not_valid (line_with (codes "pass:") w) (codes "ssid:") refl,
        valid-line_with (codes "pass:") w,
        e,
        copy-line_with (codes "pass:") w value_size h,
      )
      refl

-- The credentials that were collected are stored; the reboot depends on whether that succeeded.
abbrev committed : FlashEnv → Pairing → Pairing
committed env p =
    let (flash, ok) = flash_store_wifi_router_info env p.temp_ssid p.temp_password p.flash in
    record p {
      step = start_pairing;
      watched = false;
      flash = flash;
      rebooting = (if ok then true else p.rebooting);
    }

finish_line :
    (env : FlashEnv) (sock : ℤ) (p : Pairing) (c : Clients)
    → p.step ≡ finish_pairing
    → pairing_handle_line default_prefixes env (codes "FinishP\n") sock p c
      ≡ (committed env p, ack sock c, true)
unfolding pairing_handle_line has_prefix is_pairing_command_valid pairing_commit
finish_line env sock p c e =
    elim (Bool-cases (flash_store_wifi_router_info env p.temp_ssid p.temp_password p.flash).1) [
      | inl ok ↦ rw (pairing_handle_line, e, ok) refl
      | inr failed ↦ rw (pairing_handle_line, e, failed) refl
    ]

-- With the default prefixes, whatever state pairing was left in, "StartP", a name and a password of
-- at most 127 bytes each, and "FinishP" store this name and this password in flash and nothing
-- else, arm the reboot if that succeeded, and leave pairing where a new attempt begins. Each of the
-- four lines is acknowledged, the last one also where the flash refused the credentials.
pub handle_lines_sequence :
    (env : FlashEnv) (ssid password : Bytes) (sock : ℤ) (p : Pairing) (c : Clients)
    → length ssid < value_size
    → length password < value_size
    → handle_lines default_prefixes env
        (codes "StartP\n"
          ∷ line_with (codes "ssid:") ssid
          ∷ line_with (codes "pass:") password
          ∷ codes "FinishP\n"
          ∷ [])
        sock
        p
        c
      ≡ (
        record {
          step = start_pairing;
          temp_ssid = ssid;
          temp_password = password;
          watched = false;
          flash = (flash_store_wifi_router_info env ssid password p.flash).0;
          rebooting =
              (if (flash_store_wifi_router_info env ssid password p.flash).1
                then true
                else p.rebooting);
        },
        ack sock (ack sock (ack sock (ack sock c))),
      )
unfolding handle_lines
handle_lines_sequence env ssid password sock p c h k =
    rw
      (
        start_line env sock p c,
        ssid_line env ssid sock (record p { step = set_router_ssid; watched = true }) (ack sock c) h
            refl,
        pass_line env password sock
            (record p { temp_ssid = ssid; step = set_router_pass; watched = true })
            (ack sock (ack sock c)) k refl,
        finish_line env sock
            (record p {
              temp_ssid = ssid;
              temp_password = password;
              step = finish_pairing;
              watched = true;
            })
            (ack sock (ack sock (ack sock c))) refl,
      )
      refl

-- The flash block changes by one line only, "FinishP" where it is due: any other line, in any step,
-- and any line in another step, leaves it as it is and arms no reboot.
pub handle_line_kept :
    (cy : Prefixes) (env : FlashEnv) (line : Bytes) (sock : ℤ) (p : Pairing) (c : Clients)
    → (p.step ≡ finish_pairing → has_prefix line (codes "FinishP") ≡ false)
    → ((pairing_handle_line cy env line sock p c).0.flash ≡ p.flash)
      × ((pairing_handle_line cy env line sock p c).0.rebooting ≡ p.rebooting)
unfolding pairing_handle_line
handle_line_kept cy env line sock p c h = ground (arith, h)

-- Each buffer has room for its text and a NUL.
abbrev pub IsBounded : Pairing → Type 0
IsBounded p = (length p.temp_ssid < value_size) × (length p.temp_password < value_size)

length-copy :
    (line prefix : Bytes) → length (copy_pairing_value line prefix suffix value_size) < value_size
unfolding copy_pairing_value
length-copy line prefix =
    let len = length line - length prefix - length suffix in
    elim (Bool-cases (leb value_size len)) [
      | inl e ↦ rw e (omega (arith, length-take (value_size - 1) (drop (length prefix) line)))
      | inr e ↦
          let k : len < value_size = ground (arith, e) in
          rw e (omega (arith, k, length-take len (drop (length prefix) line)))
    ]

-- However long the name or the password in a line is, the buffers never overflow.
pub handle_line-IsBounded :
    (cy : Prefixes) (env : FlashEnv) (line : Bytes) (sock : ℤ) (p : Pairing) (c : Clients)
    → IsBounded p
    → IsBounded (pairing_handle_line cy env line sock p c).0
unfolding pairing_handle_line pairing_commit
handle_line-IsBounded cy env line sock p c b =
    ground (arith, length-copy line cy.router_ssid, length-copy line cy.router_pass)
