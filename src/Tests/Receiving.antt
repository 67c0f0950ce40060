-- ===== src/Tests/Receiving.antt =====
-- The receive loop, the device's runs and the replies, at concrete inputs.
use cything.Tests.{echo, device, alice_row, bob_row}
use cything.Prelude.{◌≡◌, refl, true, List, [], ◌∷◌, pos, replicate, arith}
use cything.Prelude.Bytes.{codes, decimal, digits, split_byte, bytes_eq, digits_value}
use cything.Fifo
use cything.Fifo.{ends_line}
use cything.Password
use cything.Session
use cything.Paired.Stored.{HoldsList}
use cything.Paired.{EntryV2, v2, same_sub, role_for, migrate_entry, copy_field, Blob, live, dedupe}
use cything.Paired.Deduping.{dedupe_lem, firsts}
use cything.Paired.Subs.{DistinctSubs}
use cything.Device.{Device}
use cything.Dispatch.Invariant.{IsValid}
use cything.Dispatch.Runs.{booted, restart, Reachable-IsValid}
use cything.Framing.{feed}
use cything.Framing.Lines.{Message, complete, broken, stream, completed, feed-stream}
use cything.Clients.{
  strtol, skip_space, signed_long, unsigned_long, Clients, parse_target, route, response_send,
  raw_text, decimal_ℤ,
}
use cything.Clients.Replies.{send_all, answer, response_send-send_all}
use cything.Clients.Routing.{packets, route_private}
use cything.Clients.Accepting.{
  InStep, accepted, closed, changed_all, changed_all-InStep, entries, slots,
}
use cything.Policy.{sock_authenticated}

-- A device whose flash has a list of the former format, with one owner.
abbrev old_row : EntryV2
old_row = record {
  user_sub = codes "alice";
  display_name = codes "phone";
  key = replicate 32 7;
  paired_at = 0;
  role = 2;
}

abbrev new_device : Device
new_device = record device {
  paired = record device.paired { flash = v2 1 (codes "alice") (old_row ∷ []) };
}

old-HoldsList : HoldsList new_device.paired.flash
unfolding same_sub role_for bytes_eq migrate_entry copy_field
old-HoldsList = λ fit. record {
  versioned = refl;
  size = refl;
  within = omega arith;
  wiped = refl;
  distinct = (tt, tt);
  roles = (refl, tt);
  owned = λ p. refl;
}

Reachable-IsValid_example : IsValid (restart true true true new_device new_device)
Reachable-IsValid_example =
    Reachable-IsValid (restart true true true new_device new_device)
      (booted true true true new_device old-HoldsList)

-- Alice twice, and Bob between.
abbrev three_rows : Blob
three_rows = record {
  version = 3;
  count = 3;
  owner_sub = [];
  entries = alice_row ∷ bob_row ∷ alice_row ∷ replicate 13 bob_row;
}

dedupe_lem_example :
    (live (dedupe three_rows).0 ≡ firsts (live three_rows))
    × DistinctSubs (live (dedupe three_rows).0)
dedupe_lem_example = dedupe_lem three_rows refl (omega arith)

abbrev messages : List Message
messages = complete (codes "StartP") ∷ broken (codes "ssid") ∷ complete (codes "LIST") ∷ []

feed-stream_example : feed (stream messages) [] ≡ ([], completed messages)
feed-stream_example =
    feed-stream messages (
      (ground arith, omega arith),
      ((ground arith, omega arith), ((ground arith, omega arith), tt)),
    )

-- Clients on sockets 4 and 5, and nothing queued.
abbrev two_clients : Clients
two_clients = record {
  accounts = pos 4 ∷ pos 5 ∷ [];
  response_id = 10;
  tcp_response_fifo = Fifo.init;
  mqtt_response_fifo = Fifo.init;
}

response_send-send_all_example :
    (response_send echo (send_all ((4, codes "ACK") ∷ (9, codes "ACK") ∷ []) two_clients) device).1
    ≡ answer echo two_clients.accounts ((4, codes "ACK") ∷ (9, codes "ACK") ∷ []) device
unfolding raw_text decimal_ℤ decimal digits ends_line
response_send-send_all_example =
    response_send-send_all echo ((4, codes "ACK") ∷ (9, codes "ACK") ∷ []) two_clients device
      (
        (ground arith, omega arith, omega arith, omega arith),
        ((ground arith, omega arith, omega arith, omega arith), tt),
      )
      refl (omega arith)

-- Socket 7 has no session.
route_private_example :
    packets (pos 7) (route echo (pos 4 ∷ pos 7 ∷ []) (codes "0:11:on\n") device).out
    ≡ packets (pos 7) device.out
unfolding sock_authenticated Session.find Password.is_set parse_target split_byte strtol skip_space
    signed_long unsigned_long digits_value
route_private_example =
    route_private echo (pos 4 ∷ pos 7 ∷ []) (codes "0:11:on\n") (codes "11:on\n") (pos 0) (pos 7)
      device refl (λ e. cc) (λ e. ground (arith, e)) refl refl

at_first : InStep (pos 4 ∷ pos 5 ∷ []) device.pool
unfolding entries slots Session.count
at_first = record { same_socks = λ t n. ground (arith, n); same_count = refl }

changed_all-InStep_example :
    InStep
      (changed_all (accepted (pos 7) 9 true ∷ closed (pos 4) ∷ []) (pos 4 ∷ pos 5 ∷ []) device).0
      (changed_all
        (accepted (pos 7) 9 true ∷ closed (pos 4) ∷ [])
        (pos 4 ∷ pos 5 ∷ [])
        device).1.pool
changed_all-InStep_example =
    changed_all-InStep (accepted (pos 7) 9 true ∷ closed (pos 4) ∷ []) (pos 4 ∷ pos 5 ∷ []) device
      (λ e. cc, (λ e. cc, tt)) at_first
