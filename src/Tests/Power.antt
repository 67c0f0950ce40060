-- ===== src/Tests/Power.antt =====
-- The beacon and the factory reset at concrete inputs.
use cything.Prelude.{◌++◌, ℕ, ◌≡◌, refl, arith, true, List, [], ◌∷◌}
use cything.Prelude.Bytes.{Bytes, codes}
use cything.Events
use cything.Beacon.{
  Host, Event, beacon_start, host_sync, got_ip, step, steps, boot, start_advertising,
  stop_advertising, should_advertise_ble, discovery_both,
}
use cything.Beacon.Air.{beacon_present}
use cything.PowerCycle.{
  Appliance, Counter, BootEnv, Uptime, short, long, counter_key, reset_handler,
}
use cything.PowerCycle.Boots.{IsWiped, Works, counted, boots, boots-Kept, reset_handler-fifth}
use cything.Tests.{two_paired, set_password}

abbrev host : Host
host = record { stop_ok = true; fields_ok = true; response_ok = true; start_ok = true }

-- The station gets an address, and then another one.
abbrev ten : Bytes
ten = 10 ∷ 0 ∷ 0 ∷ 1 ∷ []

abbrev eleven : Bytes
eleven = 10 ∷ 0 ∷ 0 ∷ 2 ∷ []

abbrev moves : List (Event × (ℕ × Host))
moves =
    (beacon_start, (discovery_both, host))
    ∷ (host_sync true, (discovery_both, host))
    ∷ (got_ip ten, (discovery_both, host))
    ∷ (got_ip eleven, (discovery_both, host))
    ∷ []

beacon_present_example :
    ((steps moves boot).address ≡ eleven)
    × ((steps moves boot).have_ip ≡ true)
    × ((steps moves boot).host_ready ≡ true)
unfolding steps step start_advertising stop_advertising should_advertise_ble
beacon_present_example = beacon_present moves eleven (refl, (refl, (refl, (refl, tt)))) refl

abbrev boot_env : BootEnv
boot_env = record {
  read_ok = true;
  count_ok = true;
  clear_ok = true;
  paired_ok = true;
  password_ok = true;
  event_ok = true;
  wifi = record { ok = λ n. true; behind_mode = [] };
  time = 5;
}

works : Works boot_env
works = record { read_ok = refl; count_ok = refl; clear_ok = refl }

abbrev appliance : ℕ → Appliance
appliance n = record {
  counter = record { counter = 0; key = counter_key; value = n };
  paired = two_paired;
  password = set_password;
  events = record { queue = []; flash = [] };
  wifi = [];
}

abbrev three_short_one_long : List (BootEnv × Uptime)
three_short_one_long =
    (boot_env, short) ∷ (boot_env, short) ∷ (boot_env, short) ∷ (boot_env, long) ∷ []

boots-Kept_example :
    (c : Counter) × (boots three_short_one_long (appliance 0)
      ≡ record (appliance 0) { counter = c })
boots-Kept_example =
    boots-Kept three_short_one_long 0 (appliance 0) (works, (works, (works, (works, tt))))
      (record { key = refl; value = refl })
      (omega arith, (omega arith, (omega arith, (omega arith, tt))))

reset_handler-fifth_example :
    IsWiped true true (reset_handler boot_env short (appliance 4))
    × ((before : List Bytes) × (reset_handler boot_env short (appliance 4)).events.queue
          ≡ before ++ (Events.event_json (codes "reset") [] [] 5 ∷ []))
    × (reset_handler boot_env short (appliance 4)).counter ≡ counted 0
reset_handler-fifth_example =
    reset_handler-fifth boot_env short (appliance 4) works (record { key = refl; value = refl })
