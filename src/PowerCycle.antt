-- ===== src/PowerCycle.antt =====
-- src/common/reset_handler.c and src/memory_handler/flash_reset_handler.c: the factory reset by power
-- cycling. A block of flash counts the boots that did not last two seconds.
pub mod Boots
use cything.Prelude.{
  ℕ, ◌+◌, ◌%◌, Bool, true, false, not, Option, none, some, List, [], ◌∷◌, ◌==◌, ltb, if◌then◌else◌,
}
use cything.Prelude.Bytes.{Bytes, codes}
use cything.Paired
use cything.Password
use cything.Events
use cything.WifiFlash

-- RESET_COUNTER_KEY and FLASH_EMPTY_VALUE.
abbrev pub counter_key : ℕ
counter_key = b'C'

abbrev pub flash_empty_value : ℕ
flash_empty_value = 255

-- `registeration_reset_counter`, and the two bytes of its record in flash.
pub record Counter : Type 0 where
  pub counter : ℕ
  pub key : ℕ
  pub value : ℕ

-- `flash_read_reset_counter`: whether `ota_read` succeeds is an argument, and the result.
unfoldable pub read_counter : Bool → Counter → Counter × Bool
read_counter ok c =
    if ok
    then (
      record c {
        counter =
            if c.key == counter_key
            then (if c.value == flash_empty_value then 0 else c.value)
            else 0;
      },
      true,
    )
    else (c, false)

-- `flash_erase_write_reset_counter`. An erase and write that fails is taken to leave the record.
unfoldable pub write_counter : Bool → ℕ → Counter → Counter
write_counter ok n c = if ok then record { counter = n; key = counter_key; value = n % 256 } else c

-- What a factory reset wipes.
pub record Appliance : Type 0 where
  pub counter : Counter
  pub paired : Paired.Paired
  pub password : Password.Password
  pub events : Events.Events
  pub wifi : Bytes

-- The outcomes of the drivers in a boot: the reading and the two writes of the counter, the writes of
-- the lists, the calls of the Wi-Fi credentials' partition, and the time of the event.
pub record BootEnv : Type 0 where
  pub read_ok : Bool
  pub count_ok : Bool
  pub clear_ok : Bool
  pub paired_ok : Bool
  pub password_ok : Bool
  pub event_ok : Bool
  pub wifi : WifiFlash.FlashEnv
  pub time : ℕ

-- The factory reset in `reset_handler`, up to the restart.
unfoldable pub factory_reset : BootEnv → Appliance → Appliance
unfolding write_counter Paired.clear Password.clear Events.push WifiFlash.erased
factory_reset env u = record {
  counter = write_counter env.count_ok 0 (record u.counter { counter = 0 });
  paired = (Paired.clear env.paired_ok u.paired).0;
  password = (Password.clear env.password_ok u.password).0;
  events = Events.push (codes "reset") [] [] env.time env.event_ok u.events;
  wifi =
      (WifiFlash.flash_store_mode env.wifi WifiFlash.wifi_ap_mode (codes "0") (codes "0") u.wifi).0;
}

-- How long a boot lasts: it is cut within two seconds of the count, or not.
pub data Uptime : Type 0 where
  short long : Uptime

-- The end of `reset_handler`, two seconds later.
unfoldable pub settle : BootEnv → Uptime → Appliance → Appliance
unfolding write_counter
settle env short u = u
settle env long u = record u {
  counter = write_counter env.clear_ok 0 (record u.counter { counter = 0 });
}

-- What `reset_handler` does with the count raised.
unfoldable pub count_or_reset : BootEnv → Uptime → Appliance → Appliance
unfolding write_counter factory_reset settle
count_or_reset env uptime u =
    if ltb 4 u.counter.counter
    then factory_reset env u
    else settle env uptime
        (record u { counter = write_counter env.count_ok u.counter.counter u.counter })

-- `reset_handler` in a boot of that length. A factory reset restarts, which ends the boot.
unfoldable pub reset_handler : BootEnv → Uptime → Appliance → Appliance
unfolding read_counter count_or_reset settle
reset_handler env uptime u =
    let r = read_counter env.read_ok u.counter in
    if r.1
    then count_or_reset env uptime (record u { counter = record r.0 { counter = r.0.counter + 1 } })
    else settle env uptime u
