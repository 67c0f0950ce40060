-- ===== src/PowerCycle/Boots.antt =====
-- Sequences of boots under src/common/reset_handler.c.
use cything.Paired.{image, nvs_store}
use cything.Paired
use cything.Password
use cything.Events
use mathlib.Core.Path.{subst}
use cything.Prelude.Bytes.{Bytes, codes}
use cything.Prelude.Every.{Every}
use cything.Prelude.{
  if_false, ap, ◌∙◌, sym, ◌++◌, none, ℕ, ◌+◌, ◌<◌, ◌≡◌, refl, arith, Bool, true, false, List, [],
  ◌∷◌, ltb,
}
use cything.PowerCycle.{
  Appliance, Counter, BootEnv, Uptime, short, long, counter_key, read_counter, write_counter,
  factory_reset, count_or_reset, settle, reset_handler,
}

-- The flash counts this many short boots.
pub record Counts (n : ℕ) (u : Appliance) : Type 0 where
  pub key : u.counter.key ≡ counter_key
  pub value : u.counter.value ≡ n

-- The drivers of the counter work.
pub record Works (env : BootEnv) : Type 0 where
  pub read_ok : env.read_ok ≡ true
  pub count_ok : env.count_ok ≡ true
  pub clear_ok : env.clear_ok ≡ true

-- The count that a boot leaves.
abbrev pub after : Uptime → ℕ → ℕ
after short n = n + 1
after long n = 0

-- The count as `reset_handler` raises it.
abbrev raised : ℕ → Appliance → Appliance
raised n u = record u { counter = record u.counter { counter = n + 1 } }

read_lem :
    (ok : Bool) (n : ℕ) (c : Counter)
    → ok ≡ true
    → c.key ≡ counter_key
    → c.value ≡ n
    → n < 255
    → read_counter ok c ≡ (record c { counter = n }, true)
unfolding read_counter
read_lem ok n c o k v h = ground (arith, o, k, v, h)

handler_lem :
    (env : BootEnv) (uptime : Uptime) (n : ℕ) (u : Appliance)
    → Works env
    → Counts n u
    → n < 255
    → reset_handler env uptime u ≡ count_or_reset env uptime (raised n u)
unfolding reset_handler
handler_lem env uptime n u w c h =
    rw (reset_handler, read_lem env.read_ok n u.counter w.read_ok c.key c.value h) refl

write_lem :
    (ok : Bool) (n : ℕ) (c : Counter)
    → ok ≡ true
    → n < 256
    → write_counter ok n c ≡ record { counter = n; key = counter_key; value = n }
unfolding write_counter
write_lem ok n c o h = ground (arith, o, h)

abbrev pub counted : ℕ → Counter
counted n = record { counter = n; key = counter_key; value = n }

counted_lem :
    (env : BootEnv) (uptime : Uptime) (n : ℕ) (u : Appliance)
    → Works env
    → n < 4
    → count_or_reset env uptime (raised n u)
      ≡ settle env uptime (record u { counter = counted (n + 1) })
unfolding count_or_reset
counted_lem env uptime n u w h =
    let v = record u {
      counter = write_counter env.count_ok (n + 1) (record u.counter { counter = n + 1 });
    } in
    let small : ltb 4 (n + 1) ≡ false = ground (arith, h) in
    if_false (ltb 4 (n + 1)) (factory_reset env (raised n u)) (settle env uptime v) small
    ∙ ap (λ c. settle env uptime (record u { counter = c }))
        (write_lem env.count_ok (n + 1) (record u.counter { counter = n + 1 }) w.count_ok
          (omega arith))

settled_lem :
    (env : BootEnv) (uptime : Uptime) (n : ℕ) (u : Appliance)
    → Works env
    → settle env uptime (record u { counter = counted (n + 1) })
      ≡ record u { counter = counted (after uptime n) }
unfolding settle
settled_lem env short n u w = refl
settled_lem env long n u w =
    ap (λ c. record u { counter = c })
      (write_lem env.clear_ok 0 (record (counted (n + 1)) { counter = 0 }) w.clear_ok (omega arith))

-- With at most three short boots behind it, a boot only counts: it leaves one short boot more in
-- flash, or none if it lasts, and nothing is wiped.
pub reset_handler-counted :
    (env : BootEnv) (uptime : Uptime) (n : ℕ) (u : Appliance)
    → Works env
    → Counts n u
    → n < 4
    → reset_handler env uptime u ≡ record u { counter = counted (after uptime n) }
reset_handler-counted env uptime n u w c h =
    handler_lem env uptime n u w c (omega arith)
    ∙ counted_lem env uptime n u w h
    ∙ settled_lem env uptime n u w

-- No account and no password is left in RAM, and none in flash if it could be written.
pub record IsWiped (paired_ok password_ok : Bool) (u : Appliance) : Type 0 where
  pub ram : u.paired.ram ≡ Paired.empty_blob
  pub flash : paired_ok ≡ true → u.paired.flash ≡ Paired.absent
  pub password : Password.is_set u.password ≡ false
  pub stored : password_ok ≡ true → u.password.stored.pair ≡ none

-- A pushed event is the last of the queue.
pushed-last :
    (kind sub role : Bytes) (time : ℕ) (ok : Bool) (e : Events.Events)
    → (before : List Bytes) × (Events.push kind sub role time ok e).queue
        ≡ before ++ (Events.event_json kind sub role time ∷ [])
unfolding Events.push
pushed-last kind sub role time true e = (_, refl)
pushed-last kind sub role time false e = (_, refl)

fifth_lem :
    (env : BootEnv) (uptime : Uptime) (u : Appliance)
    → Works env
    → Counts 4 u
    → reset_handler env uptime u ≡ factory_reset env (raised 4 u)
unfolding count_or_reset
fifth_lem env uptime u w c = handler_lem env uptime 4 u w c (omega arith)

factory_reset-IsWiped :
    (env : BootEnv) (u : Appliance) → IsWiped env.paired_ok env.password_ok (factory_reset env u)
unfolding factory_reset Paired.clear nvs_store Password.clear Password.is_set image
factory_reset-IsWiped env u = record {
  ram = ground arith;
  flash = λ h. ground (arith, h);
  password = refl;
  stored = λ h. ground (arith, h);
}

-- If in a boot the counter can be read and every write of it succeeds, and the flash holds four
-- short boots behind it, it is a factory reset, however long it would have lasted: no paired
-- account and no device password is left in RAM, none in flash where the flash can be written, the
-- newest of the queued events is the reset, and no short boot is counted any more.
pub reset_handler-fifth :
    (env : BootEnv) (uptime : Uptime) (u : Appliance)
    → Works env
    → Counts 4 u
    → IsWiped env.paired_ok env.password_ok (reset_handler env uptime u)
      × ((before : List Bytes) × (reset_handler env uptime u).events.queue
            ≡ before ++ (Events.event_json (codes "reset") [] [] env.time ∷ []))
      × (reset_handler env uptime u).counter ≡ counted 0
unfolding factory_reset
reset_handler-fifth env uptime u w c =
    let e = fifth_lem env uptime u w c in
    let (before, last) = pushed-last (codes "reset") [] [] env.time env.event_ok u.events in
    (
      subst (IsWiped env.paired_ok env.password_ok) (sym e)
          (factory_reset-IsWiped env (raised 4 u)),
      (before, ap (λ v. v.events.queue) e ∙ last),
      ap (λ v. v.counter) e
          ∙ write_lem env.count_ok 0 (record u.counter { counter = 0 }) w.count_ok (omega arith),
    )

-- Boots in their order.
unfoldable pub boots : List (BootEnv × Uptime) → Appliance → Appliance
unfolding reset_handler
boots [] u = u
boots (b ∷ bs) u = boots bs (reset_handler b.0 b.1 u)

-- No boot of the list has four short ones right before it, the `n` before the list included.
abbrev pub NoFifth : ℕ → List (BootEnv × Uptime) → Type 0
NoFifth n [] = Unit
NoFifth n (b ∷ bs) = (n < 4) × NoFifth (after b.1 n) bs

-- If the flash holds the count of the short boots so far, if in every boot the counter can be read and
-- every write of it succeeds, and as long as no four boots in a row are cut
-- within two seconds and followed by a further boot, power cycling wipes nothing, however often it is
-- done: the boots change nothing but the counter.
pub boots-Kept :
    (bs : List (BootEnv × Uptime)) (n : ℕ) (u : Appliance)
    → Every (λ b. Works b.0) bs
    → Counts n u
    → NoFifth n bs
    → (c : Counter) × (boots bs u ≡ record u { counter = c })
unfolding boots
boots-Kept [] n u w c h = (u.counter, refl)
boots-Kept (b ∷ bs) n u w c h =
    let now = record u { counter = counted (after b.1 n) } in
    let (last, e) = boots-Kept bs (after b.1 n) now w.1 (record { key = refl; value = refl }) h.1 in
    (last, ap (boots bs) (reset_handler-counted b.0 b.1 n u w.0 c h.0) ∙ e)
