-- ===== src/WifiFlash/Stored.antt =====
-- What src/memory_handler/flash_wifi_info_handler.c stores is what it reads at the next boot.
use cything.Prelude.{
  ℕ, zero, suc, ◌+◌, ◌≤◌, ◌<◌, ◌≡◌, ◌≢◌, refl, ap, ◌∙◌, arith, Bool, true, false, not, [], ◌∷◌,
  ◌++◌, if◌then◌else◌, length, take, drop, length-append, length-take, length-replicate, ◌==◌,
}
use cything.Prelude.Bytes.{Bytes}
use cything.Prelude.Every.{Every}
use cything.Fifo.Blocks.{drop-exact, length-overwrite}
use cything.WifiFlash.{
  FlashEnv, flash_store_wifi_router_info, flash_router_ssid, flash_router_password,
  flash_router_ssid_offset, flash_router_password_offset, flash_field_size, with_nul, write_at,
  erased, c_string, wifi_sta_mode,
}

-- No NUL.
abbrev pub IsString : Bytes → Type 0
IsString = Every (λ c. c ≢ 0)

c_string-with_nul :
    (n : ℕ) (s rest : Bytes)
    → IsString s
    → length s < n
    → c_string (take n (with_nul s ++ rest)) ≡ s
unfolding c_string
c_string-with_nul zero s rest h k = absurd (omega arith)
c_string-with_nul (suc n) [] rest h k = refl
c_string-with_nul (suc n) (c ∷ s) rest h k =
    rw (not_nul, c_string-with_nul n s rest h.1 (omega (arith, k))) refl
  where
    not_nul : (c == 0) ≡ false
    not_nul = ground (arith, h.0)

-- A write does not reach what lies before it.
take-drop-append :
    (m k : ℕ) (xs ys : Bytes) → m + k ≤ length xs → take k (drop m (xs ++ ys)) ≡ take k (drop m xs)
take-drop-append zero zero xs ys h = refl
take-drop-append zero (suc k) [] ys h = absurd (omega arith)
take-drop-append zero (suc k) (x ∷ xs) ys h =
    ap (λ t. x ∷ t) (take-drop-append zero k xs ys (omega (arith, h)))
take-drop-append (suc m) k [] ys h = absurd (omega arith)
take-drop-append (suc m) k (x ∷ xs) ys h = take-drop-append m k xs ys (omega (arith, h))

take-drop-take :
    (m k n : ℕ) (xs : Bytes) → m + k ≤ n → take k (drop m (take n xs)) ≡ take k (drop m xs)
take-drop-take zero zero n xs h = refl
take-drop-take zero (suc k) zero xs h = absurd (omega arith)
take-drop-take zero (suc k) (suc n) [] h = refl
take-drop-take zero (suc k) (suc n) (x ∷ xs) h =
    ap (λ t. x ∷ t) (take-drop-take zero k n xs (omega (arith, h)))
take-drop-take (suc m) k zero xs h = absurd (omega arith)
take-drop-take (suc m) k (suc n) [] h = refl
take-drop-take (suc m) k (suc n) (x ∷ xs) h = take-drop-take m k n xs (omega (arith, h))

before-write_at :
    (m k n : ℕ) (block bytes : Bytes)
    → m + k ≤ n
    → n ≤ length block
    → take k (drop m (write_at block n bytes)) ≡ take k (drop m block)
before-write_at m k n block bytes h l =
    take-drop-append m k (take n block) (bytes ++ drop (n + length bytes) block)
      (omega (arith, h, l, length-take n block))
    ∙ take-drop-take m k n block h

at-write_at :
    (n : ℕ) (block bytes : Bytes)
    → n ≤ length block
    → drop n (write_at block n bytes) ≡ bytes ++ drop (n + length bytes) block
at-write_at n block bytes l =
    drop-exact n (take n block) (bytes ++ drop (n + length bytes) block)
      (omega (arith, l, length-take n block))

-- The calls of the drivers in their order: the outcome is good only if every call was.
last_block :
    (o0 o1 o2 o3 o4 : Bool) (block b0 b1 b2 b3 : Bytes) (r : Bytes × Bool)
    → r ≡ (
        if not o0
        then (block, false)
        else if not o1
        then (block, false)
        else if not o2
        then (b0, false)
        else if not o3
        then (b1, false)
        else if not o4
        then (b2, false)
        else (b3, true))
    → r.1 ≡ true
    → r.0 ≡ b3
last_block o0 o1 o2 o3 o4 block b0 b1 b2 b3 r e h = ground (arith, e, h)

module _ (env : FlashEnv) (ssid password block : Bytes) (s : IsString ssid) (p : IsString password)
    (short_ssid : length ssid < flash_field_size)
    (short_password : length password < flash_field_size) where
  b1 : Bytes
  b1 = write_at erased 0 (take flash_field_size (with_nul wifi_sta_mode ++ env.behind_mode))

  b2 : Bytes
  b2 = write_at b1 flash_router_ssid_offset (with_nul ssid)

  b3 : Bytes
  b3 = write_at b2 flash_router_password_offset (with_nul password)

  length-b1 : length b1 ≡ 4096
  unfolding b1 erased
  length-b1 =
      length-overwrite erased (take flash_field_size (with_nul wifi_sta_mode ++ env.behind_mode)) 0
        (omega (
          arith,
          length-take flash_field_size (with_nul wifi_sta_mode ++ env.behind_mode),
          length-replicate {A = ℕ} 4096 255,
        ))
      ∙ length-replicate {A = ℕ} 4096 255

  length-b2 : length b2 ≡ 4096
  unfolding b2
  length-b2 =
      length-overwrite b1 (with_nul ssid) flash_router_ssid_offset
        (omega (arith, length-b1, length-append ssid (0 ∷ []), short_ssid))
      ∙ length-b1

  ssid-b3 : flash_router_ssid b3 ≡ ssid
  unfolding flash_router_ssid b3 b2
  ssid-b3 =
      ap c_string (
        before-write_at flash_router_ssid_offset flash_field_size flash_router_password_offset b2
          (with_nul password) (omega arith) (omega (arith, length-b2)))
      ∙ ap (λ t. c_string (take flash_field_size t))
          (at-write_at flash_router_ssid_offset b1 (with_nul ssid) (omega (arith, length-b1)))
      ∙ c_string-with_nul flash_field_size ssid _ s short_ssid

  password-b3 : flash_router_password b3 ≡ password
  unfolding flash_router_password b3
  password-b3 =
      ap (λ t. c_string (take flash_field_size t))
        (at-write_at flash_router_password_offset b2 (with_nul password) (omega (arith, length-b2)))
      ∙ c_string-with_nul flash_field_size password _ p short_password

  -- When storing a name and a password of at most 255 bytes without a NUL returns ESP_OK, the next
  -- reading gives exactly these back, whatever was in flash before.
  pub stored_lem :
      (flash_store_wifi_router_info env ssid password block).1 ≡ true
      → (flash_router_ssid (flash_store_wifi_router_info env ssid password block).0 ≡ ssid)
        × (flash_router_password (flash_store_wifi_router_info env ssid password block).0
            ≡ password)
  unfolding flash_store_wifi_router_info b3 b2 b1
  stored_lem ok =
      let last =
        last_block (env.ok 0) (env.ok 1) (env.ok 2) (env.ok 3) (env.ok 4) block erased b1 b2 b3
          (flash_store_wifi_router_info env ssid password block) refl ok in
      (ap flash_router_ssid last ∙ ssid-b3, ap flash_router_password last ∙ password-b3)
