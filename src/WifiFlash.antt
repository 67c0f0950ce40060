-- ===== src/WifiFlash.antt =====
-- src/memory_handler/flash_wifi_info_handler.c: the Wi-Fi credentials in their flash partition. The
-- partition's first block stands for it; the drivers that erase, write and read it are I/O.
pub mod Stored
use cything.Prelude.{
  ℕ, ◌+◌, Bool, true, false, not, [], ◌∷◌, ◌++◌, ◌==◌, if◌then◌else◌, length, take, drop, replicate,
}
use cything.Prelude.Bytes.{Bytes, codes}

-- The offsets and sizes of flash_wifi_info_handler.h.
abbrev pub flash_router_ssid_offset : ℕ
flash_router_ssid_offset = 256

abbrev pub flash_router_password_offset : ℕ
flash_router_password_offset = 1024

abbrev pub flash_field_size : ℕ
flash_field_size = 256

-- WIFI_STA_MODE.
abbrev pub wifi_sta_mode : Bytes
wifi_sta_mode = codes "WiMStA\r\n"

-- WIFI_AP_MODE.
abbrev pub wifi_ap_mode : Bytes
wifi_ap_mode = codes "WiMAcP\r\n"

-- How the drivers behave during one call: whether the n-th of their calls succeeds, and what lies
-- behind the text of the mode in memory, from which 256 bytes are written.
pub record FlashEnv : Type 0 where
  pub ok : ℕ → Bool
  pub behind_mode : Bytes

-- `ota_erase` of the block.
unfoldable pub erased : Bytes
erased = replicate 4096 255

-- `ota_write` at an offset.
abbrev pub write_at : Bytes → ℕ → Bytes → Bytes
write_at block at bytes = take at block ++ (bytes ++ drop (at + length bytes) block)

-- A C string with its NUL.
abbrev pub with_nul : Bytes → Bytes
with_nul s = s ++ (0 ∷ [])

-- `flash_store_wifi_router_info` with lengths that count the NUL, as its callers give them: the block,
-- and whether ESP_OK is returned. The reading before it, the first call of a driver, only fills
-- buffers in RAM.
abbrev pub flash_store_mode : FlashEnv → Bytes → Bytes → Bytes → Bytes → Bytes × Bool
unfolding erased
flash_store_mode env wifi_mode ssid password block =
    let mode = take flash_field_size (with_nul wifi_mode ++ env.behind_mode) in
    let b1 = write_at erased 0 mode in
    let b2 = write_at b1 flash_router_ssid_offset (with_nul ssid) in
    let b3 = write_at b2 flash_router_password_offset (with_nul password) in
    if not (env.ok 0)
    then (block, false)
    else if not (env.ok 1)
    then (block, false)
    else if not (env.ok 2)
    then (erased, false)
    else if not (env.ok 3)
    then (b1, false)
    else if not (env.ok 4)
    then (b2, false)
    else (b3, true)

-- That function in station mode, as `pairing_commit` calls it.
unfoldable pub flash_store_wifi_router_info : FlashEnv → Bytes → Bytes → Bytes → Bytes × Bool
unfolding erased
flash_store_wifi_router_info env ssid password block =
    flash_store_mode env wifi_sta_mode ssid password block

-- A C string that starts in a buffer.
unfoldable pub c_string : Bytes → Bytes
c_string [] = []
c_string (c ∷ s) = let rest = c_string s in if c == 0 then [] else c ∷ rest

-- `flash_router_ssid` and `flash_router_password` as strings, after `flash_read_wifi_router_info`.
unfoldable pub flash_router_ssid : Bytes → Bytes
unfolding c_string
flash_router_ssid block = c_string (take flash_field_size (drop flash_router_ssid_offset block))

unfoldable pub flash_router_password : Bytes → Bytes
unfolding c_string
flash_router_password block =
    c_string (take flash_field_size (drop flash_router_password_offset block))
