-- ===== src/Frame/Nonces.antt =====
-- src/security/enc_frame.c: counters in nonces, replay, and a frame from end to end.
use cything.Prelude.{
  append-nil, ℕ, ◌/◌, ◌%◌, ◌^◌, ◌≤◌, ◌<◌, ◌≡◌, refl, sym, ap, ◌∙◌, none, some, [], ◌++◌, length,
  arith, drop,
}
use cything.Prelude.Bytes.{Bytes}
use cything.Session.{Session}
use cything.Device.{Env}
use cything.Frame.{
  put_u32, put_u64, get_u32, get_u64, open_frame, accepted, tx_nonce, dir_to_dev, dir_to_app,
  plain_max,
}

-- A 32-bit value survives the wire, whatever follows it.
pub get_u32-put_u32 : (v : ℕ) (s : Bytes) → v < 2 ^ 32 → get_u32 (put_u32 v ++ s) ≡ v
unfolding get_u32 put_u32
get_u32-put_u32 v s h = omega arith

drop-put_u32 : (v : ℕ) (s : Bytes) → drop 4 (put_u32 v ++ s) ≡ s
unfolding put_u32
drop-put_u32 v s = refl

-- A counter below 2^64 survives the wire.
pub get_u64-put_u64 : (v : ℕ) → v < 2 ^ 64 → get_u64 (put_u64 v) ≡ v
unfolding get_u64 put_u64
get_u64-put_u64 v h =
    rw
      (
        drop-put_u32 (v / 2 ^ 32 % 2 ^ 32) (put_u32 (v % 2 ^ 32)),
        get_u32-put_u32 (v / 2 ^ 32 % 2 ^ 32) (put_u32 (v % 2 ^ 32)) (omega arith),
      )
      (omega (
        arith,
        ap get_u32 (append-nil (put_u32 (v % 2 ^ 32))),
        get_u32-put_u32 (v % 2 ^ 32) [] (omega arith),
      ))

-- Two counters below 2^64 that give the same nonce to the phone are equal.
pub tx_nonce-injective : (m n : ℕ) → m < 2 ^ 64 → n < 2 ^ 64 → tx_nonce m ≡ tx_nonce n → m ≡ n
tx_nonce-injective m n hm hn e =
    sym (get_u64-put_u64 m hm)
    ∙ ap get_u64 (
        sym (drop-put_u32 dir_to_app (put_u64 m))
        ∙ ap (drop 4) e
        ∙ drop-put_u32 dir_to_app (put_u64 n))
    ∙ get_u64-put_u64 n hn

-- A frame is opened only if its nonce is of the direction to the device, its counter is above the
-- last one that was accepted, it decrypts under the session's key to the plaintext that is handed on,
-- and that is at most 768 bytes long.
pub open_frame_fresh :
    (env : Env) (s : Session) (nonce ct plain : Bytes)
    → open_frame env s nonce ct ≡ some plain
    → (get_u32 nonce ≡ dir_to_dev)
      × (s.rx_ctr < get_u64 (drop 4 nonce))
      × (env.aead_decrypt s.key nonce ct ≡ some plain)
      × (length plain ≤ plain_max)
unfolding open_frame
open_frame_fresh env s nonce ct plain h = ground arith

-- A frame that was just accepted is not opened again: its counter is the last one accepted now.
pub open_frame_replay :
    (env env' : Env) (s : Session) (nonce ct : Bytes)
    → open_frame env' (accepted nonce s) nonce ct ≡ none
unfolding open_frame
open_frame_replay env env' s nonce ct = ground arith
