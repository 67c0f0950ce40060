-- ===== src/Beacon/Mode.antt =====
-- The discovery mode of src/ble/discovery_mode.c over its life in RAM and in NVS.
use cything.Prelude.{ℕ, ◌≡◌, refl, true, false, Bool-cases, inl, inr}
use cything.Beacon.{
  DiscoveryMode, Nvs, open_fails, set_fails, commit_fails, nvs_works, valid_mode, mode_init,
  mode_set,
}

-- A mode that discovery_mode_set accepts is the mode at once and after the next boot; one that it
-- refuses, or could not store, changes neither.
pub mode_set-mode_init :
    (nvs : Nvs) (m : ℕ) (s : DiscoveryMode)
    → s ≡ mode_init s.saved
    → ((mode_set nvs m s).0 ≡ mode_init (mode_set nvs m s).0.saved)
      × (((mode_set nvs m s).1 ≡ true → (mode_set nvs m s).0.mode ≡ m)
          × ((mode_set nvs m s).1 ≡ false → (mode_set nvs m s).0 ≡ s))
unfolding mode_set mode_init
mode_set-mode_init nvs m s e = elim (Bool-cases (valid_mode m)) [
  | inr v ↦ rw (mode_set, v) (e, (λ t. cc, λ f. refl))
  | inl v ↦
      elim nvs
        as (λ n.
          ((mode_set n m s).0 ≡ mode_init (mode_set n m s).0.saved)
          × (((mode_set n m s).1 ≡ true → (mode_set n m s).0.mode ≡ m)
              × ((mode_set n m s).1 ≡ false → (mode_set n m s).0 ≡ s))) [
                | open_fails ↦ rw (mode_set, v) (e, (λ t. cc, λ f. refl))
                | set_fails ↦ rw (mode_set, v) (e, (λ t. cc, λ f. refl))
                | commit_fails ↦ rw (mode_set, v) (e, (λ t. cc, λ f. refl))
                | nvs_works ↦ rw (mode_set, v, v) (refl, (λ t. refl, λ f. cc))
              ]
]
