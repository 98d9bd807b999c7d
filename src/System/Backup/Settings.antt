-- ===== src/System/Backup/Settings.antt =====
-- The admin password over a backup and a restore of components/http_app/dd_http_system.c.
use dingdong.Common.{
  not-ok, ℕ, ◌<◌, ◌≡◌, refl, sym, ap, ◌∙◌, Bool, true, false, not, ◌&&◌, some_eq, some, List,
  length, if◌then◌else◌, ◌==◌, arith, All, Err, is_ok, Bool-cases, inl, inr, Option-cases,
}
use dingdong.Nvs.{Nvs, KeepsBlobs, readonly}
use dingdong.Config.{
  Psa, pbkdf2, diff_loop, ns, get_admin_blob, set_admin_blob, verify_admin_password, has_admin,
  admin_salt_len, admin_hash_len, blob_of, key_admin_salt, key_admin_hash,
}
use dingdong.Config.Admin.{get_admin_blob-set}
use dingdong.System.Backup.{
  BackupConfig, backup_config, restore_config, restore_wifi, restore_admin, hex_encode_str,
}
use dingdong.System.Backup.Hex.{hex_decode-hex_encode_str}

module _ {S : Type 0} (nvs : Nvs S) where
  backup_config-blobs :
      (s : S) (salt hash : List ℕ)
      → get_admin_blob nvs s ≡ (Err.ok, salt, hash)
      → ((backup_config nvs s).admin_salt_hex ≡ some (hex_encode_str salt))
        × ((backup_config nvs s).admin_hash_hex ≡ some (hex_encode_str hash))
  unfolding backup_config
  backup_config-blobs s salt hash read = rw read (refl, refl)

  restore_admin-blobs :
      (c : BackupConfig) (s : S) (salt hash : List ℕ)
      → c.admin_salt_hex ≡ some (hex_encode_str salt)
      → c.admin_hash_hex ≡ some (hex_encode_str hash)
      → length salt ≡ admin_salt_len
      → length hash ≡ admin_hash_len
      → All (λ b. b < 256) salt
      → All (λ b. b < 256) hash
      → restore_admin nvs c s ≡ (set_admin_blob nvs salt hash s).1
  unfolding restore_admin
  restore_admin-blobs c s salt hash its_salt its_hash n16 n32 salt_bytes hash_bytes =
      let whole_salt : (length salt == 16) ≡ true = ground arith in
      let whole_hash : (length hash == 32) ≡ true = ground arith in
      rw
        (
          restore_admin,
          its_salt,
          hex_decode-hex_encode_str salt 16 salt_bytes (omega arith),
          whole_salt,
          its_hash,
          hex_decode-hex_encode_str hash 32 hash_bytes (omega arith),
          whole_hash,
        )
        refl

  -- The two blobs under a read that succeeded.
  get_admin_blob-cases :
      (s : S) (salt hash : List ℕ)
      → get_admin_blob nvs s ≡ (Err.ok, salt, hash)
      → (is_ok (nvs.opens readonly ns s) ≡ true)
        × (blob_of nvs admin_salt_len key_admin_salt s ≡ some salt)
        × (blob_of nvs admin_hash_len key_admin_hash s ≡ some hash)
  unfolding get_admin_blob
  get_admin_blob-cases s salt hash = elim (Bool-cases (is_ok (nvs.opens readonly ns s))) [
    | inr refused ↦
        rw refused (λ e. absurd (not-ok _ refused (ap (λ (r : Err × List ℕ × List ℕ). r.0) e)))
    | inl opened ↦ elim (Option-cases (blob_of nvs admin_salt_len key_admin_salt s)) [
      | inl no_salt ↦ rw (opened, no_salt) (λ e. absurd cc)
      | inr (a, its_salt) ↦ elim (Option-cases (blob_of nvs admin_hash_len key_admin_hash s)) [
        | inl no_hash ↦ rw (opened, its_salt, no_hash) (λ e. absurd cc)
        | inr (b, its_hash) ↦
            rw (opened, its_salt, its_hash)
              (λ e. (
                refl,
                ap (λ (r : Err × List ℕ × List ℕ). some r.1) e,
                ap (λ (r : Err × List ℕ × List ℕ). some r.2) e,
              ))
      ]
    ]
  ]

  -- What the check of a password makes of the blobs.
  abbrev checked : Psa → List ℕ → List ℕ → List ℕ → Err × Bool
  checked psa pw salt hash =
      let (err, got) = pbkdf2 psa pw salt admin_hash_len in
      if not (is_ok err) then (err, false) else (Err.ok, diff_loop 0 hash got == 0)

  verify_admin_password-blobs :
      (psa : Psa) (pw : List ℕ) (s : S) (salt hash : List ℕ)
      → get_admin_blob nvs s ≡ (Err.ok, salt, hash)
      → verify_admin_password nvs psa (some pw) s ≡ checked psa pw salt hash
  unfolding verify_admin_password
  verify_admin_password-blobs psa pw s salt hash read =
      let (opens, its_salt, its_hash) = get_admin_blob-cases s salt hash read in
      rw (opens, its_salt, its_hash) refl

  blob_of-size :
      (size : ℕ) (key : List ℕ) (s : S) (v : List ℕ)
      → blob_of nvs size key s ≡ some v
      → length v ≡ size
  blob_of-size size key s v =
      elim (Bool-cases
        (is_ok (nvs.get_blob ns key s).0 && (length (nvs.get_blob ns key s).1 == size))) [
          | inl whole ↦ rw whole (λ e. let same = some_eq e in ground (arith, whole, same))
          | inr part ↦ rw part (λ e. absurd cc)
        ]

  -- The settings of a device with an admin password, backed up and restored onto another one, where the store keeps blobs, takes those of the
  -- password and opens afterwards: that one has an admin password, and every password is accepted or refused there as on the first device.
  pub restore_config-verifies :
      (psa : Psa) (pw : List ℕ) (s fresh : S) (salt hash : List ℕ)
      → KeepsBlobs nvs
      → get_admin_blob nvs s ≡ (Err.ok, salt, hash)
      → All (λ b. b < 256) salt
      → All (λ b. b < 256) hash
      → let c = backup_config nvs s in
        (set_admin_blob nvs salt hash (restore_wifi nvs c fresh)).0 ≡ Err.ok
        → nvs.opens readonly ns (restore_config nvs (some c) fresh) ≡ Err.ok
        → (has_admin nvs (restore_config nvs (some c) fresh) ≡ true)
          × (verify_admin_password nvs psa (some pw) (restore_config nvs (some c) fresh)
              ≡ verify_admin_password nvs psa (some pw) s)
  unfolding restore_config
  restore_config-verifies psa pw s fresh salt hash keeps read salt_bytes hash_bytes ok opened =
      let c = backup_config nvs s in
      let fresh' = restore_wifi nvs c fresh in
      let (opens, salt_blob, hash_blob) = get_admin_blob-cases s salt hash read in
      let n16 = blob_of-size admin_salt_len key_admin_salt s salt salt_blob in
      let n32 = blob_of-size admin_hash_len key_admin_hash s hash hash_blob in
      let (its_salt, its_hash) = backup_config-blobs s salt hash read in
      let restored =
        restore_admin-blobs c fresh' salt hash its_salt its_hash n16 n32 salt_bytes hash_bytes in
      let opened' : nvs.opens readonly ns (set_admin_blob nvs salt hash fresh').1 ≡ Err.ok =
        ap (nvs.opens readonly ns) (sym restored) ∙ opened in
      let (same, admin) = get_admin_blob-set nvs fresh' salt hash keeps n16 n32 ok opened' in
      (
        ap (has_admin nvs) restored ∙ admin,
        ap (verify_admin_password nvs psa (some pw)) restored
            ∙ (verify_admin_password-blobs psa pw (set_admin_blob nvs salt hash fresh').1 salt hash
                  same
                ∙ sym (verify_admin_password-blobs psa pw s salt hash read)),
      )
