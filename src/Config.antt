-- ===== src/Config.antt =====
-- components/config/dd_config.c: the settings in the NVS. The NVS and the PSA crypto library are
-- arguments. The build is the one without DEBUG_WIFI_SSID. The rest of the file, counters of boots and uptime, is Metrics.
pub mod Compare
pub mod Admin
pub mod Wifi
pub mod Erase
pub mod Device
pub mod Reset
mod Tests
use dingdong.Common.{
  ℕ, zero, suc, ◌+◌, ◌*◌, ◌/◌, ◌%◌, max, Bool, true, false, not, ◌&&◌, ◌||◌, Option, none, some,
  List, [], ◌∷◌, ◌++◌, length, ltb, leb, ◌==◌, if◌then◌else◌, Err, is_ok, codes,
}
use dingdong.Nvs.{Nvs, readonly, readwrite}

-- NS and the keys
abbrev pub ns : List ℕ
ns = codes "dingdong"

abbrev pub key_admin_salt : List ℕ
key_admin_salt = codes "admin_salt"

abbrev pub key_admin_hash : List ℕ
key_admin_hash = codes "admin_hash"

abbrev pub key_wifi_ssid : List ℕ
key_wifi_ssid = codes "wifi_ssid"

abbrev pub key_wifi_pass : List ℕ
key_wifi_pass = codes "wifi_pass"

abbrev pub key_device_name : List ℕ
key_device_name = codes "dev_name"

-- ADMIN_SALT_LEN, ADMIN_HASH_LEN, PBKDF2_ITERS, DD_WIFI_SSID_MAX, DD_WIFI_PASS_MAX, DD_DEVICE_NAME_MAX
abbrev pub admin_salt_len : ℕ
admin_salt_len = 16

abbrev pub admin_hash_len : ℕ
admin_hash_len = 32

abbrev pub pbkdf2_iters : ℕ
pbkdf2_iters = 20000

abbrev pub wifi_ssid_max : ℕ
wifi_ssid_max = 32

abbrev pub wifi_pass_max : ℕ
wifi_pass_max = 64

abbrev pub device_name_max : ℕ
device_name_max = 20

-- The key derivation of the PSA library: whether each step succeeds, and what comes out for a
-- password, a salt, a cost and a length.
pub record Psa : Type 0 where
  pub setup : Bool
  pub input_cost : ℕ → Bool
  pub input_salt : List ℕ → Bool
  pub input_password : List ℕ → Bool
  pub output : List ℕ → List ℕ → ℕ → ℕ → Option (List ℕ)

-- pbkdf2
unfoldable pub pbkdf2 : Psa → List ℕ → List ℕ → ℕ → Err × List ℕ
pbkdf2 psa password salt out_len =
    if not psa.setup
    then (Err.fail, [])
    else if not (psa.input_cost pbkdf2_iters)
    then (Err.fail, [])
    else if not (psa.input_salt salt)
    then (Err.fail, [])
    else if not (psa.input_password password)
    then (Err.fail, [])
    else elim (psa.output password salt pbkdf2_iters out_len) [
      | none ↦ (Err.fail, [])
      | some out ↦ (Err.ok, out)
    ]

-- `^` and `|` of bytes, bit by bit
unfoldable pub bitwise : (ℕ → ℕ → ℕ) → ℕ → ℕ → ℕ → ℕ
bitwise f zero a b = 0
bitwise f (suc n) a b = f (a % 2) (b % 2) + 2 * bitwise f n (a / 2) (b / 2)

abbrev pub xor_byte : ℕ → ℕ → ℕ
xor_byte a b = bitwise (λ x y. (x + y) % 2) 8 a b

abbrev pub or_byte : ℕ → ℕ → ℕ
or_byte a b = bitwise max 8 a b

-- `for (...) diff |= want[i] ^ got[i];`, over arrays of one length
unfoldable pub diff_loop : ℕ → List ℕ → List ℕ → ℕ
diff_loop diff [] got = diff
diff_loop diff (w ∷ want) [] = diff
diff_loop diff (w ∷ want) (g ∷ got) = diff_loop (or_byte diff (xor_byte w g)) want got

-- dd_boot_mode_t
pub data BootMode : Type 0 where
  first_run no_wifi normal : BootMode

-- dd_boot_mode_str
unfoldable pub boot_mode_str : BootMode → List ℕ
boot_mode_str BootMode.first_run = codes "FIRST_RUN"
boot_mode_str BootMode.no_wifi = codes "NO_WIFI"
boot_mode_str BootMode.normal = codes "NORMAL"

-- ESP_ERR_NVS_INVALID_LENGTH
abbrev pub nvs_invalid_length : Err
nvs_invalid_length = Err.other 0x110c

abbrev pub or_empty : Option (List ℕ) → List ℕ
or_empty none = []
or_empty (some text) = text

-- A password that is missing counts as empty.
abbrev missing_is_empty : Err × List ℕ → Err × List ℕ
missing_is_empty (Err.nvs_not_found, v) = (Err.ok, [])
missing_is_empty (e, v) = (e, v)

abbrev pub is_missing : Err → Bool
is_missing Err.nvs_not_found = true
is_missing e = false

module _ {S : Type 0} (nvs : Nvs S) where
  -- A blob read into a buffer of `size` bytes that must fill it.
  abbrev pub blob_of : ℕ → List ℕ → S → Option (List ℕ)
  blob_of size key s =
      let (err, v) = nvs.get_blob ns key s in
      if is_ok err && (length v == size) then some v else none

  -- A string read into a buffer of `cap` bytes, NUL included.
  abbrev pub string_of : ℕ → List ℕ → S → Err × List ℕ
  string_of cap key s =
      let (err, v) = nvs.get_str ns key s in
      if not (is_ok err)
      then (err, [])
      else if leb (length v + 1) cap
      then (Err.ok, v)
      else (nvs_invalid_length, [])

  -- Two blobs or strings set in turn and committed, each step only where those before it succeeded.
  abbrev pub two_sets : (S → Err × S) → (S → Err × S) → S → Err × S
  two_sets first second s =
      let (e1, s1) = first s in
      let (e2, s2) = second s1 in
      let (e3, s3) = nvs.commit ns s2 in
      if not (is_ok e1) then (e1, s1) else if not (is_ok e2) then (e2, s2) else (e3, s3)

  -- dd_config_has_admin
  unfoldable pub has_admin : S → Bool
  has_admin s =
      let (err, v) = nvs.get_blob ns key_admin_hash s in
      is_ok (nvs.opens readonly ns s) && (is_ok err && (length v == admin_hash_len))

  -- dd_config_set_admin_password; `salt` is what esp_fill_random gives, `none` is NULL
  unfoldable pub set_admin_password : Psa → Option (List ℕ) → List ℕ → S → Err × S
  unfolding pbkdf2
  set_admin_password psa none salt s = (Err.invalid_arg, s)
  set_admin_password psa (some plaintext) salt s =
      let (err, hash) = pbkdf2 psa plaintext salt admin_hash_len in
      let e_open = nvs.opens readwrite ns s in
      if length plaintext == 0
      then (Err.invalid_arg, s)
      else if not (is_ok err)
      then (err, s)
      else if not (is_ok e_open)
      then (e_open, s)
      else two_sets (nvs.set_blob ns key_admin_salt salt) (nvs.set_blob ns key_admin_hash hash) s

  -- dd_config_verify_admin_password: the second part is *out_ok
  unfoldable pub verify_admin_password : Psa → Option (List ℕ) → S → Err × Bool
  unfolding pbkdf2 diff_loop bitwise
  verify_admin_password psa none s = (Err.invalid_arg, false)
  verify_admin_password psa (some plaintext) s =
      let e_open = nvs.opens readonly ns s in
      if not (is_ok e_open)
      then (e_open, false)
      else elim (blob_of admin_salt_len key_admin_salt s) [
        | none ↦ (Err.not_found, false)
        | some salt ↦ elim (blob_of admin_hash_len key_admin_hash s) [
          | none ↦ (Err.not_found, false)
          | some want ↦
              let (err, got) = pbkdf2 psa plaintext salt admin_hash_len in
              if not (is_ok err) then (err, false) else (Err.ok, diff_loop 0 want got == 0)
        ]
      ]

  -- dd_config_get_admin_blob
  unfoldable pub get_admin_blob : S → Err × List ℕ × List ℕ
  get_admin_blob s =
      let e_open = nvs.opens readonly ns s in
      if not (is_ok e_open)
      then (e_open, [], [])
      else elim (blob_of admin_salt_len key_admin_salt s) [
        | none ↦ (Err.not_found, [], [])
        | some salt ↦ elim (blob_of admin_hash_len key_admin_hash s) [
          | none ↦ (Err.not_found, [], [])
          | some hash ↦ (Err.ok, salt, hash)
        ]
      ]

  -- dd_config_set_admin_blob
  unfoldable pub set_admin_blob : List ℕ → List ℕ → S → Err × S
  set_admin_blob salt hash s =
      let e_open = nvs.opens readwrite ns s in
      if not (is_ok e_open)
      then (e_open, s)
      else two_sets (nvs.set_blob ns key_admin_salt salt) (nvs.set_blob ns key_admin_hash hash) s

  -- dd_config_has_wifi: the size that nvs_get_str gives counts the NUL
  unfoldable pub has_wifi : S → Bool
  has_wifi s =
      let (err, v) = nvs.get_str ns key_wifi_ssid s in
      is_ok (nvs.opens readonly ns s) && (is_ok err && ltb 1 (length v + 1))

  -- dd_config_set_wifi
  unfoldable pub set_wifi : Option (List ℕ) → Option (List ℕ) → S → Err × S
  set_wifi none password s = (Err.invalid_arg, s)
  set_wifi (some ssid) password s =
      let e_open = nvs.opens readwrite ns s in
      if (length ssid == 0) || leb wifi_ssid_max (length ssid)
      then (Err.invalid_arg, s)
      else if leb wifi_pass_max (length (or_empty password))
      then (Err.invalid_arg, s)
      else if not (is_ok e_open)
      then (e_open, s)
      else two_sets (nvs.set_str ns key_wifi_ssid ssid)
          (nvs.set_str ns key_wifi_pass (or_empty password)) s

  -- dd_config_get_wifi; a capacity of 0 stands for a NULL buffer too
  unfoldable pub get_wifi : ℕ → ℕ → S → Err × List ℕ × List ℕ
  get_wifi ssid_cap pass_cap s =
      let e_open = nvs.opens readonly ns s in
      let (e_ssid, ssid) = string_of ssid_cap key_wifi_ssid s in
      let (e_pass, pass) = missing_is_empty (string_of pass_cap key_wifi_pass s) in
      if (ssid_cap == 0) || (pass_cap == 0)
      then (Err.invalid_arg, [], [])
      else if not (is_ok e_open)
      then (e_open, [], [])
      else if not (is_ok e_ssid)
      then (e_ssid, [], [])
      else (e_pass, ssid, pass)

  -- dd_config_boot_mode
  unfoldable pub boot_mode : S → BootMode
  unfolding has_admin has_wifi
  boot_mode s =
      if not (has_admin s)
      then BootMode.first_run
      else if not (has_wifi s)
      then BootMode.no_wifi
      else BootMode.normal
