-- ===== src/System/Backup.antt =====
-- The backup and the restore of components/http_app/dd_http_system.c. A backup is what cJSON makes of its
-- members and gives back; one of another type counts as missing.
pub mod Hex
pub mod Settings
pub mod Registry
mod Tests
use dingdong.Common.{
  ℕ, ◌+◌, ◌*◌, ◌/◌, ◌%◌, ◌^◌, Bool, true, false, not, ◌&&◌, ◌||◌, Option, none, some, List, [], ◌∷◌,
  ◌++◌, length, replicate, ltb, ◌==◌, if◌then◌else◌, Err, is_ok, codes,
}
use dingdong.Nvs.{Nvs}
use dingdong.Util.{hex2, hex_value, format_mac, scan_mac}
use dingdong.Config.{
  has_admin, get_admin_blob, set_admin_blob, set_wifi, get_wifi, wifi_ssid_max, wifi_pass_max,
  admin_salt_len, admin_hash_len, or_empty,
}
use dingdong.Workers.{
  Worker, Table, Json, worker_name_max, worker_category_max, or_cut, worker_iter,
}
use dingdong.Workers.Change.{worker_restore, worker_wipe}
use dingdong.Metrics.{set_restart_cause}
use dingdong.Http.{Reply, reply_text}

-- DD_RESTART_ADMIN
abbrev pub restart_admin : ℕ
restart_admin = 2

-- hex_encode_str, whose hex_nibble is the digit of `%02x`
unfoldable pub hex_encode_str : List ℕ → List ℕ
hex_encode_str [] = []
hex_encode_str (b ∷ bs) = hex2 b ++ hex_encode_str bs

-- The loop of hex_decode over the pairs of characters.
unfoldable pub hex_pairs : List ℕ → Option (List ℕ)
unfolding hex_value
hex_pairs [] = some []
hex_pairs (hi ∷ []) = some []
hex_pairs (hi ∷ lo ∷ cs) =
    let rest = hex_pairs cs in
    elim (hex_value hi) [
      | none ↦ none
      | some h ↦ elim (hex_value lo) [
        | none ↦ none
        | some l ↦ elim rest [ none ↦ none | some bytes ↦ some ((h * 16 + l) ∷ bytes) ]
      ]
    ]

-- hex_decode: the bytes that it wrote, as many as it returns, and `none` where that is -1
unfoldable pub hex_decode : List ℕ → ℕ → Option (List ℕ)
unfolding hex_pairs
hex_decode text cap =
    if not (length text % 2 == 0) || ltb cap (length text / 2) then none else hex_pairs text

-- The members of `config`.
pub record BackupConfig : Type 0 where
  pub wifi_ssid : Option (List ℕ)
  pub wifi_pass : Option (List ℕ)
  pub admin_salt_hex : Option (List ℕ)
  pub admin_hash_hex : Option (List ℕ)

-- An element of `workers`.
pub record BackupWorker : Type 0 where
  pub id : Option ℕ
  pub addr : Option (List ℕ)
  pub name : Option (List ℕ)
  pub category : Option (List ℕ)
  pub created_at : Option ℕ

-- What restore_post reads; a `config` or `workers` of another type counts as missing.
pub record Backup : Type 0 where
  pub version : Option ℕ
  pub config : Option BackupConfig
  pub workers : Option (List BackupWorker)

-- worker_to_backup_cb
unfoldable pub worker_to_backup_cb : Worker → List BackupWorker → Err × List BackupWorker
unfolding format_mac
worker_to_backup_cb w arr = (
  Err.ok,
  arr
      ++ (record {
        id = some w.id;
        addr = some (format_mac w.addr);
        name = some w.name;
        category = some w.category;
        created_at = some w.created_at;
      }
          ∷ []),
)

abbrev pub addr_or_zero : Option (List ℕ) → List ℕ
addr_or_zero none = replicate 6 0
addr_or_zero (some text) = elim (scan_mac 6 text) [ none ↦ replicate 6 0 | some a ↦ a ]

abbrev pub number_or_zero : Option ℕ → ℕ
number_or_zero none = 0
number_or_zero (some n) = n

-- The worker that restore_post builds from an element with an id. Its time passes through a double, which holds
-- every number up to 2^53 exactly.
unfoldable pub worker_from : ℕ → BackupWorker → Worker
unfolding scan_mac
worker_from id e = record {
  id = id % 2 ^ 16;
  addr = addr_or_zero e.addr;
  name = or_cut worker_name_max (or_empty e.name);
  category = or_cut worker_category_max (or_empty e.category);
  created_at = number_or_zero e.created_at;
}

-- The admin blobs that are decoded with the right lengths.
abbrev blob_from : ℕ → Option (List ℕ) → Option (List ℕ)
blob_from size none = none
blob_from size (some text) = elim (hex_decode text size) [
  | none ↦ none
  | some bytes ↦ if length bytes == size then some bytes else none
]

module _ {S : Type 0} (nvs : Nvs S) where
  -- The part of backup_get for `config`.
  unfoldable pub backup_config : S → BackupConfig
  unfolding get_wifi get_admin_blob hex_encode_str
  backup_config s =
      let (e_wifi, ssid, pass) = get_wifi nvs wifi_ssid_max wifi_pass_max s in
      let (e_admin, salt, hash) = get_admin_blob nvs s in
      record {
        wifi_ssid = if is_ok e_wifi then some ssid else none;
        wifi_pass = if is_ok e_wifi then some pass else none;
        admin_salt_hex = if is_ok e_admin then some (hex_encode_str salt) else none;
        admin_hash_hex = if is_ok e_admin then some (hex_encode_str hash) else none;
      }

  -- backup_get, behind its guard
  unfoldable pub backup_get : Table → S → Backup
  unfolding backup_config worker_iter worker_to_backup_cb
  backup_get t s = record {
    version = some 1;
    config = some (backup_config s);
    workers = some (worker_iter (some worker_to_backup_cb) t []).1;
  }

  -- The part of restore_post for the WiFi credentials, whose result is not looked at.
  unfoldable pub restore_wifi : BackupConfig → S → S
  unfolding set_wifi
  restore_wifi c s = elim c.wifi_ssid [
    | none ↦ s
    | some ssid ↦ (set_wifi nvs (some ssid) (some (or_empty c.wifi_pass)) s).1
  ]

  -- The part of restore_post for the admin password, whose result is not looked at either.
  unfoldable pub restore_admin : BackupConfig → S → S
  unfolding set_admin_blob hex_decode
  restore_admin c s = elim (blob_from admin_salt_len c.admin_salt_hex) [
    | none ↦ s
    | some salt ↦ elim (blob_from admin_hash_len c.admin_hash_hex) [
      | none ↦ s
      | some hash ↦ (set_admin_blob nvs salt hash s).1
    ]
  ]

  unfoldable pub restore_config : Option BackupConfig → S → S
  unfolding restore_wifi restore_admin
  restore_config none s = s
  restore_config (some c) s = restore_admin c (restore_wifi c s)

  module _ (json : Json) where
    -- The loop of restore_post over the workers.
    unfoldable pub restore_loop : List BackupWorker → Table → S → Table × S
    unfolding worker_restore worker_from
    restore_loop [] t s = (t, s)
    restore_loop (e ∷ es) t s =
        let skipped = restore_loop es t s in
        elim e.id [
          | none ↦ skipped
          | some id ↦
              let (err, t', s') = worker_restore nvs json (some (worker_from id e)) t s in
              restore_loop es t' s'
        ]

    unfoldable pub restore_workers : Option (List BackupWorker) → Table → S → Table × S
    unfolding restore_loop worker_wipe
    restore_workers none t s = (t, s)
    restore_workers (some es) t s =
        let (err, t', s') = worker_wipe nvs json t s in restore_loop es t' s'

    -- restore_post: `none` is a body that is no JSON. A restart is scheduled with the answer 200.
    unfoldable pub restore_post : Option Backup → Table → S → Reply × Table × S
    unfolding has_admin restore_config restore_workers set_restart_cause
    restore_post body t s =
        if has_admin nvs s
        then (reply_text 409 (codes "device already configured; factory_reset first"), t, s)
        else elim body [
          | none ↦ (reply_text 400 (codes "bad json"), t, s)
          | some b ↦
              let (t', s') = restore_workers b.workers t (restore_config b.config s) in
              if not (number_or_zero b.version == 1)
              then (reply_text 400 (codes "unsupported version"), t, s)
              else (
                reply_text 200 (codes "restored, restarting"),
                t',
                set_restart_cause nvs restart_admin s',
              )
        ]
