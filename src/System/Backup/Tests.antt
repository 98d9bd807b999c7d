-- ===== src/System/Backup/Tests.antt =====
-- A backup of a device with two workers and its restore onto an empty one.
use dingdong.Common.{
  ℕ, ◌≡◌, refl, true, none, some, List, [], ◌∷◌, length, replicate, codes, arith, bytes_eq, Err,
}
use dingdong.Nvs.Memory.{Entry, memory, memory-KeepsBlobs}
use dingdong.Config.{
  Psa, ns, has_admin, get_admin_blob, set_admin_blob, verify_admin_password, key_admin_salt,
  key_admin_hash,
}
use dingdong.Workers.{Worker, Table, Json, worker_iter}
use dingdong.Workers.Valid.{Distinct}
use dingdong.System.Backup.{
  backup_config, restore_config, restore_wifi, restore_workers, worker_to_backup_cb, hex_encode_str,
  hex_decode,
}
use dingdong.System.Backup.Settings.{restore_config-verifies}
use dingdong.System.Backup.Registry.{Fits, restore_workers-backup}

abbrev psa : Psa
psa = record {
  setup = true;
  input_cost = λ n. true;
  input_salt = λ salt. true;
  input_password = λ password. true;
  output = λ password salt iters n. some (replicate n (length password));
}

abbrev salt : List ℕ
salt = replicate 16 0xab

abbrev hash : List ℕ
hash = replicate 32 9

abbrev flash : List Entry
flash =
    record { ns = ns; key = key_admin_salt; value = salt }
    ∷ record { ns = ns; key = key_admin_hash; value = hash }
    ∷ []

abbrev empty : List Entry
empty = []

blobs : get_admin_blob memory flash ≡ (Err.ok, salt, hash)
unfolding get_admin_blob bytes_eq
blobs = refl

set_ok :
    (set_admin_blob memory salt hash (restore_wifi memory (backup_config memory flash) empty)).0
    ≡ Err.ok
unfolding set_admin_blob
set_ok = refl

restore_config-verifies_example :
    let c = backup_config memory flash in
    (has_admin memory (restore_config memory (some c) empty) ≡ true)
    × (verify_admin_password memory psa
          (some (codes "ninechars"))
          (restore_config memory (some c) empty)
        ≡ verify_admin_password memory psa (some (codes "ninechars")) flash)
restore_config-verifies_example =
    restore_config-verifies memory psa (codes "ninechars") flash empty salt hash memory-KeepsBlobs
      blobs (omega arith) (omega arith) set_ok refl

abbrev json : Json
json = record { print = λ a n c t. some (codes "{}"); parse = λ text. none }

abbrev ann : Worker
ann = record {
  id = 1;
  addr = 1 ∷ 2 ∷ 3 ∷ 4 ∷ 5 ∷ 0xff ∷ [];
  name = codes "Ann";
  category = codes "staff";
  created_at = 100;
}

abbrev bob : Worker
bob = record {
  id = 7;
  addr = 9 ∷ 8 ∷ 7 ∷ 6 ∷ 5 ∷ 4 ∷ [];
  name = codes "Bob";
  category = [];
  created_at = 200;
}

abbrev two : Table
two = record { workers = ann ∷ bob ∷ []; next_id = 8 }

abbrev other : Table
other = record { workers = record ann { id = 3 } ∷ []; next_id = 4 }

ann-Fits : Fits ann
ann-Fits = record {
  id_range = omega arith;
  addr_size = refl;
  addr_bytes = omega arith;
  name_size = omega arith;
  category_size = omega arith;
}

bob-Fits : Fits bob
bob-Fits = record {
  id_range = omega arith;
  addr_size = refl;
  addr_bytes = omega arith;
  name_size = omega arith;
  category_size = omega arith;
}

two-Distinct : Distinct two.workers
two-Distinct = omega arith

restore_workers-backup_example :
    let backup = (worker_iter (some worker_to_backup_cb) two []).1 in
    (restore_workers memory json (some backup) other empty).0.workers ≡ two.workers
restore_workers-backup_example =
    restore_workers-backup memory json two other empty (ann-Fits, (bob-Fits, tt)) two-Distinct
      (omega arith) refl

decoded :
    (hex_encode_str (0xab ∷ 0x05 ∷ []) ≡ codes "ab05")
    × (hex_decode (codes "AB05") 2 ≡ some (0xab ∷ 0x05 ∷ []))
    × (hex_decode (codes "ab0") 2 ≡ none)
    × (hex_decode (codes "ab0g") 2 ≡ none)
    × (hex_decode (codes "ab0500") 2 ≡ none)
unfolding hex_encode_str hex_decode
decoded = (refl, refl, refl, refl, refl)
