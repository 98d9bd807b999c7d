-- ===== src/Config/Tests.antt =====
-- The settings at a concrete NVS and a key derivation that only sums.
use dingdong.Common.{
  ℕ, zero, suc, ◌+◌, ◌%◌, ◌<◌, ◌≡◌, refl, sym, ap, true, none, some, List, [], ◌∷◌, ◌++◌, length,
  Err, All, arith, bytes_eq, replicate, codes, some_eq,
}
use dingdong.Nvs.{Blank}
use dingdong.Nvs.Memory.{Entry, memory, memory-Erases, memory-KeepsBlobs}
use dingdong.Config.{
  Psa, BootMode, pbkdf2, admin_hash_len, set_admin_password, verify_admin_password, set_wifi,
  boot_mode, ns,
}
use dingdong.Config.Erase.{factory_reset}
use dingdong.Config.Reset.{factory_reset-Blank}
use dingdong.Config.Admin.{GivesBytes, verify_admin_password-set}

abbrev sum : List ℕ → ℕ
sum [] = 0
sum (x ∷ xs) = x + sum xs

abbrev psa : Psa
psa = record {
  setup = true;
  input_cost = λ n. true;
  input_salt = λ salt. true;
  input_password = λ password. true;
  output = λ password salt iters n. some (replicate n (sum (password ++ salt) % 256));
}

replicate-bytes :
    (n b : ℕ) → b < 256 → (length (replicate n b) ≡ n) × All (λ c. c < 256) (replicate n b)
replicate-bytes zero b h = (refl, tt)
replicate-bytes (suc n) b h = let inner = replicate-bytes n b h in (ap suc inner.0, (h, inner.1))

psa-GivesBytes : GivesBytes psa
psa-GivesBytes = record {
  output-bytes = λ password salt iters n out e.
      rw (sym (some_eq e)) (replicate-bytes n (sum (password ++ salt) % 256) (omega arith));
}

abbrev salt : List ℕ
salt = replicate 16 1

abbrev hash_of : ℕ → List ℕ
hash_of b = replicate 32 b

abbrev flash : List Entry
flash = []

hashed : pbkdf2 psa (codes "ab") salt admin_hash_len ≡ (Err.ok, hash_of 211)
unfolding pbkdf2
hashed = refl

other_hashed : pbkdf2 psa (codes "ac") salt admin_hash_len ≡ (Err.ok, hash_of 212)
unfolding pbkdf2
other_hashed = refl

password_set : (set_admin_password memory psa (some (codes "ab")) salt flash).0 ≡ Err.ok
unfolding set_admin_password
password_set = refl

verify_admin_password-set_example :
    let (e, accepted) =
      verify_admin_password memory psa
        (some (codes "ac"))
        (set_admin_password memory psa (some (codes "ab")) salt flash).1 in
    (e ≡ Err.ok)
    × (accepted ≡ true → hash_of 211 ≡ hash_of 212)
    × (hash_of 211 ≡ hash_of 212 → accepted ≡ true)
verify_admin_password-set_example =
    verify_admin_password-set memory psa flash (codes "ab") (codes "ac") salt (hash_of 211)
      (hash_of 212) memory-KeepsBlobs psa-GivesBytes refl hashed other_hashed password_set refl

wifi_set : (set_wifi memory (some (codes "home")) none flash).0 ≡ Err.ok
unfolding set_wifi
wifi_set = refl

all_erased :
    (factory_reset memory (set_wifi memory (some (codes "home")) none flash).1) ≡ (Err.ok, [])
unfolding factory_reset set_wifi bytes_eq
all_erased = refl

factory_reset_ok :
    (factory_reset memory (set_wifi memory (some (codes "home")) none flash).1).0 ≡ Err.ok
factory_reset_ok = ap (λ (r : Err × List Entry). r.0) all_erased

factory_reset-Blank_example :
    let s' = (factory_reset memory (set_wifi memory (some (codes "home")) none flash).1).1 in
    Blank memory ns s'
    × Blank memory (codes "led") s'
    × Blank memory (codes "time") s'
    × Blank memory (codes "presence") s'
    × (boot_mode memory s' ≡ BootMode.first_run)
factory_reset-Blank_example =
    factory_reset-Blank memory memory-Erases (set_wifi memory (some (codes "home")) none flash).1
      factory_reset_ok
