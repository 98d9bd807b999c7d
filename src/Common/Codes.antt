-- ===== src/Common/Codes.antt =====
-- `esp_err_t`: the codes that the code returns or tests. `other` is any code of ESP-IDF.
use Prim.Native.Nat.{ℕ}
use mathlib.Core.Bool.{Bool, true, false}
use mathlib.Core.Path.{◌≡◌, refl}
use mathlib.Core.Logic.{◌≢◌}

pub data Err : Type 0 where
  ok fail no_mem invalid_arg invalid_state invalid_size not_found nvs_not_found : Err
  other : ℕ → Err

abbrev pub is_ok : Err → Bool
is_ok Err.ok = true
is_ok _ = false

pub is_ok-eq : (e : Err) → is_ok e ≡ true → e ≡ Err.ok
is_ok-eq Err.ok h = refl
is_ok-eq e h = absurd cc

pub not-ok : (e : Err) → is_ok e ≡ false → e ≢ Err.ok
not-ok e h = cc
