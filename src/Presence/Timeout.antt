-- ===== src/Presence/Timeout.antt =====
-- The presence timeout of components/ble/dd_ble.c: its bounds, and its value over a restart.
use dingdong.Common.{
  ℕ, ◌≤◌, ◌≡◌, refl, ◌∙◌, true, ◌&&◌, leb, Err, is_ok, arith, Bool-cases, inl, inr,
}
use dingdong.Nvs.{Nvs, KeepsNumbers, i32, readonly, readwrite}
use dingdong.Presence.Settings.{
  set_presence_timeout, get_presence_timeout, load_presence_settings, clamped, presence_ns,
  presence_key, timeout_min_s, timeout_max_s,
}

clamped-bounds :
    (seconds : ℕ)
    → (timeout_min_s ≤ clamped seconds)
      × (clamped seconds ≤ timeout_max_s)
      × (timeout_min_s ≤ seconds → seconds ≤ timeout_max_s → clamped seconds ≡ seconds)
clamped-bounds seconds = ground arith

-- Whatever the NVS answers, a set puts the timeout between 30 and 600 seconds, at the number given
-- where that is in between, and a get says how much it is.
set_presence_timeout-bounds :
    {S : Type 0} (nvs : Nvs S) (seconds : ℕ) (s : S)
    → let (e, timeout_ms, s') = set_presence_timeout nvs seconds s in
      (timeout_min_s ≤ get_presence_timeout timeout_ms)
      × (get_presence_timeout timeout_ms ≤ timeout_max_s)
      × (timeout_min_s ≤ seconds
          → seconds ≤ timeout_max_s
          → get_presence_timeout timeout_ms ≡ seconds)
unfolding set_presence_timeout get_presence_timeout
set_presence_timeout-bounds nvs seconds s =
    let (low, high, inside) = clamped-bounds seconds in
    elim (Bool-cases (is_ok (nvs.opens readwrite presence_ns s))) [
      | inl opened ↦
          rw opened (omega (arith, low), omega (arith, high), λ a b. omega (arith, inside a b))
      | inr refused ↦
          rw refused (omega (arith, low), omega (arith, high), λ a b. omega (arith, inside a b))
    ]

within_bounds :
    (n : ℕ)
    → timeout_min_s ≤ n
    → n ≤ timeout_max_s
    → (leb timeout_min_s n && leb n timeout_max_s) ≡ true
within_bounds n low high = ground arith

-- Where the NVS stores what a set gives it, the next boot loads the timeout that was set, whatever
-- value it started from.
load_presence_settings-set :
    {S : Type 0} (nvs : Nvs S) (seconds before : ℕ) (s : S)
    → KeepsNumbers nvs
    → nvs.opens readwrite presence_ns s ≡ Err.ok
    → (nvs.set_num i32 presence_ns presence_key (clamped seconds) s).0 ≡ Err.ok
    → nvs.opens readonly presence_ns (set_presence_timeout nvs seconds s).2 ≡ Err.ok
    → load_presence_settings nvs before (set_presence_timeout nvs seconds s).2
      ≡ (set_presence_timeout nvs seconds s).1
unfolding set_presence_timeout load_presence_settings
load_presence_settings-set nvs seconds before s keeps opened stored = rw opened (λ reopened.
    let s1 = (nvs.set_num i32 presence_ns presence_key (clamped seconds) s).1 in
    let (low, high, inside) = clamped-bounds seconds in
    let got =
      keeps.get_num-commit i32 presence_ns presence_key s1
      ∙ keeps.get_num-set_num i32 presence_ns presence_key (clamped seconds) s stored in
    let within : (leb timeout_min_s (clamped seconds) && leb (clamped seconds) timeout_max_s)
        ≡ true =
      within_bounds (clamped seconds) low high in
    rw (reopened, got, within) refl)
