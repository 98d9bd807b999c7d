-- ===== src/Config/Wifi.antt =====
-- The WiFi credentials of components/config/dd_config.c: what is set is read back, and the boot mode that follows.
use dingdong.Common.{
  not-ok, ℕ, ◌+◌, ◌<◌, ◌≡◌, refl, sym, ap, ◌∙◌, true, ◌||◌, Option, some, List, length, get_or, ltb,
  leb, ◌==◌, if◌then◌else◌, Err, is_ok, ◌≢◌, arith, Bool-cases, inl, inr,
}
use mathlib.Core.Path.{subst}
use dingdong.Nvs.{Nvs, KeepsStrings, readonly, readwrite}
use dingdong.Config.{
  ns, key_wifi_ssid, key_wifi_pass, wifi_ssid_max, wifi_pass_max, two_sets, string_of, set_wifi,
  get_wifi, has_wifi, has_admin, boot_mode, BootMode, or_empty,
}
use dingdong.Config.Admin.{two_sets-ok}

keys_differ : key_wifi_pass ≢ key_wifi_ssid
keys_differ e = let c = ap (λ (l : List ℕ). get_or l 5 0) e in omega arith

abbrev pub Fits : List ℕ → Option (List ℕ) → Type 0
Fits ssid password =
    (0 < length ssid) × (length ssid < wifi_ssid_max) × (length (or_empty password) < wifi_pass_max)

module _ {S : Type 0} (nvs : Nvs S) where
  set_wifi-both :
      (s : S) (ssid : List ℕ) (password : Option (List ℕ))
      → (set_wifi nvs (some ssid) password s).0 ≡ Err.ok
      → Fits ssid password
        × (set_wifi nvs (some ssid) password s
            ≡ two_sets nvs
                (nvs.set_str ns key_wifi_ssid ssid)
                (nvs.set_str ns key_wifi_pass (or_empty password))
                s)
  unfolding set_wifi
  set_wifi-both s ssid password =
      elim (Bool-cases ((length ssid == 0) || leb wifi_ssid_max (length ssid))) [
        | inl bad ↦ rw bad (λ e. absurd (not-ok Err.invalid_arg refl e))
        | inr named ↦ rw named (elim (Bool-cases (leb wifi_pass_max (length (or_empty password)))) [
          | inl long ↦ rw long (λ e. absurd (not-ok Err.invalid_arg refl e))
          | inr short ↦ rw short (elim (Bool-cases (is_ok (nvs.opens readwrite ns s))) [
            | inl opened ↦ rw opened (λ e. ((ground arith, ground arith, ground arith), refl))
            | inr refused ↦ rw refused (λ e. absurd (not-ok (nvs.opens readwrite ns s) refused e))
          ])
        ])
      ]

  string_of-read :
      (cap : ℕ) (key : List ℕ) (s : S) (v : List ℕ)
      → nvs.get_str ns key s ≡ (Err.ok, v)
      → length v < cap
      → string_of nvs cap key s ≡ (Err.ok, v)
  string_of-read cap key s v read short =
      let room : leb (length v + 1) cap ≡ true = ground arith in rw (read, room) refl

  strings_set :
      (s : S) (ssid pass : List ℕ)
      → KeepsStrings nvs
      → let (e, s') =
          two_sets nvs (nvs.set_str ns key_wifi_ssid ssid) (nvs.set_str ns key_wifi_pass pass) s in
        e ≡ Err.ok
        → (nvs.get_str ns key_wifi_ssid s' ≡ (Err.ok, ssid))
          × (nvs.get_str ns key_wifi_pass s' ≡ (Err.ok, pass))
  strings_set s ssid pass keeps ok =
      let (first, second, made) =
        two_sets-ok nvs (nvs.set_str ns key_wifi_ssid ssid) (nvs.set_str ns key_wifi_pass pass) s
          ok in
      let s1 = (nvs.set_str ns key_wifi_ssid ssid s).1 in
      let s2 = (nvs.set_str ns key_wifi_pass pass s1).1 in
      rw made (
        keeps.get_str-commit ns key_wifi_ssid s2
            ∙ keeps.get_str-set_str_ne ns key_wifi_ssid key_wifi_pass pass s1 keys_differ
            ∙ keeps.get_str-set_str ns key_wifi_ssid ssid s first,
        keeps.get_str-commit ns key_wifi_pass s2
            ∙ keeps.get_str-set_str ns key_wifi_pass pass s1 second,
      )

  get_wifi-read :
      (s : S) (ssid pass : List ℕ)
      → nvs.get_str ns key_wifi_ssid s ≡ (Err.ok, ssid)
      → nvs.get_str ns key_wifi_pass s ≡ (Err.ok, pass)
      → length ssid < wifi_ssid_max
      → length pass < wifi_pass_max
      → nvs.opens readonly ns s ≡ Err.ok
      → get_wifi nvs wifi_ssid_max wifi_pass_max s ≡ (Err.ok, ssid, pass)
  unfolding get_wifi
  get_wifi-read s ssid pass its_ssid its_pass short_ssid short_pass opened =
      rw
        (
          opened,
          string_of-read wifi_ssid_max key_wifi_ssid s ssid its_ssid short_ssid,
          string_of-read wifi_pass_max key_wifi_pass s pass its_pass short_pass,
        )
        refl

  boot_mode-read :
      (s : S) (ssid : List ℕ)
      → nvs.get_str ns key_wifi_ssid s ≡ (Err.ok, ssid)
      → 0 < length ssid
      → nvs.opens readonly ns s ≡ Err.ok
      → boot_mode nvs s ≡ (if has_admin nvs s then BootMode.normal else BootMode.first_run)
  unfolding boot_mode has_wifi
  boot_mode-read s ssid read named opened =
      let long : ltb 1 (length ssid + 1) ≡ true = ground arith in
      elim (Bool-cases (has_admin nvs s)) [
        | inl admin ↦ rw (admin, opened, read, long) refl
        | inr none_yet ↦ rw none_yet refl
      ]

-- Credentials that were set with success have a name of 1 to 31 bytes and a password of at most 63,
-- where none counts as empty. Wherever the namespace opens, they are read back into buffers of the two maxima, and
-- the boot mode is normal, or the first run while no admin password is set.
pub get_wifi-set :
    {S : Type 0} (nvs : Nvs S) (s : S) (ssid : List ℕ) (password : Option (List ℕ))
    → KeepsStrings nvs
    → (set_wifi nvs (some ssid) password s).0 ≡ Err.ok
    → nvs.opens readonly ns (set_wifi nvs (some ssid) password s).1 ≡ Err.ok
    → let s' = (set_wifi nvs (some ssid) password s).1 in
      Fits ssid password
      × (get_wifi nvs wifi_ssid_max wifi_pass_max s' ≡ (Err.ok, ssid, or_empty password))
      × (boot_mode nvs s' ≡ (if has_admin nvs s' then BootMode.normal else BootMode.first_run))
get_wifi-set nvs s ssid password keeps ok opened =
    let (fits, same) = set_wifi-both nvs s ssid password ok in
    let stored =
      strings_set nvs s ssid (or_empty password) keeps
        (ap (λ (r : Err × _). r.0) (sym same) ∙ ok) in
    let s' =
      (two_sets nvs (nvs.set_str ns key_wifi_ssid ssid)
        (nvs.set_str ns key_wifi_pass (or_empty password)) s).1 in
    let opens' : nvs.opens readonly ns s' ≡ Err.ok =
      subst (λ r. nvs.opens readonly ns r.1 ≡ Err.ok) same opened in
    rw same (
      fits,
      get_wifi-read nvs s' ssid (or_empty password) stored.0 stored.1 fits.1 fits.2 opens',
      boot_mode-read nvs s' ssid stored.0 fits.0 opens',
    )
