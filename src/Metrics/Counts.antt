-- ===== src/Metrics/Counts.antt =====
-- The counters of components/config/dd_config.c over several calls: uptime, boot loops and the cause of a restart.
use dingdong.Common.{
  ℕ, zero, suc, ◌+◌, ◌-◌, ◌%◌, ◌≤◌, ◌<◌, ◌≡◌, refl, ap, ◌∙◌, true, false, List, [], ◌∷◌, get_or,
  ltb, leb, ◌==◌, Err, is_ok, ◌≢◌, arith, Bool-cases, inl, inr, ◌^◌,
}
use dingdong.Nvs.{Nvs, Kind, Mode, KeepsNumbers, u8, u32, u64, readonly, readwrite}
use dingdong.Config.{ns}
use dingdong.Metrics.{
  key_boot_loop, key_total_uptime, key_last_uptime, key_restart_cause, uint32, uint64,
  recovery_threshold, number_of, add_uptime, save_uptime, boot_loop_inc, boot_loop_count,
  boot_loop_clear, in_recovery_mode, LastCause, set_restart_cause, consume_restart_cause,
  get_last_cause, restart_unknown,
}

-- An NVS whose namespace opens and whose sets and commits succeed.
pub record Works {S : Type 0} (nvs : Nvs S) : Type 0 where
  pub opens : (mode : Mode) (s : S) → nvs.opens mode ns s ≡ Err.ok
  pub set_num :
      (kind : Kind) (key : List ℕ) (v : ℕ) (s : S) → (nvs.set_num kind ns key v s).0 ≡ Err.ok
  pub commit : (s : S) → (nvs.commit ns s).0 ≡ Err.ok

-- The calls of dd_metrics_save_uptime in one boot, at these numbers of seconds.
abbrev pub save_all : {S : Type 0} → Nvs S → List ℕ → ℕ → S → S
save_all nvs [] last s = s
save_all nvs (n ∷ ns') last s =
    let (e, last', s') = save_uptime nvs n last s in save_all nvs ns' last' s'

abbrev pub Rising : ℕ → List ℕ → Type 0
Rising last [] = Unit
Rising last (n ∷ ns') = (last < n) × Rising n ns'

abbrev pub last_of : ℕ → List ℕ → ℕ
last_of last [] = last
last_of last (n ∷ ns') = last_of n ns'

last_of-rises : (last : ℕ) (ns' : List ℕ) → Rising last ns' → last ≤ last_of last ns'
last_of-rises last [] r = omega arith
last_of-rises last (n ∷ ns') r = omega (arith, last_of-rises n ns' r.1, r.0)

totals_differ : key_last_uptime ≢ key_total_uptime
totals_differ e = let c = ap (λ (l : List ℕ). get_or l 0 0) e in omega arith

number_of-read :
    {S : Type 0} (nvs : Nvs S) (kind : Kind) (key : List ℕ) (s : S) (v : ℕ)
    → nvs.get_num kind ns key s ≡ (Err.ok, v)
    → number_of nvs kind key s ≡ v
number_of-read nvs kind key s v read = rw read refl

number_of-missing :
    {S : Type 0} (nvs : Nvs S) (kind : Kind) (key : List ℕ) (s : S)
    → is_ok (nvs.get_num kind ns key s).0 ≡ false
    → number_of nvs kind key s ≡ 0
number_of-missing nvs kind key s missing = rw missing refl

-- So many boots.
abbrev pub boots : {S : Type 0} → Nvs S → ℕ → S → S
boots nvs zero s = s
boots nvs (suc k) s = boots nvs k (boot_loop_inc nvs s).1

module _ {S : Type 0} (nvs : Nvs S) (keeps : KeepsNumbers nvs) (works : Works nvs) where
  save_uptime-total :
      (seconds last : ℕ) (s : S)
      → last < seconds
      → let (e, last', s') = save_uptime nvs seconds last s in
        (e ≡ Err.ok)
        × (last' ≡ seconds)
        × (number_of nvs u64 key_total_uptime s'
            ≡ (number_of nvs u64 key_total_uptime s + (seconds - last)) % uint64)
  unfolding save_uptime add_uptime
  save_uptime-total seconds last s lt =
      let later : ltb last seconds ≡ true = ground arith in
      let total = (number_of nvs u64 key_total_uptime s + (seconds - last)) % uint64 in
      let s1 = (nvs.set_num u64 ns key_total_uptime total s).1 in
      let s2 = (nvs.set_num u32 ns key_last_uptime seconds s1).1 in
      rw
        (
          later,
          works.opens readwrite s,
          works.set_num u64 key_total_uptime total s,
          works.set_num u32 key_last_uptime seconds s1,
        )
        (
          works.commit s2,
          refl,
          number_of-read nvs u64 key_total_uptime (nvs.commit ns s2).1 total (
              keeps.get_num-commit u64 ns key_total_uptime s2
              ∙ keeps.get_num-set_num_ne u64 u32 ns key_total_uptime key_last_uptime seconds s1
                  totals_differ
              ∙ keeps.get_num-set_num u64 ns key_total_uptime total s
                  (works.set_num u64 key_total_uptime total s)),
        )

  pub boot_loop_inc-count :
      (s : S)
      → let (n, s') = boot_loop_inc nvs s in
        (n ≡ (boot_loop_count nvs s + 1) % uint32) × (boot_loop_count nvs s' ≡ n)
  unfolding boot_loop_inc boot_loop_count
  boot_loop_inc-count s =
      let n = (number_of nvs u32 key_boot_loop s + 1) % uint32 in
      let s1 = (nvs.set_num u32 ns key_boot_loop n s).1 in
      rw
        (works.opens readwrite s, works.opens readonly s, works.opens readonly (nvs.commit ns s1).1)
        (
          refl,
          number_of-read nvs u32 key_boot_loop (nvs.commit ns s1).1 n (
              keeps.get_num-commit u32 ns key_boot_loop s1
              ∙ keeps.get_num-set_num u32 ns key_boot_loop n s
                  (works.set_num u32 key_boot_loop n s)),
        )

  boot_loop_clear-count : (s : S) → boot_loop_count nvs (boot_loop_clear nvs s) ≡ 0
  unfolding boot_loop_clear boot_loop_count
  boot_loop_clear-count s = elim (Bool-cases (number_of nvs u32 key_boot_loop s == 0)) [
    | inl none_yet ↦
        rw (works.opens readwrite s, none_yet, works.opens readonly s) (ground (arith, none_yet))
    | inr some_boots ↦
        let s1 = nvs.erase_key ns key_boot_loop s in
        rw (works.opens readwrite s, some_boots, works.opens readonly (nvs.commit ns s1).1)
          (number_of-missing nvs u32 key_boot_loop (nvs.commit ns s1).1 (
            ap (λ (r : Err × ℕ). is_ok r.0) (keeps.get_num-commit u32 ns key_boot_loop s1)
            ∙ keeps.get_num-erase_key u32 ns key_boot_loop s))
  ]

  pub boots-from :
      (k : ℕ) (s : S)
      → boot_loop_count nvs s + k < uint32
      → boot_loop_count nvs (boots nvs k s) ≡ boot_loop_count nvs s + k
  boots-from zero s low = omega arith
  boots-from (suc k) s low =
      let (n, counted) = boot_loop_inc-count s in
      let next = (boot_loop_inc nvs s).1 in
      omega (arith, n, counted, boots-from k next (omega (arith, n, counted, low)), low)

  -- In one boot, saves at rising numbers of seconds add to the total what the last of them says, and
  -- not their sum, as long as the total stays below 2 ^ 64.
  save_all-total :
      (samples : List ℕ) (last : ℕ) (s : S)
      → Rising last samples
      → number_of nvs u64 key_total_uptime s + (last_of last samples - last) < uint64
      → number_of nvs u64 key_total_uptime (save_all nvs samples last s)
        ≡ number_of nvs u64 key_total_uptime s + (last_of last samples - last)
  save_all-total [] last s r low = omega arith
  save_all-total (n ∷ samples) last s r low =
      let one = save_uptime-total n last s r.0 in
      let rises = last_of-rises n samples r.1 in
      let s' = (save_uptime nvs n last s).2 in
      let inner = save_all-total samples n s' r.1 (omega (arith, low, one.2, rises, r.0)) in
      rw (one.1) (omega (arith, inner, one.2, rises, r.0, low))

  -- So many boots since the counter was cleared, fewer than 2 ^ 32: the counter is their number, and
  -- the device is in recovery mode from the third on.
  boots-count :
      (k : ℕ) (s : S)
      → k < uint32
      → let s' = boots nvs k (boot_loop_clear nvs s) in
        (boot_loop_count nvs s' ≡ k) × (in_recovery_mode nvs s' ≡ leb recovery_threshold k)
  unfolding in_recovery_mode
  boots-count k s low =
      let clear = boot_loop_clear-count s in
      let counted = boots-from k (boot_loop_clear nvs s) (omega (arith, clear)) in
      let total : boot_loop_count nvs (boots nvs k (boot_loop_clear nvs s)) ≡ k =
        omega (arith, clear, counted) in
      (total, rw total refl)

  -- The cause that was stored before a restart is the cause that the next boot reports, as a byte.
  -- Consuming again in that boot changes nothing, and a boot after it reports an unknown cause.
  consume_restart_cause-set :
      (c : ℕ) (s : S) (l : LastCause)
      → l.init ≡ false
      → let (l1, s1) = consume_restart_cause nvs l (set_restart_cause nvs c s) in
        (get_last_cause l1 ≡ c % 2 ^ 8)
        × (consume_restart_cause nvs l1 s1 ≡ (l1, s1))
        × (get_last_cause
              (consume_restart_cause nvs (record { cause = restart_unknown; init = false }) s1).0
            ≡ restart_unknown)
  unfolding consume_restart_cause set_restart_cause get_last_cause
  consume_restart_cause-set c s l fresh =
      let v = c % 2 ^ 8 in
      let s1 = (nvs.set_num u8 ns key_restart_cause v s).1 in
      let s2 = (nvs.commit ns s1).1 in
      let s3 = nvs.erase_key ns key_restart_cause s2 in
      let stored =
        keeps.get_num-commit u8 ns key_restart_cause s1
        ∙ keeps.get_num-set_num u8 ns key_restart_cause v s
            (works.set_num u8 key_restart_cause v s) in
      let erased =
        ap (λ (r : Err × ℕ). is_ok r.0) (keeps.get_num-commit u8 ns key_restart_cause s3)
        ∙ keeps.get_num-erase_key u8 ns key_restart_cause s2 in
      rw
        (
          works.opens readwrite s,
          fresh,
          works.opens readwrite s2,
          stored,
          works.opens readwrite (nvs.commit ns s3).1,
          erased,
        )
        (refl, refl, refl)
