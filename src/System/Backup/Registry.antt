-- ===== src/System/Backup/Registry.antt =====
-- The workers over a backup and a restore of components/http_app/dd_http_system.c.
use dingdong.Common.{
  ℕ, ◌+◌, ◌%◌, ◌^◌, ◌<◌, ◌≤◌, ◌≡◌, ◌≢◌, refl, sym, ap, ◌∙◌, false, ◌&&◌, none, some, List, [], ◌∷◌,
  ◌++◌, length, take-all, ◌==◌, arith, All, Err, is_ok, Bool-cases, inl, inr, leb, append_assoc,
  append-nil, length-append,
}
use mathlib.Core.Path.{subst}
use dingdong.Nvs.{Nvs, readwrite}
use dingdong.Util.{format_mac, scan_mac, scan_mac-format_mac}
use dingdong.Workers.{
  save_one, Worker, Table, Json, ns, worker_max, worker_name_max, worker_category_max, index_of,
  worker_iter, worker_loop,
}
use dingdong.Workers.Change.{worker_restore, store_restored, worker_wipe}
use dingdong.Workers.Valid.{Distinct}
use dingdong.System.Backup.{
  BackupWorker, addr_or_zero, worker_to_backup_cb, worker_from, restore_loop, restore_workers,
}

-- A worker whose fields fit those of the record.
pub record Fits (w : Worker) : Type 0 where
  pub id_range : (0 < w.id) × (w.id < 2 ^ 16)
  pub addr_size : length w.addr ≡ 6
  pub addr_bytes : All (λ b. b < 256) w.addr
  pub name_size : length w.name < worker_name_max
  pub category_size : length w.category < worker_category_max

-- The element that backup_get makes of a worker.
abbrev pub element : Worker → BackupWorker
element w = record {
  id = some w.id;
  addr = some (format_mac w.addr);
  name = some w.name;
  category = some w.category;
  created_at = some w.created_at;
}

abbrev pub elements : List Worker → List BackupWorker
elements [] = []
elements (w ∷ ws) = element w ∷ elements ws

worker_loop-elements :
    (ws : List Worker) (arr : List BackupWorker)
    → (worker_loop worker_to_backup_cb ws arr).1 ≡ arr ++ elements ws
unfolding worker_loop worker_to_backup_cb
worker_loop-elements [] arr = sym (append-nil arr)
worker_loop-elements (w ∷ ws) arr =
    worker_loop-elements ws (arr ++ (element w ∷ []))
    ∙ append_assoc arr (element w ∷ []) (elements ws)

scan_mac-six :
    (a : List ℕ) → length a ≡ 6 → All (λ b. b < 256) a → scan_mac 6 (format_mac a) ≡ some a
scan_mac-six [] n h = absurd (omega arith)
scan_mac-six (b ∷ bs) n h =
    let six : length (b ∷ bs) ≡ 6 = n in
    subst (λ (k : ℕ). scan_mac k (format_mac (b ∷ bs)) ≡ some (b ∷ bs)) six
      (scan_mac-format_mac b bs h)

addr_or_zero-format_mac :
    (a : List ℕ) → length a ≡ 6 → All (λ b. b < 256) a → addr_or_zero (some (format_mac a)) ≡ a
addr_or_zero-format_mac a n h = rw (addr_or_zero, scan_mac-six a n h) refl

worker_from-element : (w : Worker) → Fits w → worker_from w.id (element w) ≡ w
unfolding worker_from
worker_from-element w fits =
    let small : w.id % 2 ^ 16 ≡ w.id = omega (arith, fits.id_range.1) in
    rw
      (
        small,
        addr_or_zero-format_mac w.addr fits.addr_size fits.addr_bytes,
        take-all 31 w.name (omega (arith, fits.name_size)),
        take-all 15 w.category (omega (arith, fits.category_size)),
      )
      refl

index_of-absent : (id : ℕ) (ws : List Worker) → All (λ v. v.id ≢ id) ws → index_of id ws ≡ none
unfolding index_of
index_of-absent id [] absent = refl
index_of-absent id (w ∷ ws) absent = ground (arith, absent.0, index_of-absent id ws absent.1)

-- Ids of these that none of those has.
abbrev Fresh : List Worker → List Worker → Type 0
Fresh [] acc = Unit
Fresh (w ∷ ws) acc = All (λ v. v.id ≢ w.id) acc × Fresh ws acc

All-snoc :
    (P : Worker → Type 0) (acc : List Worker) (w : Worker)
    → All P acc
    → P w
    → All P (acc ++ (w ∷ []))
All-snoc P [] w all p = (p, tt)
All-snoc P (v ∷ acc) w all p = (all.0, All-snoc P acc w all.1 p)

Fresh-more :
    (w : Worker) (ws acc : List Worker)
    → All (λ v. v.id ≢ w.id) ws
    → Fresh ws acc
    → Fresh ws (acc ++ (w ∷ []))
Fresh-more w [] acc others fresh = tt
Fresh-more w (v ∷ ws) acc others fresh = (
  All-snoc (λ u. u.id ≢ v.id) acc w fresh.0 (λ e. others.0 (sym e)),
  Fresh-more w ws acc others.1 fresh.1,
)

Fresh-nil : (ws : List Worker) → Fresh ws []
Fresh-nil [] = tt
Fresh-nil (w ∷ ws) = (tt, Fresh-nil ws)

module _ {S : Type 0} (nvs : Nvs S) (json : Json) where
  store_restored-workers :
      (w : Worker) (t : Table) (s : S) → (store_restored nvs json w t s).1.workers ≡ t.workers
  unfolding store_restored
  store_restored-workers w t s = elim (Bool-cases (is_ok (nvs.opens readwrite ns s))) [
    | inr refused ↦ rw refused refl
    | inl opened ↦ elim (Bool-cases (is_ok (save_one nvs json w s).0 && leb t.next_id w.id)) [
      | inl raises ↦ rw (opened, raises) refl
      | inr stays ↦ rw (opened, stays) refl
    ]
  ]

  worker_restore-new :
      (w : Worker) (t : Table) (s : S)
      → 0 < w.id
      → All (λ v. v.id ≢ w.id) t.workers
      → length t.workers < worker_max
      → (worker_restore nvs json (some w) t s).1.workers ≡ t.workers ++ (w ∷ [])
  unfolding worker_restore
  worker_restore-new w t s pos absent room =
      let some_id : (w.id == 0) ≡ false = ground arith in
      let space : leb worker_max (length t.workers) ≡ false = ground arith in
      rw (some_id, index_of-absent w.id t.workers absent, space)
        (store_restored-workers w (record t { workers = t.workers ++ (w ∷ []) }) s)

  restore_loop-element :
      (w : Worker) (ws : List Worker) (t : Table) (s : S)
      → Fits w
      → let made = worker_restore nvs json (some w) t s in
        restore_loop nvs json (elements (w ∷ ws)) t s
        ≡ restore_loop nvs json (elements ws) made.1 made.2
  unfolding restore_loop
  restore_loop-element w ws t s fits =
      ap
        (λ (v : Worker).
          let made = worker_restore nvs json (some v) t s in
          restore_loop nvs json (elements ws) made.1 made.2)
        (worker_from-element w fits)

  restore_loop-elements :
      (ws : List Worker) (t : Table) (s : S)
      → All Fits ws
      → Distinct ws
      → Fresh ws t.workers
      → length t.workers + length ws ≤ worker_max
      → (restore_loop nvs json (elements ws) t s).0.workers ≡ t.workers ++ ws
  unfolding restore_loop
  restore_loop-elements [] t s fits distinct fresh room = sym (append-nil t.workers)
  restore_loop-elements (w ∷ ws) t s fits distinct fresh room =
      let made = worker_restore nvs json (some w) t s in
      let added = worker_restore-new w t s (fits.0.id_range.0) fresh.0 (omega arith) in
      let more = Fresh-more w ws t.workers distinct.0 fresh.1 in
      let inner =
        restore_loop-elements ws made.1 made.2 fits.1 distinct.1
          (subst (λ (a : List Worker). Fresh ws a) (sym added) more)
          (omega (arith, room, ap length added, length-append t.workers (w ∷ []))) in
      ap (λ (r : Table × S). r.0.workers) (restore_loop-element w ws t s (fits.0))
      ∙ (inner ∙ (ap (λ a. a ++ ws) added ∙ append_assoc t.workers (w ∷ []) ws))

  -- The workers of a registry, backed up and restored onto a device whose store opens: the registry has the same workers, with ids,
  -- addresses, names, categories and times, in the same order, whatever workers were there before and whether or not the saves succeed. The workers have distinct ids
  -- above 0, at most 32 of them, and fields that fit.
  pub restore_workers-backup :
      (from t : Table) (s : S)
      → All Fits from.workers
      → Distinct from.workers
      → length from.workers ≤ worker_max
      → nvs.opens readwrite ns s ≡ Err.ok
      → let backup = (worker_iter (some worker_to_backup_cb) from []).1 in
        (restore_workers nvs json (some backup) t s).0.workers ≡ from.workers
  unfolding restore_workers worker_iter worker_wipe
  restore_workers-backup from t s fits distinct room opened =
      rw (worker_loop-elements from.workers [], opened)
        (restore_loop-elements from.workers (record { workers = []; next_id = 1 }) _ fits distinct
          (Fresh-nil from.workers) (omega (arith, room)))
