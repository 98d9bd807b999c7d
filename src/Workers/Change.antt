-- ===== src/Workers/Change.antt =====
-- The operations of components/workers/dd_worker.c that change the table: create, update, delete,
-- restore and wipe. An operation returns its result, the table and the NVS.
use dingdong.Common.{
  ℕ, zero, suc, ◌+◌, ◌-◌, ◌%◌, not, ◌&&◌, ◌||◌, Option, none, some, List, [], ◌∷◌, ◌++◌, length,
  set, get_or, leb, ◌==◌, if◌then◌else◌, Err, is_ok, codes,
}
use dingdong.Util.{hex2, hex4}
use dingdong.Nvs.{Nvs, readwrite, u16}
use dingdong.Workers.{
  Worker, Table, Json, ns, key_next_id, key_for_id, worker_max, uint16, no_worker, save_one,
  find_by_addr, index_of, blank_name, renamed, remove_swap,
}

abbrev pub unnamed : ℕ → List ℕ → ℕ → Worker
unnamed id addr now = record {
  id = id;
  addr = addr;
  name = codes "Unnamed_" ++ (hex4 id ++ hex2 (get_or addr 5 0));
  category = [];
  created_at = now;
}

module _ {S : Type 0} (nvs : Nvs S) (json : Json) where
  -- nvs_set_u16 of the next id and nvs_commit, whose results the code does not look at
  abbrev pub store_next : ℕ → S → S
  store_next next s = (nvs.commit ns (nvs.set_num u16 ns key_next_id next s).1).1

  -- dd_worker_lookup_or_create; `now` is time(NULL)
  unfoldable pub lookup_or_create : Option (List ℕ) → ℕ → Table → S → ℕ × Table × S
  unfolding find_by_addr save_one
  lookup_or_create none now t s = (0, t, s)
  lookup_or_create (some addr) now t s =
      let existing = find_by_addr t (some addr) in
      let w = unnamed t.next_id addr now in
      let (err, s') = save_one nvs json w s in
      let next = (t.next_id + 1) % uint16 in
      if not (existing == 0)
      then (existing, t, s)
      else if leb worker_max (length t.workers)
      then (0, t, s)
      else if not (is_ok (nvs.opens readwrite ns s))
      then (0, t, s)
      else if is_ok err
      then (w.id, record { workers = t.workers ++ (w ∷ []); next_id = next }, store_next next s')
      else (0, t, s')

  -- dd_worker_update; `none` is a NULL text
  unfoldable pub worker_update : ℕ → Option (List ℕ) → Option (List ℕ) → Table → S → Err × Table × S
  unfolding index_of save_one
  worker_update id name category t s =
      if (id == 0) || blank_name name
      then (Err.invalid_arg, t, s)
      else elim (index_of id t.workers) [
        | none ↦ (Err.not_found, t, s)
        | some i ↦
            let w = renamed name category (get_or t.workers i no_worker) in
            let t' = record t { workers = set t.workers i w } in
            let e_open = nvs.opens readwrite ns s in
            let (err, s') = save_one nvs json w s in
            if is_ok e_open then (err, t', s') else (e_open, t', s)
      ]

  -- dd_worker_delete
  unfoldable pub worker_delete : ℕ → Table → S → Err × Table × S
  unfolding index_of remove_swap
  worker_delete id t s = if id == 0 then (Err.invalid_arg, t, s) else elim (index_of id t.workers) [
    | none ↦ (Err.not_found, t, s)
    | some i ↦
        let t' = record t { workers = remove_swap t.workers i } in
        let e_open = nvs.opens readwrite ns s in
        let (err, s') = nvs.commit ns (nvs.erase_key ns (key_for_id id) s) in
        if is_ok e_open then (err, t', s') else (e_open, t', s)
  ]

  -- What dd_worker_restore does to the NVS and next_id, once the worker is in the table.
  unfoldable pub store_restored : Worker → Table → S → Err × Table × S
  unfolding save_one
  store_restored w t s =
      let e_open = nvs.opens readwrite ns s in
      let (err, s') = save_one nvs json w s in
      let next = (w.id + 1) % uint16 in
      if not (is_ok e_open)
      then (e_open, t, s)
      else if is_ok err && leb t.next_id w.id
      then (err, record t { next_id = next }, store_next next s')
      else (err, t, s')

  -- dd_worker_restore
  unfoldable pub worker_restore : Option Worker → Table → S → Err × Table × S
  unfolding index_of store_restored
  worker_restore none t s = (Err.invalid_arg, t, s)
  worker_restore (some w) t s =
      if w.id == 0 then (Err.invalid_arg, t, s) else elim (index_of w.id t.workers) [
        | some i ↦ store_restored w (record t { workers = set t.workers i w }) s
        | none ↦
            if leb worker_max (length t.workers)
            then (Err.no_mem, t, s)
            else store_restored w (record t { workers = t.workers ++ (w ∷ []) }) s
      ]

  unfoldable pub erase_ids : ℕ → ℕ → S → S
  erase_ids zero id s = s
  erase_ids (suc n) id s = erase_ids n (id + 1) (nvs.erase_key ns (key_for_id id) s)

  -- dd_worker_wipe; commit's result is not looked at
  unfoldable pub worker_wipe : Table → S → Err × Table × S
  unfolding erase_ids
  worker_wipe t s =
      let e_open = nvs.opens readwrite ns s in
      let erased = nvs.erase_key ns key_next_id (erase_ids (t.next_id - 1) 1 s) in
      if not (is_ok e_open)
      then (e_open, t, s)
      else (Err.ok, record { workers = []; next_id = 1 }, (nvs.commit ns erased).1)
