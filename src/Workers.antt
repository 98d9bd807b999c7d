-- ===== src/Workers.antt =====
-- components/workers/dd_worker.c: the registry of workers, a table in RAM that is written through to
-- the NVS. Each call holds the mutex throughout; `lookup_or_create` takes it twice, and is modelled as
-- without a call between. The NVS and cJSON are arguments.
pub mod Change
pub mod Valid
pub mod Delete
pub mod Create
pub mod Keeps
pub mod Restore
pub mod Update
pub mod Loads
mod Tests
use dingdong.Common.{
  ℕ, zero, suc, ◌+◌, ◌-◌, ◌%◌, ◌^◌, Bool, true, false, not, ◌&&◌, ◌||◌, Option, none, some, List,
  [], ◌∷◌, ◌++◌, length, take, set, replicate, get_or, ltb, leb, ◌==◌, if◌then◌else◌, Err, is_ok,
  codes, bytes_eq,
}
use dingdong.Stdio.{decimal}
use dingdong.Util.{format_mac, scan_mac, hex2, hex4}
use dingdong.Nvs.{Nvs, readwrite, u16}

-- DD_WORKER_NAME_MAX, DD_WORKER_CATEGORY_MAX, DD_WORKER_MAX
abbrev pub worker_name_max : ℕ
worker_name_max = 32

abbrev pub worker_category_max : ℕ
worker_category_max = 16

abbrev pub worker_max : ℕ
worker_max = 32

abbrev pub uint16 : ℕ
uint16 = 2 ^ 16

-- NS, KEY_NEXT_ID
abbrev pub ns : List ℕ
ns = codes "dd_workers"

abbrev pub key_next_id : List ℕ
key_next_id = codes "next_id"

-- dd_worker_t; a string is its bytes up to the NUL
pub record Worker : Type 0 where
  pub id : ℕ
  pub addr : List ℕ
  pub name : List ℕ
  pub category : List ℕ
  pub created_at : ℕ

abbrev pub no_worker : Worker
no_worker = record { id = 0; addr = replicate 6 0; name = []; category = []; created_at = 0 }

-- The first s_count entries of s_workers, and s_next_id. What lies behind them is not read.
pub record Table : Type 0 where
  pub workers : List Worker
  pub next_id : ℕ

-- What cJSON makes of the object of `save_one`, and the four members that `load_one` asks a parsed
-- object for; one of another type counts as missing.
pub record Members : Type 0 where
  pub addr : Option (List ℕ)
  pub name : Option (List ℕ)
  pub category : Option (List ℕ)
  pub created_at : Option ℕ

pub record Json : Type 0 where
  pub print : List ℕ → List ℕ → List ℕ → ℕ → Option (List ℕ)
  pub parse : List ℕ → Option Members

-- key_for_id: `w_%04u`
abbrev pub key_for_id : ℕ → List ℕ
key_for_id id = codes "w_" ++ (replicate (4 - length (decimal id)) b'0' ++ decimal id)

-- strncpy into a field of that size that was cleared: its last byte stays NUL
abbrev pub or_cut : ℕ → List ℕ → List ℕ
or_cut size text = take (size - 1) text

abbrev pub read_addr : Option (List ℕ) → List ℕ
read_addr none = replicate 6 0
read_addr (some text) = elim (scan_mac 6 text) [ none ↦ replicate 6 0 | some addr ↦ addr ]

abbrev pub read_text : ℕ → Option (List ℕ) → List ℕ
read_text size none = []
read_text size (some text) = or_cut size text

abbrev pub from_members : ℕ → Members → Worker
from_members id j = record {
  id = id;
  addr = read_addr j.addr;
  name = read_text worker_name_max j.name;
  category = read_text worker_category_max j.category;
  created_at = elim j.created_at [ none ↦ 0 | some n ↦ n ];
}

module _ {S : Type 0} (nvs : Nvs S) (json : Json) where
  -- load_one; malloc is taken to succeed. The two reads of the blob are one here.
  unfoldable pub load_one : ℕ → S → Err × Option Worker
  load_one id s =
      let (err, buf) = nvs.get_blob ns (key_for_id id) s in
      if not (is_ok err)
      then (err, none)
      else if (length buf == 0) || ltb 1024 (length buf)
      then (Err.invalid_size, none)
      else elim (json.parse buf) [
        | none ↦ (Err.invalid_arg, none)
        | some j ↦ (Err.ok, some (from_members id j))
      ]

  -- save_one
  unfoldable pub save_one : Worker → S → Err × S
  save_one w s = elim (json.print (format_mac w.addr) w.name w.category w.created_at) [
    | none ↦ (Err.no_mem, s)
    | some text ↦
        let (err, s') = nvs.set_blob ns (key_for_id w.id) text s in
        if is_ok err then nvs.commit ns s' else (err, s')
  ]

  -- The loop of dd_worker_init from `id` on, for `fuel` ids and room for `room` workers.
  unfoldable pub load_loop : ℕ → ℕ → ℕ → S → List Worker
  unfolding load_one
  load_loop zero id room s = []
  load_loop (suc fuel) id zero s = []
  load_loop (suc fuel) id (suc room) s =
      let missed = load_loop fuel (id + 1) (suc room) s in
      let rest = load_loop fuel (id + 1) room s in
      elim (load_one id s).1 [ none ↦ missed | some w ↦ w ∷ rest ]

  -- dd_worker_init; `made` is whether the mutex could be created
  unfoldable pub worker_init : Bool → Table → S → Err × Table
  unfolding load_loop
  worker_init made t s =
      let e_open = nvs.opens readwrite ns s in
      let (e_next, stored) = nvs.get_num u16 ns key_next_id s in
      let next = if is_ok e_next then stored else 1 in
      if not made
      then (Err.no_mem, t)
      else if not (is_ok e_open)
      then (e_open, t)
      else (Err.ok, record { workers = load_loop (next - 1) 1 worker_max s; next_id = next })

-- dd_worker_find_by_addr: 0 where no worker has the address
unfoldable pub find_addr : List Worker → List ℕ → ℕ
find_addr [] addr = 0
find_addr (w ∷ ws) addr = if bytes_eq w.addr addr then w.id else find_addr ws addr

unfoldable pub find_by_addr : Table → Option (List ℕ) → ℕ
unfolding find_addr
find_by_addr t none = 0
find_by_addr t (some addr) = find_addr t.workers addr

-- The loops that look for an id: the index, from `i` on.
unfoldable pub index_of : ℕ → List Worker → Option ℕ
index_of id [] = none
index_of id (w ∷ ws) =
    if w.id == id then some 0 else elim (index_of id ws) [ none ↦ none | some i ↦ some (suc i) ]

-- dd_worker_get
unfoldable pub find_id : ℕ → List Worker → Option Worker
find_id id [] = none
find_id id (w ∷ ws) = if w.id == id then some w else find_id id ws

unfoldable pub worker_get : Table → ℕ → Bool → Err × Option Worker
unfolding find_id
worker_get t id out =
    if not out || (id == 0)
    then (Err.invalid_arg, none)
    else elim (find_id id t.workers) [ none ↦ (Err.not_found, none) | some w ↦ (Err.ok, some w) ]

-- `while (*p == ' ' || *p == '\t') p++; if (*p == '\0')`
unfoldable pub is_blank : List ℕ → Bool
is_blank [] = true
is_blank (c ∷ cs) = if (c == 32) || (c == 9) then is_blank cs else false

abbrev pub blank_name : Option (List ℕ) → Bool
blank_name none = false
blank_name (some name) = is_blank name

abbrev pub given_or : ℕ → Option (List ℕ) → List ℕ → List ℕ
given_or size none old = old
given_or size (some text) old = or_cut size text

abbrev pub renamed : Option (List ℕ) → Option (List ℕ) → Worker → Worker
renamed name category w = record w {
  name = given_or worker_name_max name w.name;
  category = given_or worker_category_max category w.category;
}

-- `s_workers[idx] = s_workers[s_count - 1]` unless it is the last, and s_count--
unfoldable pub remove_swap : List Worker → ℕ → List Worker
remove_swap ws idx =
    let last = length ws - 1 in
    take last (if idx == last then ws else set ws idx (get_or ws last no_worker))

-- dd_worker_iter; `none` is a callback that is NULL
unfoldable pub worker_loop : {X : Type 0} → (Worker → X → Err × X) → List Worker → X → Err × X
worker_loop cb [] x = (Err.ok, x)
worker_loop cb (w ∷ ws) x =
    let (e, x') = cb w x in let rest = worker_loop cb ws x' in if is_ok e then rest else (e, x')

unfoldable pub worker_iter : {X : Type 0} → Option (Worker → X → Err × X) → Table → X → Err × X
unfolding worker_loop
worker_iter none t x = (Err.invalid_arg, x)
worker_iter (some cb) t x = worker_loop cb t.workers x

-- dd_worker_count
unfoldable pub worker_count : Table → ℕ
worker_count t = length t.workers
