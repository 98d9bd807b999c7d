-- ===== src/Workers/Tests.antt =====
-- The properties of the worker registry at a concrete table, NVS and JSON form.
use dingdong.Common.{
  ℕ, ◌<◌, ◌≡◌, refl, sym, ap, ◌∙◌, true, Option, none, some, List, [], ◌∷◌, ◌++◌, length, take,
  get_or, Err, ◌≢◌, arith, take-append, take-all, drop, drop-append_ge, ◌⊎◌, bytes_eq, codes,
  some_eq,
}
use dingdong.Util.{format_mac, scan_mac, scan_byte, hex_value}
use dingdong.Nvs.Memory.{Entry, memory, memory-KeepsBlobs}
use dingdong.Workers.{
  Worker, Table, Json, Members, find_id, find_by_addr, load_one, save_one, worker_init,
}
use dingdong.Workers.Change.{lookup_or_create, worker_update, worker_delete, worker_restore}
use dingdong.Workers.Valid.{IsValid}
use dingdong.Workers.Delete.{worker_delete_lem}
use dingdong.Workers.Create.{lookup_or_create_lem}
use dingdong.Workers.Restore.{worker_restore_lem}
use dingdong.Workers.Update.{IsBlanks, Updated, worker_update_lem}
use dingdong.Workers.Loads.{ReadsBack, IsWorker, load_one-save_one}

-- A form with the same promise as cJSON's: the lengths, then the texts.
abbrev parse_form : List ℕ → Option Members
parse_form (t ∷ a ∷ n ∷ rest) = some (record {
  addr = some (take a rest);
  name = some (take n (drop a rest));
  category = some (drop n (drop a rest));
  created_at = some t;
})
parse_form _ = none

abbrev form : Json
form = record {
  print =
      λ addr name category t. some (t ∷ length addr ∷ length name ∷ (addr ++ (name ++ category)));
  parse = parse_form;
}

split_form :
    (xs ys : List ℕ) → (take (length xs) (xs ++ ys) ≡ xs) × (drop (length xs) (xs ++ ys) ≡ ys)
split_form xs ys = (
  take-append xs ys (length xs) (omega arith) ∙ take-all (length xs) xs (omega arith),
  drop-append_ge xs ys (length xs) 0 (omega arith),
)

form-ReadsBack : ReadsBack form
form-ReadsBack = record {
  parse-print = λ addr name category t text low e.
      let first = split_form addr (name ++ category) in
      let second = split_form name category in
      rw (sym (some_eq e)) (omega arith, rw (first.0, first.1, second.0, second.1) refl);
}

abbrev addr_a : List ℕ
addr_a = 0xaa ∷ 1 ∷ 2 ∷ 3 ∷ 4 ∷ 5 ∷ []

abbrev addr_b : List ℕ
addr_b = 0xbb ∷ 1 ∷ 2 ∷ 3 ∷ 4 ∷ 5 ∷ []

abbrev ada : Worker
ada = record { id = 1; addr = addr_a; name = codes "Ada"; category = []; created_at = 9 }

abbrev bob : Worker
bob = record { id = 3; addr = addr_b; name = codes "Bob"; category = codes "day"; created_at = 9 }

abbrev table : Table
table = record { workers = ada ∷ bob ∷ []; next_id = 4 }

abbrev flash : List Entry
flash = []

table-IsValid : IsValid table
table-IsValid = record {
  size = omega arith;
  range = (omega arith, omega arith);
  distinct = (omega arith, (tt, tt));
  next = omega arith;
}

apart : addr_b ≢ addr_a
apart e = let first = ap (λ (l : List ℕ). get_or l 0 0) e in omega arith

mac_text : format_mac addr_a ≡ codes "aa:01:02:03:04:05"
unfolding format_mac
mac_text = refl

mac_upper : scan_mac 6 (codes "AA:1:02:03:04:05") ≡ some addr_a
unfolding scan_mac scan_byte hex_value
mac_upper = refl

worker_delete_lem_example :
    let (e, t', s') = worker_delete memory form 1 table flash in
    (◌≡◌ {A = ℕ} 1 0 → e ≡ Err.invalid_arg)
    × (◌≢◌ {A = ℕ} 1 0
        → find_id 1 table.workers ≡ none
        → (e ≡ Err.not_found) × (t' ≡ table) × (s' ≡ flash))
    × (◌≢◌ {A = ℕ} 1 0 → find_id 1 t'.workers ≡ none)
    × (◌≢◌ {A = ℕ} 1 3 → find_id 3 t'.workers ≡ find_id 3 table.workers)
    × IsValid t'
    × (t'.next_id ≡ 4)
worker_delete_lem_example = worker_delete_lem memory form table flash 1 3 table-IsValid

abbrev addr_c : List ℕ
addr_c = 0xcc ∷ 1 ∷ 2 ∷ 3 ∷ 4 ∷ 5 ∷ []

created : (lookup_or_create memory form (some addr_c) 9 table flash).0 ≡ 4
unfolding lookup_or_create format_mac bytes_eq
created = refl

lookup_or_create_lem_example :
    let (id, t', s') = lookup_or_create memory form (some addr_c) 9 table flash in
    (id ≢ 0 → find_by_addr t' (some addr_c) ≡ id)
    × (find_by_addr table (some addr_c) ≢ 0
        → (id ≡ find_by_addr table (some addr_c)) × (t' ≡ table))
    × (id ≡ 0 → t' ≡ table)
    × (addr_c ≢ addr_a → find_by_addr t' (some addr_a) ≡ find_by_addr table (some addr_a))
    × IsValid t'
lookup_or_create_lem_example =
    lookup_or_create_lem memory form table flash addr_c addr_a 9 table-IsValid (omega arith)

abbrev cyd : Worker
cyd = record { id = 7; addr = addr_c; name = codes "Cyd"; category = []; created_at = 9 }

restored : (worker_restore memory form (some cyd) table flash).0 ≡ Err.ok
unfolding worker_restore format_mac
restored = refl

worker_restore_lem_example :
    let (e, t', s') = worker_restore memory form (some cyd) table flash in
    (find_id 7 t'.workers ≡ some cyd)
    × (◌≢◌ {A = ℕ} 7 3 → find_id 3 t'.workers ≡ find_id 3 table.workers)
    × IsValid t'
worker_restore_lem_example =
    worker_restore_lem memory form table flash cyd 3 table-IsValid (omega arith) (omega arith)
      restored

worker_update_lem_example :
    let (e, t', s') = worker_update memory form 3 (some (codes "Bo")) none table flash in
    ((◌≡◌ {A = ℕ} 3 0) ⊎ IsBlanks (some (codes "Bo"))
      → (e ≡ Err.invalid_arg) × (t' ≡ table) × (s' ≡ flash))
    × (◌≢◌ {A = ℕ} 3 0
        → ¬ IsBlanks (some (codes "Bo"))
        → find_id 3 table.workers ≡ none
        → (e ≡ Err.not_found) × (t' ≡ table) × (s' ≡ flash))
    × ((w : Worker)
        → ◌≢◌ {A = ℕ} 3 0
        → ¬ IsBlanks (some (codes "Bo"))
        → find_id 3 table.workers ≡ some w
        → ((w' : Worker) × (find_id 3 t'.workers ≡ some w') × Updated (some (codes "Bo")) none w w')
          × (◌≢◌ {A = ℕ} 3 1 → find_id 1 t'.workers ≡ find_id 1 table.workers)
          × IsValid t')
worker_update_lem_example =
    worker_update_lem memory form table flash 3 1 (some (codes "Bo")) none table-IsValid

bob-IsWorker : IsWorker bob
bob-IsWorker = record {
  six = refl;
  bytes = omega arith;
  name = omega arith;
  category = omega arith;
  created_at = omega arith;
}

abbrev bob_text : List ℕ
bob_text = 9 ∷ 17 ∷ 3 ∷ (codes "bb:01:02:03:04:05" ++ (codes "Bob" ++ codes "day"))

bob_printed : form.print (format_mac bob.addr) bob.name bob.category bob.created_at ≡ some bob_text
unfolding format_mac
bob_printed = refl

bob_saved : (save_one memory form bob flash).0 ≡ Err.ok
unfolding save_one
bob_saved = refl

load_one-save_one_example :
    load_one memory form 3 (save_one memory form bob flash).1 ≡ (Err.ok, some bob)
load_one-save_one_example =
    load_one-save_one memory form flash bob bob_text memory-KeepsBlobs form-ReadsBack bob-IsWorker
      bob_printed (omega arith) bob_saved

starts : (worker_init memory form true table flash).0 ≡ Err.ok
unfolding worker_init
starts = refl

next_one : 0 < (worker_init memory form true table flash).1.next_id
unfolding worker_init
next_one = omega arith
