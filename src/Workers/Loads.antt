-- ===== src/Workers/Loads.antt =====
-- Loading the workers of components/workers/dd_worker.c: what was saved is loaded.
use dingdong.Common.{
  is_ok-eq, ℕ, zero, suc, ◌+◌, ◌-◌, ◌≤◌, ◌<◌, ◌≡◌, refl, sym, ap, ◌∙◌, Bool, false, ◌||◌, some,
  List, [], ◌∷◌, length, ltb, ◌==◌, if◌then◌else◌, Err, is_ok, ◌≢◌, All, arith, take-all, ap₂,
  Bool-cases, Option-cases, inl, inr, some_eq, ◌^◌,
}
use mathlib.Core.Path.{subst}
use dingdong.Util.{format_mac, scan_mac, scan_mac-format_mac}
use dingdong.Nvs.{Nvs, KeepsBlobs, readwrite, u16}
use dingdong.Workers.{
  Worker, Table, Json, Members, ns, key_next_id, key_for_id, worker_max, worker_name_max,
  worker_category_max, load_one, save_one, load_loop, worker_init, read_addr, from_members,
}
use dingdong.Workers.Valid.{IsValid, InRange, Distinct}

-- What cJSON prints of the object is not empty and parses to its members; a number is exact below 2^53.
pub record ReadsBack (json : Json) : Type 0 where
  pub parse-print :
      (addr name category : List ℕ) (created_at : ℕ) (text : List ℕ)
      → created_at < 2 ^ 53
      → json.print addr name category created_at ≡ some text
      → (0 < length text)
        × (json.parse text
            ≡ some (record {
              addr = some addr;
              name = some name;
              category = some category;
              created_at = some created_at;
            }))

-- A worker as `dd_worker_t` can hold it.
pub record IsWorker (w : Worker) : Type 0 where
  pub six : length w.addr ≡ 6
  pub bytes : All (λ b. b < 256) w.addr
  pub name : length w.name < worker_name_max
  pub category : length w.category < worker_category_max
  pub created_at : w.created_at < 2 ^ 53

read_addr-format_mac :
    (addr : List ℕ)
    → length addr ≡ 6
    → All (λ b. b < 256) addr
    → read_addr (some (format_mac addr)) ≡ addr
read_addr-format_mac [] six ok = absurd (omega (arith, six))
read_addr-format_mac (b ∷ bs) six ok =
    let back =
      subst (λ (n : ℕ). scan_mac n (format_mac (b ∷ bs)) ≡ some (b ∷ bs)) six
        (scan_mac-format_mac b bs ok) in
    rw (read_addr, back) refl

-- The members of a worker's object give the worker.
from_members-whole :
    (w : Worker)
    → IsWorker w
    → from_members w.id (record {
      addr = some (format_mac w.addr);
      name = some w.name;
      category = some w.category;
      created_at = some w.created_at;
    })
      ≡ w
from_members-whole w good =
    let addr = read_addr-format_mac w.addr good.six good.bytes in
    let name = take-all (worker_name_max - 1) w.name (let short = good.name in omega arith) in
    let category =
      take-all (worker_category_max - 1) w.category (let short = good.category in omega arith) in
    ap₂ (λ (a : List ℕ) (nc : List ℕ × List ℕ). record w { addr = a; name = nc.0; category = nc.1 })
      addr (ap₂ (λ (n : List ℕ) (c : List ℕ). (n, c)) name category)

load_one-got :
    {S : Type 0} (nvs : Nvs S) (json : Json) (s : S) (id : ℕ) (text : List ℕ) (j : Members)
    → nvs.get_blob ns (key_for_id id) s ≡ (Err.ok, text)
    → 0 < length text
    → length text ≤ 1024
    → json.parse text ≡ some j
    → load_one nvs json id s ≡ (Err.ok, some (from_members id j))
unfolding load_one
load_one-got nvs json s id text j got full short parsed =
    let size : ((length text == 0) || ltb 1024 (length text)) ≡ false = ground arith in
    rw (got, size, parsed) refl

-- A worker whose save reports success, with a text of at most 1024 bytes, is the worker that is then
-- loaded under its id.
pub load_one-save_one :
    {S : Type 0} (nvs : Nvs S) (json : Json) (s : S) (w : Worker) (text : List ℕ)
    → KeepsBlobs nvs
    → ReadsBack json
    → IsWorker w
    → json.print (format_mac w.addr) w.name w.category w.created_at ≡ some text
    → length text ≤ 1024
    → let (e, s') = save_one nvs json w s in
      e ≡ Err.ok → load_one nvs json w.id s' ≡ (Err.ok, some w)
unfolding save_one
load_one-save_one nvs json s w text keeps reads good printed short =
    rw (save_one, printed)
      (elim (Bool-cases (is_ok (nvs.set_blob ns (key_for_id w.id) text s).0)) [
        | inr failed ↦ rw failed (λ e. absurd (ground (arith, e, failed)))
        | inl stored ↦ rw stored (λ e.
            let (full, parsed) =
              reads.parse-print (format_mac w.addr) w.name w.category w.created_at text
                good.created_at printed in
            let s' = (nvs.set_blob ns (key_for_id w.id) text s).1 in
            let got =
              keeps.get_blob-commit ns (key_for_id w.id) s'
              ∙ keeps.get_blob-set_blob ns (key_for_id w.id) text s (is_ok-eq _ stored) in
            load_one-got nvs json (nvs.commit ns s').1 w.id text _ got full short parsed
            ∙ ap (λ (x : Worker). (Err.ok, some x)) (from_members-whole w good))
      ])

module _ {S : Type 0} (nvs : Nvs S) (json : Json) (s : S) where
  load_one-id : (id : ℕ) (w : Worker) → (load_one nvs json id s).1 ≡ some w → w.id ≡ id
  unfolding load_one
  load_one-id id w = elim (Bool-cases (is_ok (nvs.get_blob ns (key_for_id id) s).0)) [
    | inr failed ↦ rw failed (λ e. absurd cc)
    | inl read ↦
        rw read
          (elim (Bool-cases (
            (length (nvs.get_blob ns (key_for_id id) s).1 == 0)
            || ltb 1024 (length (nvs.get_blob ns (key_for_id id) s).1))) [
              | inl long ↦ rw long (λ e. absurd cc)
              | inr fits ↦
                  rw fits (elim (Option-cases (json.parse (nvs.get_blob ns (key_for_id id) s).1)) [
                    | inl bad ↦ rw bad (λ e. absurd cc)
                    | inr (j, parsed) ↦ rw parsed (λ e. ap (λ (x : Worker). x.id) (sym (some_eq e)))
                  ])
            ])
  ]

  weaken :
      (n m k : ℕ) (ws : List Worker)
      → All (λ w. (n + 1 ≤ w.id) × (w.id < n + 1 + k)) ws
      → m ≡ n
      → All (λ w. (m ≤ w.id) × (w.id < m + suc k)) ws
  weaken n m k [] a e = tt
  weaken n m k (w ∷ ws) a e = ((omega (arith, a.0.0), omega (arith, a.0.1)), weaken n m k ws a.1 e)

  apart :
      (n k : ℕ) (ws : List Worker)
      → All (λ w. (n + 1 ≤ w.id) × (w.id < n + 1 + k)) ws
      → All (λ w. w.id ≢ n) ws
  apart n k [] a = tt
  apart n k (w ∷ ws) a = (λ e. omega (arith, a.0.0), apart n k ws a.1)

  load_loop-ids :
      (fuel id room : ℕ)
      → let ws = load_loop nvs json fuel id room s in
        (length ws ≤ room) × All (λ w. (id ≤ w.id) × (w.id < id + fuel)) ws × Distinct ws
  unfolding load_loop
  load_loop-ids zero id room = (omega arith, tt, tt)
  load_loop-ids (suc fuel) id zero = (omega arith, tt, tt)
  load_loop-ids (suc fuel) id (suc room) = elim (Option-cases (load_one nvs json id s).1) [
    | inl missed ↦
        let inner = load_loop-ids fuel (id + 1) (suc room) in
        rw (load_loop, missed)
          (
            inner.0,
            weaken id id fuel (load_loop nvs json fuel (id + 1) (suc room) s) inner.1 refl,
            inner.2,
          )
    | inr (w, read) ↦
        let inner = load_loop-ids fuel (id + 1) room in
        let its = load_one-id id w read in
        rw (load_loop, read)
          (
            omega (arith, inner.0),
            (
              (omega arith, omega arith),
              weaken id id fuel (load_loop nvs json fuel (id + 1) room s) inner.1 refl,
            ),
            (rw its (apart id fuel (load_loop nvs json fuel (id + 1) room s) inner.1), inner.2),
          )
  ]

in_range :
    (next : ℕ) (ws : List Worker)
    → 0 < next
    → All (λ w. (1 ≤ w.id) × (w.id < 1 + (next - 1))) ws
    → All (InRange next) ws
in_range next [] pos a = tt
in_range next (w ∷ ws) pos a =
    ((omega (arith, a.0.0), omega (arith, a.0.1)), in_range next ws pos a.1)

-- Whatever the NVS holds, an init that reports success loads a valid table, unless it holds a next id of 0.
worker_init-IsValid :
    {S : Type 0} (nvs : Nvs S) (json : Json) (t : Table) (s : S) (made : Bool)
    → let (e, t') = worker_init nvs json made t s in e ≡ Err.ok → 0 < t'.next_id → IsValid t'
unfolding worker_init
worker_init-IsValid nvs json t s made = elim (Bool-cases made) [
  | inr out ↦ rw out (λ e. absurd cc)
  | inl there ↦ rw there (elim (Bool-cases (is_ok (nvs.opens readwrite ns s))) [
    | inr refused ↦ rw refused (λ e. absurd (ground (arith, e, refused)))
    | inl opened ↦ rw opened (λ e pos.
        let next =
          if is_ok (nvs.get_num u16 ns key_next_id s).0
          then (nvs.get_num u16 ns key_next_id s).1
          else 1 in
        let loaded = load_loop-ids nvs json s (next - 1) 1 worker_max in
        record {
          size = loaded.0;
          range = in_range next (load_loop nvs json (next - 1) 1 worker_max s) pos loaded.1;
          distinct = loaded.2;
          next = pos;
        })
  ])
]
