-- ===== src/Workers/Update.antt =====
-- dd_worker_update and dd_worker_wipe of components/workers/dd_worker.c.
use dingdong.Common.{
  ℕ, ◌≡◌, refl, sym, ap, ◌∙◌, true, false, ◌||◌, ◌-◌, take, Option, none, some, List, [], ◌∷◌, set,
  get_or, ◌==◌, Err, is_ok, ◌≢◌, All, arith, Bool-cases, Option-cases, inl, inr, ◌⊎◌, some_eq,
}
use mathlib.Core.Path.{subst}
use dingdong.Nvs.{Nvs, readwrite}
use dingdong.Workers.{
  Worker, Table, Json, ns, no_worker, find_id, index_of, is_blank, blank_name, renamed, given_or,
  worker_name_max, worker_category_max, find_by_addr, worker_count, find_addr,
}
use dingdong.Workers.Change.{worker_update, worker_wipe}
use dingdong.Workers.Valid.{IsValid, InRange, index_of-cases}
use dingdong.Workers.Delete.{index_of-none, index_of-found}
use dingdong.Workers.Keeps.{All-set, Distinct-set, find_id-set}

-- The worker at the index that the search gives, and its id.
found_at :
    (ws : List Worker) (id i : ℕ)
    → index_of id ws ≡ some i
    → ((get_or ws i no_worker).id ≡ id) × (find_id id ws ≡ some (get_or ws i no_worker))
unfolding index_of find_id
found_at [] id i e = absurd cc
found_at (w ∷ ws) id i e = elim (index_of-cases id w ws i e) [
  | inl (first, hit) ↦ rw first (hit, ground (arith, hit))
  | inr (j, later, miss, there) ↦
      let inner = found_at ws id j there in rw later (inner.0, ground (arith, inner.1))
]

range_at :
    (next : ℕ) (ws : List Worker) (i : ℕ) (id : ℕ)
    → All (InRange next) ws
    → index_of id ws ≡ some i
    → InRange next (get_or ws i no_worker)
unfolding index_of
range_at next [] i id a e = absurd cc
range_at next (w ∷ ws) i id a e = elim (index_of-cases id w ws i e) [
  | inl (first, hit) ↦ rw first a.0
  | inr (j, later, miss, there) ↦ rw later (range_at next ws j id a.1 there)
]

module _ {S : Type 0} (nvs : Nvs S) (json : Json) (t : Table) (s : S) (id : ℕ)
    (name category : Option (List ℕ)) where
  worker_update-found :
      (i : ℕ)
      → id ≢ 0
      → blank_name name ≡ false
      → index_of id t.workers ≡ some i
      → (worker_update nvs json id name category t s).1 ≡ record t {
        workers = set t.workers i (renamed name category (get_or t.workers i no_worker));
      }
  unfolding worker_update
  worker_update-found i ne shown there =
      let some_id : (id == 0) ≡ false = ground arith in
      elim (Bool-cases (is_ok (nvs.opens readwrite ns s))) [
        | inl opened ↦ rw (some_id, shown, there, opened) refl
        | inr refused ↦ rw (some_id, shown, there, refused) refl
      ]

worker_update-parts :
    {S : Type 0} (nvs : Nvs S) (json : Json) (t : Table) (s : S) (id other : ℕ)
    (name category : Option (List ℕ))
    → IsValid t
    → let (e, t', s') = worker_update nvs json id name category t s in
      ((id ≡ 0) ⊎ (blank_name name ≡ true) → (e ≡ Err.invalid_arg) × (t' ≡ t) × (s' ≡ s))
      × (id ≢ 0
          → blank_name name ≡ false
          → find_id id t.workers ≡ none
          → (e ≡ Err.not_found) × (t' ≡ t) × (s' ≡ s))
      × ((w : Worker)
          → id ≢ 0
          → blank_name name ≡ false
          → find_id id t.workers ≡ some w
          → (find_id id t'.workers ≡ some (renamed name category w))
            × (id ≢ other → find_id other t'.workers ≡ find_id other t.workers)
            × IsValid t')
unfolding worker_update
worker_update-parts nvs json t s id other name category v =
    elim (Option-cases (index_of id t.workers)) [
      | inl missing ↦ (
        refused,
        λ ne shown _.
            (let some_id : (id == 0) ≡ false = ground arith in
              rw (some_id, shown, missing) (refl, refl, refl)),
        λ w ne shown there. absurd (ground (arith, there, index_of-none id t.workers missing)),
      )
      | inr (i, at) ↦ (
        refused,
        λ ne shown absent. absurd (index_of-found id t.workers i at absent),
        λ w ne shown there.
            let same = some_eq (sym there ∙ (found_at t.workers id i at).1) in
            rw (worker_update-found nvs json t s id name category i ne shown at)
              (changed w i same at),
      )
    ]
  where
    refused :
        (id ≡ 0) ⊎ (blank_name name ≡ true)
        → let (e, t', s') = worker_update nvs json id name category t s in
          (e ≡ Err.invalid_arg) × (t' ≡ t) × (s' ≡ s)
    refused bad =
        let shut : ((id == 0) || blank_name name) ≡ true = ground (arith, bad) in
        rw shut (refl, refl, refl)

    changed :
        (w : Worker) (i : ℕ)
        → w ≡ get_or t.workers i no_worker
        → index_of id t.workers ≡ some i
        → let ws = set t.workers i (renamed name category (get_or t.workers i no_worker)) in
          (find_id id ws ≡ some (renamed name category w))
          × (id ≢ other → find_id other ws ≡ find_id other t.workers)
          × IsValid (record t { workers = ws })
    changed w i same at =
        let w' = renamed name category w in
        let its : w.id ≡ id = ap (λ (x : Worker). x.id) same ∙ (found_at t.workers id i at).0 in
        let there : index_of w'.id t.workers ≡ some i =
          subst (λ (n : ℕ). index_of n t.workers ≡ some i) (sym its) at in
        let found = find_id-set t.workers i w' other there in
        let range =
          subst (λ (x : Worker). InRange t.next_id x) (sym same)
            (range_at t.next_id t.workers i id v.range at) in
        rw (sym same) (
          subst (λ (n : ℕ). find_id n (set t.workers i w') ≡ some w') its found.0,
          λ ne. found.1 (λ e. ne (sym its ∙ e)),
          record {
            size = (let n = found.2 in omega arith);
            range = All-set (InRange t.next_id) t.workers i w' v.range range;
            distinct = Distinct-set t.workers i w' v.distinct there;
            next = v.next;
          },
        )

-- A name that is given and is spaces and tabs only.
abbrev pub IsBlanks : Option (List ℕ) → Type 0
IsBlanks none = ⊥
IsBlanks (some text) = All (λ c. (c ≡ 32) ⊎ (c ≡ 9)) text

is_blank-true : (text : List ℕ) → All (λ c. (c ≡ 32) ⊎ (c ≡ 9)) text → is_blank text ≡ true
unfolding is_blank
is_blank-true [] a = refl
is_blank-true (c ∷ cs) a =
    let blank : ((c == 32) || (c == 9)) ≡ true = ground (arith, a.0) in
    rw blank (is_blank-true cs a.1)

is_blank-all : (text : List ℕ) → is_blank text ≡ true → All (λ c. (c ≡ 32) ⊎ (c ≡ 9)) text
unfolding is_blank
is_blank-all [] = λ h. tt
is_blank-all (c ∷ cs) = elim (Bool-cases ((c == 32) || (c == 9))) [
  | inl blank ↦ rw blank (λ h. (ground (arith, blank), is_blank-all cs h))
  | inr shown ↦ rw shown (λ h. absurd cc)
]

blank_name-true : (name : Option (List ℕ)) → IsBlanks name → blank_name name ≡ true
blank_name-true none b = absurd b
blank_name-true (some text) b = is_blank-true text b

blank_name-false : (name : Option (List ℕ)) → ¬ IsBlanks name → blank_name name ≡ false
blank_name-false none shown = refl
blank_name-false (some text) shown = elim (Bool-cases (is_blank text)) [
  | inl blank ↦ absurd (shown (is_blank-all text blank))
  | inr ok ↦ ok
]

-- A field of `size` bytes after it is set to a text: the text as far as it fits in front of a NUL, or the old one
-- where none is given.
abbrev pub Field : ℕ → Option (List ℕ) → List ℕ → List ℕ → Type 0
Field size none old new = new ≡ old
Field size (some text) old new = new ≡ take (size - 1) text

-- A worker after an update: a new name and category, and the rest as before.
pub record Updated (new_name new_category : Option (List ℕ)) (w w' : Worker) : Type 0 where
  pub id : w'.id ≡ w.id
  pub addr : w'.addr ≡ w.addr
  pub created_at : w'.created_at ≡ w.created_at
  pub name : Field 32 new_name w.name w'.name
  pub category : Field 16 new_category w.category w'.category

renamed-Updated :
    (name category : Option (List ℕ)) (w : Worker)
    → Updated name category w (renamed name category w)
renamed-Updated name category w = record {
  id = refl;
  addr = refl;
  created_at = refl;
  name = field worker_name_max name w.name;
  category = field worker_category_max category w.category;
}
  where
    field :
        (size : ℕ) (text : Option (List ℕ)) (old : List ℕ)
        → Field size text old (given_or size text old)
    field size none old = refl
    field size (some text) old = refl

-- Updating, whatever the NVS answers: an id of 0 or a name of spaces and tabs only is an invalid argument, an
-- id that no worker has is not found, and both change nothing. Otherwise the worker with the id gets the name
-- and the category that are given, each cut to what its field of 32 or 16 bytes has room for in front of a NUL,
-- and keeps the one that is not given, its id, its address and its time; the worker of every other id is the one it
-- was, and the table stays valid.
pub worker_update_lem :
    {S : Type 0} (nvs : Nvs S) (json : Json) (t : Table) (s : S) (id other : ℕ)
    (name category : Option (List ℕ))
    → IsValid t
    → let (e, t', s') = worker_update nvs json id name category t s in
      ((id ≡ 0) ⊎ IsBlanks name → (e ≡ Err.invalid_arg) × (t' ≡ t) × (s' ≡ s))
      × (id ≢ 0
          → ¬ IsBlanks name
          → find_id id t.workers ≡ none
          → (e ≡ Err.not_found) × (t' ≡ t) × (s' ≡ s))
      × ((w : Worker)
          → id ≢ 0
          → ¬ IsBlanks name
          → find_id id t.workers ≡ some w
          → ((w' : Worker) × (find_id id t'.workers ≡ some w') × Updated name category w w')
            × (id ≢ other → find_id other t'.workers ≡ find_id other t.workers)
            × IsValid t')
worker_update_lem nvs json t s id other name category v =
    let (refused, missing, found) = worker_update-parts nvs json t s id other name category v in
    (
      λ bad. refused (elim bad [ inl z ↦ inl z | inr b ↦ inr (blank_name-true name b) ]),
      λ ne shown. missing ne (blank_name-false name shown),
      λ w ne shown there.
          (let (its, others, valid) = found w ne (blank_name-false name shown) there in
            ((renamed name category w, its, renamed-Updated name category w), others, valid)),
    )

-- A wipe, whatever the NVS answers: where the namespace opens it succeeds, no worker is left and the
-- next id is 1, so that the next worker gets that id; where it does not, the table and the NVS stay.
worker_wipe_lem :
    {S : Type 0} (nvs : Nvs S) (json : Json) (t : Table) (s : S) (addr : List ℕ)
    → let (e, t', s') = worker_wipe nvs json t s in
      (nvs.opens readwrite ns s ≡ Err.ok
        → (e ≡ Err.ok)
          × (worker_count t' ≡ 0)
          × (find_by_addr t' (some addr) ≡ 0)
          × (t'.next_id ≡ 1)
          × IsValid t')
      × (nvs.opens readwrite ns s ≢ Err.ok → (e ≢ Err.ok) × (t' ≡ t) × (s' ≡ s))
unfolding worker_wipe find_by_addr find_addr worker_count
worker_wipe_lem nvs json t s addr = (
  λ opened. rw opened (
    refl,
    refl,
    refl,
    refl,
    record { size = ground arith; range = tt; distinct = tt; next = omega arith },
  ),
  λ refused.
      (let shut : is_ok (nvs.opens readwrite ns s) ≡ false = ground (arith, refused) in
        rw shut (refused, refl, refl)),
)
