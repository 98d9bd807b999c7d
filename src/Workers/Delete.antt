-- ===== src/Workers/Delete.antt =====
-- dd_worker_delete of components/workers/dd_worker.c: what it leaves of the table.
use dingdong.Common.{
  ℕ, ◌-◌, ◌≤◌, ◌≡◌, refl, none, some, List, [], ◌∷◌, length, set, get_or, ◌==◌, if◌then◌else◌, Err,
  is_ok, ◌≢◌, arith, length-take, Bool-cases, Option-cases, inl, inr, ◌⊎◌,
}
use dingdong.Nvs.{Nvs, readwrite}
use dingdong.Workers.{Worker, Table, Json, ns, no_worker, index_of, find_id, remove_swap}
use dingdong.Workers.Change.{worker_delete}
use dingdong.Workers.Valid.{IsValid, InRange, remove_swap-find_id, index_of-cases}
use dingdong.Workers.Keeps.{All-remove_swap, Distinct-remove_swap}

length-remove_swap : (ws : List Worker) (i : ℕ) → length (remove_swap ws i) ≤ length ws
unfolding remove_swap
length-remove_swap ws i =
    let last = length ws - 1 in
    let short = length-take last (if i == last then ws else set ws i (get_or ws last no_worker)) in
    ground (arith, short)

pub index_of-none : (id : ℕ) (ws : List Worker) → index_of id ws ≡ none → find_id id ws ≡ none
unfolding index_of find_id
index_of-none id [] e = refl
index_of-none id (w ∷ ws) e = elim (Option-cases (index_of id ws)) [
  | inl absent ↦ ground (arith, index_of-none id ws)
  | inr (j, there) ↦ absurd (ground arith)
]

pub index_of-found :
    (id : ℕ) (ws : List Worker) (i : ℕ) → index_of id ws ≡ some i → find_id id ws ≢ none
unfolding index_of find_id
index_of-found id [] i e = cc
index_of-found id (w ∷ ws) i e = elim (index_of-cases id w ws i e) [
  | inl (first, hit) ↦ λ p. ground arith
  | inr (j, later, miss, there) ↦ λ p. index_of-found id ws j there (ground arith)
]

module _ {S : Type 0} (nvs : Nvs S) (json : Json) (t : Table) (s : S) (id : ℕ) where
  worker_delete-cases :
      ((id ≡ 0) × (worker_delete nvs json id t s ≡ (Err.invalid_arg, t, s)))
      ⊎ ((id ≢ 0)
          × (index_of id t.workers ≡ none)
          × (worker_delete nvs json id t s ≡ (Err.not_found, t, s)))
      ⊎ ((i : ℕ) × (id ≢ 0)
          × (index_of id t.workers ≡ some i)
          × ((worker_delete nvs json id t s).1 ≡ record t { workers = remove_swap t.workers i }))
  unfolding worker_delete
  worker_delete-cases = elim (Bool-cases (id == 0)) [
    | inl z ↦ inl (ground arith, rw z refl)
    | inr some_id ↦ elim (Option-cases (index_of id t.workers)) [
      | inl absent ↦ inr (inl (ground arith, absent, rw (some_id, absent) refl))
      | inr (i, there) ↦ elim (Bool-cases (is_ok (nvs.opens readwrite ns s))) [
        | inl opened ↦ inr (inr (i, ground arith, there, rw (some_id, there, opened) refl))
        | inr refused ↦ inr (inr (i, ground arith, there, rw (some_id, there, refused) refl))
      ]
    ]
  ]

-- Deleting an id, whatever the NVS answers: an id of 0 is an invalid argument; an id that no worker
-- has is not found, and nothing changes; after the call no worker has the id, the worker of every
-- other id is the one it was, and the table is valid with its next id unchanged.
pub worker_delete_lem :
    {S : Type 0} (nvs : Nvs S) (json : Json) (t : Table) (s : S) (id other : ℕ)
    → IsValid t
    → let (e, t', s') = worker_delete nvs json id t s in
      (id ≡ 0 → e ≡ Err.invalid_arg)
      × (id ≢ 0 → find_id id t.workers ≡ none → (e ≡ Err.not_found) × (t' ≡ t) × (s' ≡ s))
      × (id ≢ 0 → find_id id t'.workers ≡ none)
      × (id ≢ other → find_id other t'.workers ≡ find_id other t.workers)
      × IsValid t'
      × (t'.next_id ≡ t.next_id)
worker_delete_lem nvs json t s id other v = elim (worker_delete-cases nvs json t s id) [
  | inl (z, r) ↦ rw r (λ _. refl, λ ne. absurd (ne z), λ ne. absurd (ne z), λ _. refl, v, refl)
  | inr (inl (ne, absent, r)) ↦ rw r (
    λ z. absurd (ne z),
    λ _ _. (refl, refl, refl),
    λ _. index_of-none id t.workers absent,
    λ _. refl,
    v,
    refl,
  )
  | inr (inr (i, ne, there, r)) ↦
      let (gone, others) = remove_swap-find_id t.workers id other i v.distinct there in
      rw r (
        λ z. absurd (ne z),
        λ _ absent. absurd (index_of-found id t.workers i there absent),
        λ _. gone,
        others,
        record {
          size = (let shorter = length-remove_swap t.workers i in omega arith);
          range = All-remove_swap (InRange t.next_id) t.workers i v.range;
          next = v.next;
          distinct = Distinct-remove_swap t.workers i v.distinct;
        },
        refl,
      )
]
