-- ===== src/Workers/Valid.antt =====
-- The table of components/workers/dd_worker.c: ids are distinct, at least 1 and below next_id, which is at least 1, and each operation keeps that.
use dingdong.Common.{
  ℕ, suc, ◌-◌, ◌≤◌, ◌<◌, ◌≡◌, refl, ap, false, Option, none, some, List, [], ◌∷◌, length, take,
  get_or, ◌==◌, if◌then◌else◌, ◌≢◌, All, arith, Bool-cases, Option-cases, inl, inr, ◌⊎◌,
}
use mathlib.Core.Path.{subst}
use dingdong.Workers.{Worker, Table, worker_max, no_worker, index_of, find_id, remove_swap}

abbrev pub Distinct : List Worker → Type 0
Distinct [] = Unit
Distinct (w ∷ ws) = All (λ v. v.id ≢ w.id) ws × Distinct ws

abbrev pub InRange : ℕ → Worker → Type 0
InRange next w = (0 < w.id) × (w.id < next)

pub record IsValid (t : Table) : Type 0 where
  pub size : length t.workers ≤ worker_max
  pub range : All (InRange t.next_id) t.workers
  pub distinct : Distinct t.workers
  pub next : 0 < t.next_id

-- An id that the table does not have.
pub find_id-absent : (id : ℕ) (ws : List Worker) → All (λ v. v.id ≢ id) ws → find_id id ws ≡ none
unfolding find_id
find_id-absent id [] a = refl
find_id-absent id (w ∷ ws) a = ground (arith, find_id-absent id ws a.1)

pub All-last :
    (P : Worker → Type 0) (w : Worker) (ws : List Worker)
    → All P (w ∷ ws)
    → P (get_or (w ∷ ws) (length ws) no_worker)
All-last P w [] a = a.0
All-last P w (v ∷ ws) a = All-last P v ws a.1

-- Moving the last worker to the front changes no search.
rotate-find_id :
    (w : Worker) (ws : List Worker) (id : ℕ)
    → Distinct (w ∷ ws)
    → find_id id (get_or (w ∷ ws) (length ws) no_worker ∷ take (length ws) (w ∷ ws))
      ≡ find_id id (w ∷ ws)
unfolding find_id
rotate-find_id w [] id d = ground arith
rotate-find_id w (v ∷ ws) id d =
    let other = All-last (λ x. x.id ≢ w.id) v ws d.0 in
    let later = rotate-find_id v ws id d.1 in
    elim (Bool-cases (w.id == id)) [
      | inl hit ↦
          (let miss : ((get_or (v ∷ ws) (length ws) no_worker).id == id) ≡ false = ground arith in
            rw (hit, miss) refl)
      | inr miss ↦ rw miss later
    ]

pub remove_swap-first :
    (w v : Worker) (ws : List Worker)
    → remove_swap (w ∷ v ∷ ws) 0 ≡ get_or (v ∷ ws) (length ws) no_worker ∷ take (length ws) (v ∷ ws)
unfolding remove_swap
remove_swap-first w v ws =
    let last : suc (suc (length ws)) - 1 ≡ suc (length ws) = omega arith in
    let inner : (0 == suc (length ws)) ≡ false = ground arith in rw (remove_swap, last, inner) refl

pub remove_swap-later :
    (w v : Worker) (ws : List Worker) (i : ℕ)
    → remove_swap (w ∷ v ∷ ws) (suc i) ≡ w ∷ remove_swap (v ∷ ws) i
unfolding remove_swap
remove_swap-later w v ws i =
    let last : suc (suc (length ws)) - 1 ≡ suc (length ws) = omega arith in
    let before : suc (length ws) - 1 ≡ length ws = omega arith in
    let same : (suc i == suc (length ws)) ≡ (i == length ws) = ground arith in
    rw (remove_swap, last, before, same)
      (elim (Bool-cases (i == length ws)) [
        | inl at_end ↦ rw at_end refl
        | inr inner ↦ rw inner refl
      ])

-- Where the search for an id stops.
pub index_of-cases :
    (id : ℕ) (w : Worker) (ws : List Worker) (i : ℕ)
    → index_of id (w ∷ ws) ≡ some i
    → ((i ≡ 0) × (w.id ≡ id)) ⊎ ((j : ℕ) × (i ≡ suc j) × (w.id ≢ id) × (index_of id ws ≡ some j))
unfolding index_of
index_of-cases id w ws i e = elim (Option-cases (index_of id ws)) [
  | inl none_there ↦ inl (ground arith)
  | inr (j, there) ↦ elim (Bool-cases (w.id == id)) [
    | inl hit ↦ inl (ground arith)
    | inr miss ↦ inr (j, ground arith, ground arith, there)
  ]
]

-- What removing the worker at an index promises.
abbrev Removes : ℕ → ℕ → List Worker → ℕ → Type 0
Removes id other ws i =
    (find_id id (remove_swap ws i) ≡ none)
    × (id ≢ other → find_id other (remove_swap ws i) ≡ find_id other ws)

Removes-first :
    (w : Worker) (ws : List Worker) (other : ℕ) → Distinct (w ∷ ws) → Removes w.id other (w ∷ ws) 0
unfolding find_id remove_swap
Removes-first w [] other d = (refl, λ ne. ground arith)
Removes-first w (v ∷ ws) other d =
    let absent = find_id-absent w.id (v ∷ ws) d.0 in
    rw (remove_swap-first w v ws, rotate-find_id v ws w.id d.1, rotate-find_id v ws other d.1)
      (absent, λ ne. ground arith)

Removes-later :
    (w v : Worker) (ws : List Worker) (id other i : ℕ)
    → w.id ≢ id
    → Removes id other (v ∷ ws) i
    → Removes id other (w ∷ v ∷ ws) (suc i)
unfolding find_id
Removes-later w v ws id other i miss inner = rw (remove_swap-later w v ws i) (
  ground (arith, inner.0),
  λ ne. ap (λ (r : Option Worker). if w.id == other then some w else r) (inner.1 ne),
)

-- Removing the worker with an id leaves the search for every other id as it was, and finds that id no more.
pub remove_swap-find_id :
    (ws : List Worker) (id other i : ℕ)
    → Distinct ws
    → index_of id ws ≡ some i
    → Removes id other ws i
unfolding index_of
remove_swap-find_id [] id other i d e = cc
remove_swap-find_id (w ∷ []) id other i d e = elim (index_of-cases id w [] i e) [
  | inl (first, hit) ↦
      rw (first) (subst (λ (n : ℕ). Removes n other (w ∷ []) 0) hit (Removes-first w [] other d))
  | inr (j, later, miss, there) ↦ absurd cc
]
remove_swap-find_id (w ∷ v ∷ ws) id other i d e = elim (index_of-cases id w (v ∷ ws) i e) [
  | inl (first, hit) ↦
      rw (first)
        (subst (λ (n : ℕ). Removes n other (w ∷ v ∷ ws) 0) hit (Removes-first w (v ∷ ws) other d))
  | inr (j, later, miss, there) ↦
      rw (later)
        (Removes-later w v ws id other j miss (remove_swap-find_id (v ∷ ws) id other j d.1 there))
]
