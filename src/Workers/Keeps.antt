-- ===== src/Workers/Keeps.antt =====
-- What the changes to the list of components/workers/dd_worker.c keep: every property of its
-- workers, and that their ids are distinct.
use dingdong.Common.{
  ℕ, zero, suc, ◌≡◌, refl, sym, ap, Option, none, some, List, [], ◌∷◌, ◌++◌, length, take, set,
  get_or, ◌==◌, if◌then◌else◌, ◌≢◌, All, arith, Bool-cases, inl, inr,
}
use mathlib.Core.Path.{subst}
use dingdong.Workers.{Worker, no_worker, index_of, find_id, remove_swap}
use dingdong.Workers.Valid.{
  Distinct, All-last, remove_swap-first, remove_swap-later, index_of-cases,
}

module _ (P : Worker → Type 0) where
  pub All-take : (n : ℕ) (ws : List Worker) → All P ws → All P (take n ws)
  All-take zero ws a = tt
  All-take (suc n) [] a = tt
  All-take (suc n) (w ∷ ws) a = (a.0, All-take n ws a.1)

  pub All-snoc : (ws : List Worker) (w : Worker) → All P ws → P w → All P (ws ++ (w ∷ []))
  All-snoc [] w a p = (p, tt)
  All-snoc (v ∷ ws) w a p = (a.0, All-snoc ws w a.1 p)

  pub All-set : (ws : List Worker) (i : ℕ) (w : Worker) → All P ws → P w → All P (set ws i w)
  All-set [] i w a p = tt
  All-set (v ∷ ws) zero w a p = (p, a.1)
  All-set (v ∷ ws) (suc i) w a p = (a.0, All-set ws i w a.1 p)

  pub All-remove_swap : (ws : List Worker) (i : ℕ) → All P ws → All P (remove_swap ws i)
  unfolding remove_swap
  All-remove_swap [] i a = ground arith
  All-remove_swap (w ∷ []) i a = tt
  All-remove_swap (w ∷ v ∷ ws) zero a =
      rw (remove_swap-first w v ws) (All-last P v ws a.1, All-take (length ws) (v ∷ ws) a.1)
  All-remove_swap (w ∷ v ∷ ws) (suc i) a =
      rw (remove_swap-later w v ws i) (a.0, All-remove_swap (v ∷ ws) i a.1)

  pub All-imp :
      (Q : Worker → Type 0) → ((w : Worker) → P w → Q w) → (ws : List Worker) → All P ws → All Q ws
  All-imp Q f [] a = tt
  All-imp Q f (w ∷ ws) a = (f w a.0, All-imp Q f ws a.1)

pub Distinct-snoc :
    (ws : List Worker) (w : Worker)
    → Distinct ws
    → All (λ v. v.id ≢ w.id) ws
    → Distinct (ws ++ (w ∷ []))
Distinct-snoc [] w d a = (tt, tt)
Distinct-snoc (v ∷ ws) w d a =
    (All-snoc (λ x. x.id ≢ v.id) ws w d.0 (λ e. a.0 (sym e)), Distinct-snoc ws w d.1 a.1)

Distinct-rotate :
    (w : Worker) (ws : List Worker)
    → Distinct (w ∷ ws)
    → Distinct (get_or (w ∷ ws) (length ws) no_worker ∷ take (length ws) (w ∷ ws))
Distinct-rotate w [] d = (tt, tt)
Distinct-rotate w (v ∷ ws) d =
    let inner = Distinct-rotate v ws d.1 in
    let apart = All-last (λ x. x.id ≢ w.id) v ws d.0 in
    ((λ e. apart (sym e), inner.0), (All-take (λ x. x.id ≢ w.id) (length ws) (v ∷ ws) d.0, inner.1))

pub Distinct-remove_swap : (ws : List Worker) (i : ℕ) → Distinct ws → Distinct (remove_swap ws i)
unfolding remove_swap
Distinct-remove_swap [] i d = ground arith
Distinct-remove_swap (w ∷ []) i d = tt
Distinct-remove_swap (w ∷ v ∷ ws) zero d = rw (remove_swap-first w v ws) (Distinct-rotate v ws d.1)
Distinct-remove_swap (w ∷ v ∷ ws) (suc i) d =
    rw (remove_swap-later w v ws i)
      (All-remove_swap (λ x. x.id ≢ w.id) (v ∷ ws) i d.0, Distinct-remove_swap (v ∷ ws) i d.1)

-- A worker written over the one with its id.
pub Distinct-set :
    (ws : List Worker) (i : ℕ) (w : Worker)
    → Distinct ws
    → index_of w.id ws ≡ some i
    → Distinct (set ws i w)
unfolding index_of
Distinct-set [] i w d e = tt
Distinct-set (v ∷ ws) i w d e = elim (index_of-cases w.id v ws i e) [
  | inl (first, hit) ↦ rw first (subst (λ (n : ℕ). All (λ x. x.id ≢ n) ws) hit d.0, d.1)
  | inr (j, later, miss, there) ↦
      rw later
        (All-set (λ x. x.id ≢ v.id) ws j w d.0 (λ p. miss (sym p)), Distinct-set ws j w d.1 there)
]

pub find_id-set :
    (ws : List Worker) (i : ℕ) (w : Worker) (other : ℕ)
    → index_of w.id ws ≡ some i
    → (find_id w.id (set ws i w) ≡ some w)
      × (w.id ≢ other → find_id other (set ws i w) ≡ find_id other ws)
      × (length (set ws i w) ≡ length ws)
      × (find_id w.id ws ≡ some (get_or ws i no_worker))
unfolding find_id index_of
find_id-set [] i w other e = absurd cc
find_id-set (v ∷ ws) i w other e = elim (index_of-cases w.id v ws i e) [
  | inl (first, hit) ↦ rw first (ground arith, λ ne. ground arith, refl, ground arith)
  | inr (j, later, miss, there) ↦
      let inner = find_id-set ws j w other there in
      rw later (
        ground (arith, inner.0),
        λ ne. ap (λ (r : Option Worker). if v.id == other then some v else r) (inner.1 ne),
        ap suc inner.2,
        ground (arith, inner.3),
      )
]

pub find_id-snoc :
    (ws : List Worker) (w : Worker) (other : ℕ)
    → index_of w.id ws ≡ none
    → (find_id w.id (ws ++ (w ∷ [])) ≡ some w)
      × (w.id ≢ other → find_id other (ws ++ (w ∷ [])) ≡ find_id other ws)
      × All (λ v. v.id ≢ w.id) ws
      × (find_id w.id ws ≡ none)
unfolding find_id index_of
find_id-snoc [] w other e = (ground arith, λ ne. ground arith, tt, refl)
find_id-snoc (v ∷ ws) w other e = elim (Bool-cases (v.id == w.id)) [
  | inl hit ↦ absurd (ground arith)
  | inr miss ↦
      (let inner = find_id-snoc ws w other (ground arith) in
        (
          ground (arith, inner.0),
          λ ne. ap (λ (r : Option Worker). if v.id == other then some v else r) (inner.1 ne),
          (ground arith, inner.2),
          ground (arith, inner.3),
        ))
]
