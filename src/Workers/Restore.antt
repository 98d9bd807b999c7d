-- ===== src/Workers/Restore.antt =====
-- dd_worker_update, dd_worker_restore and dd_worker_wipe of components/workers/dd_worker.c.
use dingdong.Common.{
  ℕ, ◌+◌, ◌%◌, ◌≤◌, ◌<◌, ◌≡◌, refl, false, some, List, [], ◌∷◌, ◌++◌, length, set, leb, ◌==◌, Err,
  is_ok, ◌≢◌, All, arith, length-set, length-append, Bool-cases, Option-cases, inl, inr, ◌⊎◌,
}
use dingdong.Nvs.{Nvs, readwrite}
use dingdong.Workers.{Worker, Table, Json, ns, uint16, worker_max, find_id, index_of, save_one}
use dingdong.Workers.Change.{worker_restore, store_restored}
use dingdong.Workers.Valid.{IsValid, InRange, Distinct}
use dingdong.Workers.Keeps.{
  All-snoc, All-set, All-imp, Distinct-snoc, Distinct-set, find_id-set, find_id-snoc,
}

module _ {S : Type 0} (nvs : Nvs S) (json : Json) (w : Worker) (t : Table) (s : S) where
  store_restored-ok :
      let (e, t', s') = store_restored nvs json w t s in
      e ≡ Err.ok
      → ((t' ≡ t) × (w.id < t.next_id))
        ⊎ ((t.next_id ≤ w.id) × (t' ≡ record t { next_id = (w.id + 1) % uint16 }))
  unfolding store_restored
  store_restored-ok = elim (Bool-cases (is_ok (nvs.opens readwrite ns s))) [
    | inr refused ↦ rw refused (λ e. absurd (ground (arith, e, refused)))
    | inl opened ↦ rw opened (elim (Bool-cases (is_ok (save_one nvs json w s).0)) [
      | inr failed ↦ rw failed (λ e. absurd (ground (arith, e, failed)))
      | inl saved ↦ rw saved (elim (Bool-cases (leb t.next_id w.id)) [
        | inr kept ↦ rw kept (λ e. inl (refl, ground arith))
        | inl moved ↦ rw moved (λ e. inr (ground arith, refl))
      ])
    ])
  ]

-- The table `t` with `w` put in it, as far as validity goes.
record Placed (t : Table) (w : Worker) (ws : List Worker) : Type 0 where
  pub size : length ws ≤ worker_max
  pub distinct : Distinct ws
  pub others :
      (n : ℕ)
      → All (InRange t.next_id) t.workers
      → t.next_id ≤ n
      → w.id < n
      → 0 < w.id
      → All (InRange n) ws

restored-IsValid :
    {S : Type 0} (nvs : Nvs S) (json : Json) (w : Worker) (t : Table) (s : S) (ws : List Worker)
    → IsValid t
    → 0 < w.id
    → w.id + 1 < uint16
    → Placed t w ws
    → let (e, t', s') = store_restored nvs json w (record t { workers = ws }) s in
      e ≡ Err.ok → (t'.workers ≡ ws) × IsValid t'
restored-IsValid nvs json w t s ws v pos low p ok =
    elim (store_restored-ok nvs json w (record t { workers = ws }) s ok) [
      | inl (same, below) ↦ rw same (
        refl,
        record {
          size = p.size;
          range = p.others t.next_id v.range (omega arith) below pos;
          distinct = p.distinct;
          next = v.next;
        },
      )
      | inr (above, moved) ↦ rw moved (
        refl,
        record {
          size = p.size;
          range = p.others ((w.id + 1) % uint16) v.range (omega arith) (omega arith) pos;
          distinct = p.distinct;
          next = omega arith;
        },
      )
    ]

Placed-set :
    (t : Table) (w : Worker) (i : ℕ)
    → IsValid t
    → index_of w.id t.workers ≡ some i
    → Placed t w (set t.workers i w)
Placed-set t w i v there = record {
  size = (let same = length-set t.workers i w in omega arith);
  distinct = Distinct-set t.workers i w v.distinct there;
  others = λ n r le lt pos.
      All-set (InRange n) t.workers i w
        (All-imp (InRange t.next_id) (InRange n) (λ x p. (p.0, omega (arith, p.1))) t.workers r)
        (pos, lt);
}

Placed-snoc :
    (t : Table) (w : Worker)
    → IsValid t
    → length t.workers < worker_max
    → All (λ v. v.id ≢ w.id) t.workers
    → Placed t w (t.workers ++ (w ∷ []))
Placed-snoc t w v room apart = record {
  size = omega (arith, length-append t.workers (w ∷ []));
  distinct = Distinct-snoc t.workers w v.distinct apart;
  others = λ n r le lt pos.
      All-snoc (InRange n) t.workers w
        (All-imp (InRange t.next_id) (InRange n) (λ x p. (p.0, omega (arith, p.1))) t.workers r)
        (pos, lt);
}

-- A restore that reports success, of a worker with an id from 1 to 65534 into a valid table: the
-- worker is found under its id, the worker of every other id is the one it was, and the table is valid.
pub worker_restore_lem :
    {S : Type 0} (nvs : Nvs S) (json : Json) (t : Table) (s : S) (w : Worker) (other : ℕ)
    → IsValid t
    → 0 < w.id
    → w.id + 1 < uint16
    → let (e, t', s') = worker_restore nvs json (some w) t s in
      e ≡ Err.ok
      → (find_id w.id t'.workers ≡ some w)
        × (w.id ≢ other → find_id other t'.workers ≡ find_id other t.workers)
        × IsValid t'
unfolding worker_restore
worker_restore_lem nvs json t s w other v pos low =
    let some_id : (w.id == 0) ≡ false = ground arith in
    rw some_id (elim (Option-cases (index_of w.id t.workers)) [
      | inr (i, there) ↦ rw there (λ ok.
          let (e, valid) =
            restored-IsValid nvs json w t s (set t.workers i w) v pos low (Placed-set t w i v there)
              ok in
          let found = find_id-set t.workers i w other there in rw e (found.0, found.1, valid))
      | inl absent ↦ rw absent (elim (Bool-cases (leb worker_max (length t.workers))) [
        | inl full ↦ rw full (λ ok. absurd (ground (arith, ok)))
        | inr room ↦ rw room (λ ok.
            let found = find_id-snoc t.workers w other absent in
            let (e, valid) =
              restored-IsValid nvs json w t s (t.workers ++ (w ∷ [])) v pos low
                (Placed-snoc t w v (ground arith) found.2) ok in
            rw e (found.0, found.1, valid))
      ])
    ])
