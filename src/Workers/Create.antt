-- ===== src/Workers/Create.antt =====
-- Creating a worker in components/workers/dd_worker.c, and finding it again.
use dingdong.Common.{
  ℕ, ◌+◌, ◌%◌, ◌<◌, ◌≡◌, refl, ap, some, List, [], ◌∷◌, ◌++◌, length, leb, ◌==◌, if◌then◌else◌,
  is_ok, ◌≢◌, All, arith, length-append, Bool-cases, inl, inr, ◌⊎◌, bytes_eq, bytes_eq_refl,
  bytes_eq-cases,
}
use dingdong.Nvs.{Nvs, readwrite}
use dingdong.Workers.{
  Worker, Table, Json, ns, uint16, worker_max, find_addr, find_by_addr, save_one,
}
use dingdong.Workers.Change.{lookup_or_create, unnamed}
use dingdong.Workers.Valid.{IsValid, InRange}
use dingdong.Workers.Keeps.{All-snoc, All-imp, Distinct-snoc}

find_addr-snoc :
    (ws : List Worker) (w : Worker) (addr : List ℕ)
    → (find_addr ws w.addr ≡ 0 → All (λ v. 0 < v.id) ws → find_addr (ws ++ (w ∷ [])) w.addr ≡ w.id)
      × (w.addr ≢ addr → find_addr (ws ++ (w ∷ [])) addr ≡ find_addr ws addr)
unfolding find_addr
find_addr-snoc [] w addr = (
  λ _ _. rw (bytes_eq_refl w.addr) refl,
  λ ne. elim (bytes_eq-cases w.addr addr) [
    | inl (same, e) ↦ absurd (ne e)
    | inr (differ, _) ↦ rw differ refl
  ],
)
find_addr-snoc (v ∷ ws) w addr =
    let inner = find_addr-snoc ws w addr in
    (
      λ absent pos. elim (Bool-cases (bytes_eq v.addr w.addr)) [
        | inl hit ↦ absurd (ground (arith, absent, pos.0))
        | inr miss ↦ ground (arith, inner.0)
      ],
      λ ne. ap (λ (r : ℕ). if bytes_eq v.addr addr then v.id else r) (inner.1 ne),
    )

module _ {S : Type 0} (nvs : Nvs S) (json : Json) (t : Table) (s : S) (addr : List ℕ)
    (now : ℕ) where
  -- The three kinds of outcome of a call with an address.
  abbrev run : ℕ × Table × S
  run = lookup_or_create nvs json (some addr) now t s

  lookup_or_create-cases :
      ((find_by_addr t (some addr) ≢ 0) × (run ≡ (find_by_addr t (some addr), t, s)))
      ⊎ ((find_by_addr t (some addr) ≡ 0) × (run.0 ≡ 0) × (run.1 ≡ t))
      ⊎ ((find_by_addr t (some addr) ≡ 0)
          × (length t.workers < worker_max)
          × (run.0 ≡ t.next_id)
          × (run.1 ≡ record {
            workers = t.workers ++ (unnamed t.next_id addr now ∷ []);
            next_id = (t.next_id + 1) % uint16;
          }))
  unfolding lookup_or_create
  lookup_or_create-cases = elim (Bool-cases (find_by_addr t (some addr) == 0)) [
    | inr known ↦ inl (ground arith, rw known refl)
    | inl new ↦ elim (Bool-cases (leb worker_max (length t.workers))) [
      | inl full ↦ inr (inl (ground arith, rw (new, full) refl, rw (new, full) refl))
      | inr room ↦ elim (Bool-cases (is_ok (nvs.opens readwrite ns s))) [
        | inr refused ↦
            inr (inl (ground arith, rw (new, room, refused) refl, rw (new, room, refused) refl))
        | inl opened ↦
            elim (Bool-cases (is_ok (save_one nvs json (unnamed t.next_id addr now) s).0)) [
              | inr failed ↦ inr (
                  inl (
                    ground arith,
                    rw (new, room, opened, failed) refl,
                    rw (new, room, opened, failed) refl,
                  ))
              | inl saved ↦ inr (
                  inr (
                    ground arith,
                    ground arith,
                    rw (new, room, opened, saved) refl,
                    rw (new, room, opened, saved) refl,
                  ))
            ]
      ]
    ]
  ]

-- Looking up or creating in a valid table whose next id is below 65535, whatever the NVS answers: an
-- id that is not 0 is the one under which the address is found afterwards, and where the address was
-- known the table is unchanged; on an id of 0 the table is unchanged too. Every other address is
-- found as before, and the table is valid.
pub lookup_or_create_lem :
    {S : Type 0} (nvs : Nvs S) (json : Json) (t : Table) (s : S) (addr other : List ℕ) (now : ℕ)
    → IsValid t
    → t.next_id + 1 < uint16
    → let (id, t', s') = lookup_or_create nvs json (some addr) now t s in
      (id ≢ 0 → find_by_addr t' (some addr) ≡ id)
      × (find_by_addr t (some addr) ≢ 0 → (id ≡ find_by_addr t (some addr)) × (t' ≡ t))
      × (id ≡ 0 → t' ≡ t)
      × (addr ≢ other → find_by_addr t' (some other) ≡ find_by_addr t (some other))
      × IsValid t'
unfolding find_by_addr
lookup_or_create_lem nvs json t s addr other now v low =
    elim (lookup_or_create-cases nvs json t s addr now) [
      | inl (known, r) ↦ rw r (λ _. refl, λ _. (refl, refl), λ _. refl, λ _. refl, v)
      | inr (inl (new, id, r)) ↦
          rw (id, r) (λ ne. absurd (ne refl), λ k. absurd (k new), λ _. refl, λ _. refl, v)
      | inr (inr (new, room, id, r)) ↦
          let w = unnamed t.next_id addr now in
          let inner = find_addr-snoc t.workers w other in
          rw (id, r)
            (
              λ ne.
                  inner.0 new
                    (All-imp (InRange t.next_id) (λ x. 0 < x.id) (λ x p. p.0) t.workers v.range),
              λ k. absurd (k new),
              λ z. absurd (omega arith),
              inner.1,
              record {
                size = omega (arith, length-append t.workers (w ∷ []));
                range =
                    All-snoc (InRange ((t.next_id + 1) % uint16)) t.workers w
                      (All-imp (InRange t.next_id) (InRange ((t.next_id + 1) % uint16))
                        (λ x p. (p.0, omega (arith, p.1))) t.workers v.range)
                      (v.next, omega arith);
                next = omega arith;
                distinct = Distinct-snoc t.workers w v.distinct (
                    All-imp (InRange t.next_id) (λ x. x.id ≢ t.next_id)
                      (λ x p e. omega (arith, p.1)) t.workers v.range);
              },
            )
    ]
