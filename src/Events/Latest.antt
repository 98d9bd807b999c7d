-- ===== src/Events/Latest.antt =====
-- What dd_event_latest_for_peers of components/events/dd_event.c reports for each of its peers.
use dingdong.Common.{
  ℕ, ◌≤◌, ◌<◌, ◌≡◌, refl, sym, ap, ◌∙◌, Bool, true, false, Option, List, [], ◌∷◌, length, take,
  take-all, ◌==◌, All, arith, inl, inr, ◌⊎◌, Err,
}
use mathlib.Core.Path.{subst}
use dingdong.Util.{format_mac}
use dingdong.Storage.{Store}
use dingdong.Storage.Files.{Holds}
use dingdong.Storage.Iterate.{event_iter-visit}
use dingdong.Events.{EventType}
use dingdong.Events.Tracks.{
  Track, Line, Bulk, bulk_iter_cb, new_track, tracks_of, answers, latest_for_peers,
}
use dingdong.Events.Newest.{
  own, own_track-Newest, Newest, HoldsLine, Stamped, NotAfter, type_of, Some,
}
use dingdong.Events.Each.{Apart, at_end, visit-at_end}

-- One line is not after another.
abbrev pub NotLater : Line → Line → Type 0
NotLater m n = (n.ts < m.ts) ⊎ ((n.ts ≡ m.ts) × (n.mono ≤ m.mono))

-- What is reported of a peer: that it has no event where no line of the log is its, and otherwise the type of one
-- of its lines that no other of them is after.
abbrev pub Reported : List Line → Bool × EventType → Type 0
Reported [] (found, type) = found ≡ false
Reported (l ∷ ls) (found, type) =
    (found ≡ true) × Some (λ m. (type_of m ≡ type) × All (NotLater m) (l ∷ ls)) (l ∷ ls)

All-NotLater :
    (u : Track) (m : Line) (ls : List Line)
    → HoldsLine u m
    → All (NotAfter u) ls
    → All (NotLater m) ls
All-NotLater u m [] held a = tt
All-NotLater u m (n ∷ ls) held a =
    let after = a.0 in (ground (arith, held.1, held.2, after), All-NotLater u m ls held a.1)

Some-NotLater :
    (u : Track) (all ls : List Line)
    → All (NotAfter u) all
    → Some (HoldsLine u) ls
    → Some (λ m. (type_of m ≡ u.type) × All (NotLater m) all) ls
Some-NotLater u all [] a h = absurd h
Some-NotLater u all (m ∷ ls) a (inl held) = inl (held.3, All-NotLater u m all held a)
Some-NotLater u all (m ∷ ls) a (inr later) = inr (Some-NotLater u all ls a later)

Newest-Reported : (ls : List Line) (u : Track) → Newest ls u → Reported ls (u.found, u.type)
Newest-Reported [] u h = h
Newest-Reported (l ∷ ls) u h = (h.0, Some-NotLater u (l ∷ ls) (l ∷ ls) h.1 h.2)

module _ (parse : List ℕ → Option Line) where
  -- The answers for addresses, in their order.
  abbrev pub AllReported : List (List ℕ) → List (List ℕ) → List (Bool × EventType) → Type 0
  AllReported lines [] [] = Unit {0}
  AllReported lines (addr ∷ addrs) (r ∷ rs) =
      Reported (own parse (format_mac addr) lines) r × AllReported lines addrs rs
  AllReported lines _ _ = ⊥

  AllReported-at_end :
      (lines addrs : List (List ℕ))
      → All (λ addr. All Stamped (own parse (format_mac addr) lines)) addrs
      → AllReported lines addrs (answers parse (at_end parse 0 lines (tracks_of parse addrs)))
  AllReported-at_end lines [] stamped = tt
  AllReported-at_end lines (addr ∷ addrs) stamped = (
    Newest-Reported (own parse (format_mac addr) lines) _
        (own_track-Newest parse (format_mac addr) 0 lines (new_track parse addr) refl stamped.0),
    AllReported-at_end lines addrs stamped.1,
  )

  -- Asked for one to eight peers whose addresses differ, over a log that opens and whose lines of these peers all
  -- have a time of the wall clock: it reports success, and for each peer, in their order, that it has no event where no
  -- line is its, and otherwise the type of one of its lines that no other of them is after, by the time of the
  -- wall clock and then by the monotonic time.
  pub latest_for_peers-newest :
      (store : Store) (lines addrs : List (List ℕ))
      → Holds store lines
      → 0 < length addrs
      → length addrs ≤ 8
      → Apart (tracks_of parse addrs)
      → All (λ addr. All Stamped (own parse (format_mac addr) lines)) addrs
      → let (e, reports) = latest_for_peers parse true addrs store in
        (e ≡ Err.ok) × AllReported lines addrs reports
  unfolding latest_for_peers
  latest_for_peers-newest store lines addrs holds some_peers few apart stamped =
      let asked : (length addrs == 0) ≡ false = ground arith in
      let all : take 8 addrs ≡ addrs = take-all 8 addrs few in
      let start : Bulk = record { tracks = tracks_of parse addrs; cur_idx = 0 } in
      let walk = event_iter-visit (bulk_iter_cb parse) store lines start holds in
      let ends =
        ap (λ (r : Err × Bulk). answers parse r.1.tracks) walk
        ∙ ap (answers parse) (visit-at_end parse lines start apart) in
      rw (asked, all)
        (refl, subst (AllReported lines addrs) (sym ends) (AllReported-at_end lines addrs stamped))
