-- ===== src/Storage/Cutoff.antt =====
-- The rotation by time of components/storage/dd_storage.c.
use dingdong.Common.{
  Option-cases, ℕ, ◌+◌, ◌≡◌, ◌≢◌, refl, sym, ap, ◌∙◌, Bool, true, false, ◌&&◌, ◌||◌, ◌==◌, ◌<◌, ◌≤◌,
  length-append, Option, none, some, List, [], ◌∷◌, append_assoc, map, All, arith, length, drop,
  leb, if◌then◌else◌, Bool-cases, inl, inr, Err, drop-append_ge,
}
use dingdong.Stdio.{newline, fgets_all}
use dingdong.Stdio.Lines.{ended, join}
use dingdong.Storage.{Store, Io, opened, contents, replace_events, scan_event_count}
use dingdong.Storage.Files.{IsEvent, Holds, scan_event_count-join, replace_events_lem}
use native.Mathlib.Decide.{ℕ_discrete}
use dingdong.Stdio.Lines.{fgets_all-join}
use dingdong.Storage.ByTime.{
  parse_ts_from_line, keep_offset_from, keep_from, rotate_by_time, scan_limit,
}
use dingdong.Storage.Rewrites.{Fits, Rewrites, same-Holds, no_lines}

-- The lines from the first on whose time is not before the cutoff.
abbrev pub from_cutoff : ℕ → List (List ℕ) → List (List ℕ)
from_cutoff cutoff [] = []
from_cutoff cutoff (line ∷ lines) =
    if leb cutoff (parse_ts_from_line (ended line)) then line ∷ lines else from_cutoff cutoff lines

All-from_cutoff :
    (cutoff : ℕ) (lines : List (List ℕ))
    → All IsEvent lines
    → All IsEvent (from_cutoff cutoff lines)
All-from_cutoff cutoff [] a = tt
All-from_cutoff cutoff (line ∷ lines) a =
    elim (Bool-cases (leb cutoff (parse_ts_from_line (ended line)))) [
      | inl new ↦ rw new a
      | inr old ↦ rw old (All-from_cutoff cutoff lines a.1)
    ]

length-from_cutoff :
    (cutoff : ℕ) (lines : List (List ℕ)) → length (from_cutoff cutoff lines) ≤ length lines
length-from_cutoff cutoff [] = omega arith
length-from_cutoff cutoff (line ∷ lines) = ground (arith, length-from_cutoff cutoff lines)

-- What the scan for the first new line finds.
data Found (lines kept : List (List ℕ)) (offset : ℕ) (o : Option ℕ) : Type 0 where
  nothing : o ≡ none → kept ≡ [] → Found lines kept offset o
  from :
      (k : ℕ)
      → o ≡ some (offset + k)
      → drop k (join lines) ≡ join kept
      → length kept ≢ 0
      → (k ≡ 0 → kept ≡ lines)
      → (k ≢ 0 → length kept < length lines)
      → Found lines kept offset o

keep_offset_from-Found :
    (cutoff : ℕ) (lines : List (List ℕ)) (offset : ℕ)
    → Found lines
        (from_cutoff cutoff lines)
        offset
        (keep_offset_from cutoff offset (map ended lines))
unfolding keep_offset_from
keep_offset_from-Found cutoff [] offset = nothing refl refl
keep_offset_from-Found cutoff (line ∷ lines) offset =
    elim (Bool-cases (leb cutoff (parse_ts_from_line (ended line)))) [
      | inl new ↦ rw new (
          from 0 (ap some (omega arith)) refl (λ z. omega arith) (λ z. refl)
            (λ ne. absurd (ne refl)))
      | inr old ↦
          rw old (later (keep_offset_from-Found cutoff lines (offset + length (ended line))))
    ]
  where
    shorter : length (from_cutoff cutoff lines) < length (line ∷ lines)
    shorter = omega (arith, length-from_cutoff cutoff lines)

    later :
        {o : Option ℕ}
        → Found lines (from_cutoff cutoff lines) (offset + length (ended line)) o
        → Found (line ∷ lines) (from_cutoff cutoff lines) offset o
    later (nothing e k) = nothing e k
    later (from k e d some_kept all_new some_old) =
        from (length (ended line) + k) (e ∙ ap some (omega arith))
          (ap (drop (length (ended line) + k)) (sym (append_assoc line (newline ∷ []) (join lines)))
            ∙ drop-append_ge (ended line) (join lines) (length (ended line) + k) k refl
            ∙ d)
          some_kept (λ z. absurd (omega (arith, length-append line (newline ∷ [])))) (λ nz. shorter)

-- How keep_from ends, by the rewrite `r`.
module _ (io : Io) (offset : ℕ) (file : List ℕ) (s : Store) where
  abbrev rewritten : Bool × Store
  rewritten = replace_events io (drop offset file) s

  keep_from-nothing : offset ≡ 0 → keep_from io true offset file s ≡ (Err.ok, s)
  unfolding keep_from
  keep_from-nothing e = ground arith

  keep_from-failed :
      offset ≢ 0 → rewritten.0 ≡ false → keep_from io true offset file s ≡ (Err.fail, rewritten.1)
  unfolding keep_from
  keep_from-failed ne e = ground arith

  keep_from-done :
      offset ≢ 0
      → rewritten.0 ≡ true
      → keep_from io true offset file s
        ≡ (Err.ok, record rewritten.1 { event_count = scan_event_count rewritten.1 true })
  unfolding keep_from
  keep_from-done ne e = ground arith

-- Whether a rotation succeeds: there is nothing to keep or nothing to drop, or each call of the rewrite goes well.
abbrev pub rotates : Io → List (List ℕ) → List (List ℕ) → Bool
rotates io lines kept =
    (length kept == 0)
    || (length kept == length lines)
    || (io.open_out && io.writes && io.close_out && io.renames)

keep_from-Rewrites :
    (io : Io) (s : Store) (lines kept : List (List ℕ)) (offset : ℕ)
    → Holds s lines
    → All IsEvent kept
    → length kept ≢ 0
    → (offset ≡ 0 → kept ≡ lines)
    → (offset ≢ 0 → length kept ≢ length lines)
    → drop offset (join lines) ≡ join kept
    → Rewrites (rotates io lines kept) lines kept (keep_from io true offset (join lines) s)
keep_from-Rewrites io s lines kept offset h good some_kept all_new some_old e =
    elim (ℕ_discrete offset 0) [
      | yes z ↦
          let same : kept ≡ lines = all_new z in
          let well : rotates io lines kept ≡ true = rw same (ground arith) in
          rw (keep_from-nothing io offset (join lines) s z, well) (refl, rw same h)
      | no nz ↦
          let some_dropped = some_old nz in
          let needs : rotates io lines kept ≡ r.0 =
            ground (arith, some_kept, some_dropped, lem.1) in
          elim (Bool-cases r.0) [
            | inr failed ↦
                let fails : rotates io lines kept ≡ false = needs ∙ failed in
                rw (keep_from-failed io offset (join lines) s nz failed, fails)
                  (refl, same-Holds s lines h r.1 (lem.3 failed) lem.0)
            | inl done ↦
                let well : rotates io lines kept ≡ true = needs ∙ done in
                let file = lem.2 done ∙ e in
                rw (keep_from-done io offset (join lines) s nz done, well)
                  (
                    refl,
                    record {
                      file = file;
                      count = scan_event_count-join r.1 kept file good;
                      good = good;
                    },
                  )
          ]
    ]
  where
    r : Bool × Store
    r = rewritten io offset (join lines) s

    lem :
        (r.1.event_count ≡ s.event_count)
        × (r.0 ≡ (io.open_out && io.writes && io.close_out && io.renames))
        × (r.0 ≡ true → contents r.1 ≡ drop offset (join lines))
        × (r.0 ≡ false → r.1.events ≡ s.events)
    lem = replace_events_lem io (drop offset (join lines)) s

-- How rotate_by_time goes on from fopen and the scan.
module _ (io : Io) (cutoff : ℕ) (s : Store) (open_in : io.open_in ≡ true) (pos : cutoff ≢ 0) where
  rotate_by_time-missing : s.events ≡ none → rotate_by_time io true cutoff s ≡ (Err.ok, s)
  unfolding rotate_by_time opened
  rotate_by_time-missing e = ground arith

  rotate_by_time-none :
      (file : List ℕ)
      → s.events ≡ some file
      → keep_offset_from cutoff 0 (fgets_all scan_limit file) ≡ none
      → rotate_by_time io true cutoff s ≡ (Err.ok, record s { events = none; event_count = 0 })
  unfolding rotate_by_time opened
  rotate_by_time-none file e k = ground arith

  rotate_by_time-some :
      (file : List ℕ) (offset : ℕ)
      → s.events ≡ some file
      → keep_offset_from cutoff 0 (fgets_all scan_limit file) ≡ some offset
      → rotate_by_time io true cutoff s ≡ keep_from io true offset file s
  unfolding rotate_by_time opened
  rotate_by_time-some file offset e k = ground arith

-- A rotation by a positive cutoff of a log of lines shorter than 511 bytes that opens where it is there. It succeeds
-- just where no line is dropped, or no line is kept, or the temporary file opens, each write, the closing and the
-- renaming go well. Where it succeeds it drops the lines in front of the first whose time is not before the
-- cutoff, all of them if there is none, and keeps the others with the cached count right; where it does not it reports
-- failure, and the file and the count are as they were. The recount's fopen and the removal are taken to succeed.
pub rotate_by_time-Rewrites :
    (io : Io) (s : Store) (lines : List (List ℕ)) (cutoff : ℕ)
    → Holds s lines
    → Fits scan_limit lines
    → io.open_in ≡ true
    → cutoff ≢ 0
    → let kept = from_cutoff cutoff lines in
      Rewrites (rotates io lines kept) lines kept (rotate_by_time io true cutoff s)
rotate_by_time-Rewrites io s lines cutoff h fits open_in pos = elim (Option-cases s.events) [
  | inl missing ↦
      let empty : from_cutoff cutoff lines ≡ [] = rw (no_lines s lines h missing) refl in
      let same : from_cutoff cutoff lines ≡ lines = rw (no_lines s lines h missing) refl in
      let well : rotates io lines (from_cutoff cutoff lines) ≡ true = rw empty refl in
      rw (rotate_by_time-missing io cutoff s open_in pos missing, well) (refl, rw same h)
  | inr (file, e) ↦ by_scan file e (keep_offset_from-Found cutoff lines 0)
]
  where
    whole : (file : List ℕ) → s.events ≡ some file → file ≡ join lines
    whole file e = ground (arith, h.file)

    scan : (file : List ℕ) → s.events ≡ some file → fgets_all scan_limit file ≡ map ended lines
    scan file e = ap (fgets_all scan_limit) (whole file e) ∙ fgets_all-join scan_limit lines fits

    by_scan :
        (file : List ℕ)
        → s.events ≡ some file
        → Found lines (from_cutoff cutoff lines) 0 (keep_offset_from cutoff 0 (map ended lines))
        → Rewrites
            (rotates io lines (from_cutoff cutoff lines))
            lines
            (from_cutoff cutoff lines)
            (rotate_by_time io true cutoff s)
    by_scan file e (nothing k none_new) =
        let well : rotates io lines (from_cutoff cutoff lines) ≡ true = rw none_new refl in
        rw
          (
            rotate_by_time-none io cutoff s open_in pos file e
                (ap (keep_offset_from cutoff 0) (scan file e) ∙ k),
            well,
            none_new,
          )
          (refl, record { file = refl; count = refl; good = tt })
    by_scan file e (from k o d some_kept all_new some_old) =
        rw
          (
            rotate_by_time-some io cutoff s open_in pos file (0 + k) e
                (ap (keep_offset_from cutoff 0) (scan file e) ∙ o),
            whole file e,
          )
          (keep_from-Rewrites io s lines (from_cutoff cutoff lines) (0 + k) h
            (All-from_cutoff cutoff lines h.good) some_kept (λ z. all_new (omega arith))
            (λ nz q. let lt = some_old (λ z. nz (omega arith)) in omega (arith, lt, q))
            (ap (λ (m : ℕ). drop m (join lines)) (omega arith) ∙ d))
