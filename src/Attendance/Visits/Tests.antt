-- ===== src/Attendance/Visits/Tests.antt =====
-- The paired view at two workers whose visits overlap.
use dingdong.Common.{
  ℕ, ◌≡◌, ◌≢◌, refl, none, some, Option, List, [], ◌∷◌, true, codes, arith, bytes_eq,
}
use dingdong.Stdio.{fgets_all}
use dingdong.Attendance.Tests.{parse, lines, store, store-Holds}
use dingdong.Attendance.Visits.{
  Segment, paired_segments, blank_ctx, find_free_slot, paired_iter_cb, is_visit_of,
}
use dingdong.Attendance.Visits.Worker.{only, segments_of}
use dingdong.Attendance.Lines.{lines_of}
use dingdong.Attendance.Visits.Paired.{Roomy, paired_segments-only}

not_full : (o : Option ℕ) (i : ℕ) → o ≡ some i → o ≢ none
not_full o i e = rw e (λ h. cc)

room : Roomy (lines_of parse lines) (blank_ctx 0 0)
unfolding find_free_slot paired_iter_cb bytes_eq is_visit_of
room = (not_full _ 0 refl, (not_full _ 1 refl, (not_full _ 2 refl, tt)))

paired_segments-only_example :
    only 1 (paired_segments parse true 0 0 store) ≡ segments_of 1 0 0 (lines_of parse lines) none
paired_segments-only_example =
    paired_segments-only parse 1 (omega arith) 0 0 store lines store-Holds
      ((λ e. refl), ((λ e. refl), ((λ e. refl), tt))) room

abbrev cut : List Segment → List (ℕ × Option (ℕ × List ℕ))
cut [] = []
cut (s ∷ ss) = (s.visit.in_ts, s.out) ∷ cut ss

first_ended :
    cut (paired_segments parse true 0 0 store) ≡ (100, some (700, codes "ble")) ∷ (200, none) ∷ []
unfolding paired_segments bytes_eq fgets_all is_visit_of
first_ended = refl
