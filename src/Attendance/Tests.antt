-- ===== src/Attendance/Tests.antt =====
-- A log of single letters, on which the tests of the handlers of dd_http_attendance.c run.
use dingdong.Common.{ℕ, refl, none, some, Option, List, [], ◌∷◌, ◌==◌, if◌then◌else◌, codes, arith}
use dingdong.Storage.{Store}
use dingdong.Storage.Files.{Holds}
use dingdong.Attendance.{LogLine}

-- A log whose lines are single letters.
abbrev pub event : List ℕ → ℕ → ℕ → LogLine
event type ts worker = record {
  type = some type;
  src = some (codes "ble");
  peer = none;
  note = none;
  ts = some ts;
  mono_us = none;
  worker_id = some worker;
  reason = none;
}

abbrev pub parse : List ℕ → Option LogLine
parse [] = none
parse (c ∷ _) =
    if c == b'a'
    then some (event (codes "in") 100 1)
    else if c == b'b'
    then some (event (codes "in") 200 2)
    else if c == b'c'
    then some (event (codes "out") 700 1)
    else none

abbrev pub lines : List (List ℕ)
lines = codes "a" ∷ codes "b" ∷ codes "?" ∷ codes "c" ∷ []

abbrev pub store : Store
store = record { events = some (codes "a\nb\n?\nc\n"); event_count = 4; tmp = none }

pub store-Holds : Holds store lines
store-Holds = record { file = refl; count = refl; good = omega arith }
