-- ===== src/Attendance/Export/Tests.antt =====
-- The CSV export at names with commas and quotes.
use dingdong.Common.{ℕ, ◌≡◌, refl, none, some, Option, List, [], ◌∷◌, ◌++◌, codes, replicate}
use dingdong.Workers.{Table}
use dingdong.Attendance.{LogLine}
use dingdong.Attendance.Export.{csv_field_quote, csv_row}
use dingdong.Attendance.Export.Csv.{read_row}
use dingdong.Attendance.Export.Rows.{fields_of, read_row-csv_row}
use dingdong.Stdio.{decimal}

quoted : csv_field_quote (codes "a,\"b\"") ≡ codes "\"a,\"\"b\"\"\""
unfolding csv_field_quote
quoted = refl

abbrev table : Table
table = record {
  workers =
      record {
        id = 3;
        addr = replicate 6 0;
        name = codes "Wang, Li";
        category = [];
        created_at = 0;
      }
      ∷ [];
  next_id = 4;
}

abbrev event : LogLine
event = record {
  type = some (codes "out");
  src = some (codes "ble");
  peer = none;
  note = some (codes "said \"bye\"");
  ts = some 70;
  mono_us = none;
  worker_id = some 3;
  reason = some 8;
}

abbrev no_lines : List ℕ → Option LogLine
no_lines line = none

abbrev clock : ℕ → List ℕ
clock t = codes "12:00"

row :
    csv_row no_lines table clock event
    ≡ codes "70,12:00,out,ble,3,\"Wang, Li\",,8,\"said \"\"bye\"\"\"\n"
unfolding csv_row decimal
row = refl

clock_plain : csv_field_quote (codes "12:00") ≡ codes "12:00"
unfolding csv_field_quote
clock_plain = refl

read_row-csv_row_example :
    read_row 8 (csv_row no_lines table clock event ++ codes "rest")
    ≡ some (fields_of table clock event, codes "rest")
read_row-csv_row_example =
    read_row-csv_row table clock no_lines event (codes "rest") (λ t. clock_plain)
