-- ===== src/Log/Tests.antt =====
-- The properties of the log ring at concrete states.
use dingdong.Common.{
  ℕ, ◌≡◌, refl, true, false, some, none, List, [], ◌∷◌, arith, length-replicate, length, replicate,
  ◌++◌, take,
}
use dingdong.Log.{LogState, buf_bytes, buf_write, read_tail, log_vprintf}
use dingdong.Log.Valid.{IsValid, contents, take_last}
use dingdong.Log.Write.{buf_write-IsValid}
use dingdong.Log.Read.{log_vprintf-contents, read_tail-contents, log_all, stream, read_tail-log_all}

-- A storage of 65536 bytes, kept shut.
storage : List ℕ
storage = replicate buf_bytes 7

length-storage : length storage ≡ buf_bytes
unfolding storage
length-storage = length-replicate {A = ℕ} 65536 7

-- A set-up log with the head two bytes before the end of the storage.
abbrev near_end : LogState
near_end = record {
  buf = storage;
  head = 65534;
  used = 3;
  lock = true;
  hooked = true;
  inited = true;
}

near_end-IsValid : IsValid near_end
near_end-IsValid = record { storage = length-storage; head_in = omega arith; used_in = omega arith }

abbrev text : List ℕ
text = 1 ∷ 2 ∷ 3 ∷ 4 ∷ []

-- A write of four bytes goes round the end and ends at index 2.
head_goes_round : (buf_write near_end text).head ≡ 2
unfolding buf_write
head_goes_round = refl

buf_write-IsValid_example : IsValid (buf_write near_end text)
buf_write-IsValid_example = buf_write-IsValid near_end text near_end-IsValid

log_vprintf-contents_example :
    (near_end.lock ≡ true
      → contents (log_vprintf near_end (some text) true)
        ≡ take_last buf_bytes (contents near_end ++ take 255 text))
    × (log_vprintf near_end none true ≡ near_end)
    × (log_vprintf near_end (some text) false ≡ near_end)
    × (near_end.lock ≡ false → log_vprintf near_end (some text) true ≡ near_end)
log_vprintf-contents_example = log_vprintf-contents near_end text near_end-IsValid

read_tail-contents_example : read_tail near_end true 2 true ≡ take_last 2 (contents near_end)
read_tail-contents_example = read_tail-contents near_end 2 near_end-IsValid refl

read_tail-log_all_example :
    read_tail (log_all near_end (text ∷ text ∷ [])) true 6 true
    ≡ take_last 6 (take_last buf_bytes (contents near_end ++ stream (text ∷ text ∷ [])))
read_tail-log_all_example = read_tail-log_all near_end (text ∷ text ∷ []) 6 near_end-IsValid refl
