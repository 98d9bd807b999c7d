-- ===== src/Log/Read.antt =====
-- `dd_log_read_tail`, the hook and the set-up of components/log_buf/dd_log.c.
use dingdong.Common.{
  ◌==◌, inl, inr, drop-drop, take-drop, ℕ, ◌+◌, ◌-◌, ◌%◌, ◌≤◌, ◌<◌, ◌≡◌, refl, sym, ap, ◌∙◌, true,
  false, none, some, List, [], ◌∷◌, ◌++◌, append_assoc, append-nil, arith, length, take, drop,
  length-drop, drop-all, take-all, drop-append_le, drop-append_ge, leb, ltb, Bool-cases, leb→le,
  ltb→lt,
}
use dingdong.Log.{LogState, buf_bytes, buf_write, read_tail, copy_out, log_vprintf, log_clear}
use dingdong.Log.Valid.{
  take_last, IsValid, unrolled, contents, length-unrolled, length-contents, take_last-all,
  take_last-again,
}
use dingdong.Log.Write.{buf_write-IsValid, contents-buf_write, lock-buf_write}

-- The copy that `read_tail` makes of the last `n` bytes: from before the head, or round the end.
module _ (s : LogState) (n : ℕ) (v : IsValid s) where
  copy_out-inside : n ≤ s.head → copy_out s n ≡ drop (s.head - n) (take s.head s.buf)
  unfolding copy_out
  copy_out-inside h =
      let start : (s.head + buf_bytes - n) % buf_bytes ≡ s.head - n = omega arith in
      let fits : leb n (buf_bytes - (s.head - n)) ≡ true = ground arith in
      let whole : s.head - n + n ≡ s.head = omega arith in
      rw (start, fits)
        (take-drop n (s.head - n) s.buf ∙ ap (λ k. drop (s.head - n) (take k s.buf)) whole)

  copy_out-round :
      s.head < n
      → n ≤ buf_bytes
      → copy_out s n ≡ drop (s.head + buf_bytes - n) s.buf ++ take s.head s.buf
  unfolding copy_out
  copy_out-round h le =
      let start : (s.head + buf_bytes - n) % buf_bytes ≡ s.head + buf_bytes - n = omega arith in
      let first : buf_bytes - (s.head + buf_bytes - n) ≡ n - s.head = omega arith in
      let all_of : (k : ℕ)
          → n - s.head ≤ k
          → take k (drop (s.head + buf_bytes - n) s.buf) ≡ drop (s.head + buf_bytes - n) s.buf =
        λ k p. take-all k _ (omega (arith, length-drop (s.head + buf_bytes - n) s.buf)) in
      rw (start, first)
        (elim (Bool-cases (leb n (n - s.head))) [
          | inl at_zero ↦
              let none_before : s.head ≡ 0 = omega (arith, leb→le _ _ at_zero) in
              rw (at_zero, all_of n (omega arith))
                (sym (
                  ap (λ k. drop (s.head + buf_bytes - n) s.buf ++ take k s.buf) none_before
                  ∙ append-nil _))
          | inr past ↦
              let rest : n - (n - s.head) ≡ s.head = omega arith in
              rw (past, all_of (n - s.head) (omega arith), rest) refl
        ])

  copy_out-unrolled : n ≤ s.used → copy_out s n ≡ take_last n (unrolled s)
  copy_out-unrolled h = elim (Bool-cases (leb n s.head)) [
    | inl before ↦
        copy_out-inside (leb→le _ _ before)
        ∙ sym (
            drop-append_ge b a (length (unrolled s) - n) (s.head - n)
              (omega (arith, leb→le _ _ before, length-unrolled s v, length-drop s.head s.buf)))
    | inr round ↦
        copy_out-round (ground arith) (omega arith)
        ∙ sym (
            drop-append_le b a (length (unrolled s) - n)
              (ground (arith, length-unrolled s v, length-drop s.head s.buf))
            ∙ ap (λ r. r ++ a)
                (drop-drop (length (unrolled s) - n) s.head s.buf
                  ∙ ap (λ k. drop k s.buf) (ground (arith, length-unrolled s v))))
  ]
    where
      a : List ℕ
      a = take s.head s.buf

      b : List ℕ
      b = drop s.head s.buf

-- A read of a set-up log into `room` bytes, the mutex taken in time, gives the last `room` bytes that the
-- ring holds, all of them if it holds fewer.
pub read_tail-contents :
    (s : LogState) (room : ℕ)
    → IsValid s
    → s.lock ≡ true
    → read_tail s true room true ≡ take_last room (contents s)
unfolding read_tail
read_tail-contents s room v lock = rw lock (elim (Bool-cases (room == 0)) [
  | inl nothing ↦ rw nothing (sym (drop-all _ (contents s) (ground arith)))
  | inr some_room ↦ rw some_room (elim (Bool-cases (ltb s.used room)) [
    | inl all_held ↦ rw all_held (
        copy_out-unrolled s s.used v (omega arith)
        ∙ sym (
            take_last-all room (contents s)
              (omega (arith, length-contents s v, ltb→lt _ _ all_held))))
    | inr more ↦ rw more (
        copy_out-unrolled s room v (ground arith)
        ∙ ap (λ k. drop k (unrolled s)) (ground (arith, length-contents s v, length-unrolled s v))
        ∙ sym (drop-drop (length (contents s) - room) (length (unrolled s) - s.used) (unrolled s)))
  ])
])

-- One call of the logging hook adds the first 255 bytes of the formatted text to the end of what the ring
-- holds, and drops from the front what no longer fits. A formatting error, a log that is not set up and a mutex that is
-- not had in time leave the ring alone.
pub log_vprintf-contents :
    (s : LogState) (text : List ℕ)
    → IsValid s
    → (s.lock ≡ true
        → contents (log_vprintf s (some text) true)
          ≡ take_last buf_bytes (contents s ++ take 255 text))
      × (log_vprintf s none true ≡ s)
      × (log_vprintf s (some text) false ≡ s)
      × (s.lock ≡ false → log_vprintf s (some text) true ≡ s)
unfolding log_vprintf
log_vprintf-contents s text v = (
  λ lock. ap contents (hooked lock) ∙ contents-buf_write s (take 255 text) v,
  refl,
  ground arith,
  λ lock. ground arith,
)
  where
    hooked : s.lock ≡ true → log_vprintf s (some text) true ≡ buf_write s (take 255 text)
    hooked lock = simp lock

-- What the hook's calls add to the ring, in order: the texts, each cut at 255 bytes.
abbrev pub stream : List (List ℕ) → List ℕ
stream [] = []
stream (text ∷ texts) = take 255 text ++ stream texts

-- The hook called with each text in turn, the mutex taken each time.
pub log_all : LogState → List (List ℕ) → LogState
log_all s [] = s
log_all s (text ∷ texts) = log_all (log_vprintf s (some text) true) texts

log_vprintf-IsValid :
    (s : LogState) (text : List ℕ)
    → IsValid s
    → s.lock ≡ true
    → IsValid (log_vprintf s (some text) true) × ((log_vprintf s (some text) true).lock ≡ true)
unfolding log_vprintf
log_vprintf-IsValid s text v lock =
    ground (arith, buf_write-IsValid s (take 255 text) v, lock-buf_write s (take 255 text))

log_all-contents :
    (texts : List (List ℕ)) (s : LogState)
    → IsValid s
    → s.lock ≡ true
    → IsValid (log_all s texts)
      × ((log_all s texts).lock ≡ true)
      × (contents (log_all s texts) ≡ take_last buf_bytes (contents s ++ stream texts))
unfolding log_all
log_all-contents [] s v lock = (
  v,
  lock,
  sym (
      rw (append-nil (contents s))
        (take_last-all buf_bytes (contents s) (omega (arith, length-contents s v)))),
)
log_all-contents (text ∷ texts) s v lock =
    let next = log_vprintf s (some text) true in
    let kept = log_vprintf-IsValid s text v lock in
    let rest = log_all-contents texts next kept.0 kept.1 in
    (
      rest.0,
      rest.1,
      rest.2
          ∙ ap (λ c. take_last buf_bytes (c ++ stream texts))
              ((log_vprintf-contents s text v).0 lock)
          ∙ take_last-again buf_bytes (contents s ++ take 255 text) (stream texts)
          ∙ ap (λ r. take_last buf_bytes r)
              (append_assoc (contents s) (take 255 text) (stream texts)),
    )

-- From a set-up log, after any number of calls of the hook, a read gives the last bytes of the whole
-- stream: what the ring held before, then each text cut at 255 bytes, of which the ring keeps 65536 bytes
-- and the reader takes `room`.
pub read_tail-log_all :
    (s : LogState) (texts : List (List ℕ)) (room : ℕ)
    → IsValid s
    → s.lock ≡ true
    → read_tail (log_all s texts) true room true
      ≡ take_last room (take_last buf_bytes (contents s ++ stream texts))
read_tail-log_all s texts room v lock =
    let all = log_all-contents texts s v lock in
    read_tail-contents (log_all s texts) room all.0 all.1 ∙ ap (λ c. take_last room c) all.2

nil_of_length : (xs : List ℕ) → length xs ≡ 0 → xs ≡ []
nil_of_length [] h = refl
nil_of_length (x ∷ xs) h = absurd (omega arith)

-- A clear that has the mutex in time keeps the ring valid and leaves nothing in it to read; one that does not
-- changes nothing.
log_clear-contents :
    (s : LogState) (room : ℕ)
    → IsValid s
    → s.lock ≡ true
    → IsValid (log_clear s true)
      × (contents (log_clear s true) ≡ [])
      × (read_tail (log_clear s true) true room true ≡ [])
      × (log_clear s false ≡ s)
unfolding log_clear
log_clear-contents s room v lock = (
  valid,
  gone,
  read_tail-contents (log_clear s true) room valid (ground arith)
      ∙ ap (λ c. take_last room c) gone
      ∙ drop-all (0 - room) [] (omega arith),
  ground arith,
)
  where
    valid : IsValid (log_clear s true)
    valid = ground arith

    gone : contents (log_clear s true) ≡ []
    gone =
        nil_of_length (contents (log_clear s true))
          (length-contents (log_clear s true) valid ∙ ground arith)
