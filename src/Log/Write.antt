-- ===== src/Log/Write.antt =====
-- `buf_write` of components/log_buf/dd_log.c, which writes round the end of the storage.
use dingdong.Common.{
  inl, inr, drop-drop, ℕ, ◌+◌, ◌-◌, ◌≤◌, ◌<◌, ◌≡◌, refl, sym, ap, ◌∙◌, ◌≡⟨◌⟩◌, ◌∎, List, [], ◌∷◌,
  ◌++◌, append-nil, arith, length, drop, length-append, length-drop, drop-append_le, drop-append_ge,
  ltb, Bool-cases, ltb→lt,
}
use dingdong.Log.{LogState, buf_bytes, buf_write}
use dingdong.Log.Valid.{
  take_last, IsValid, unrolled, contents, length-unrolled, unroll-parts, length-contents,
  take_last-all,
}
use dingdong.Log.Place.{buf_write-fields, unrolled-buf_write, length-place}

-- Every write keeps the storage's size and the offsets in range.
pub buf_write-IsValid : (s : LogState) (src : List ℕ) → IsValid s → IsValid (buf_write s src)
unfolding buf_write
buf_write-IsValid s src v =
    ground (arith, length-place s src v, length-drop (length src - buf_bytes) src)

-- A short write, in terms of what the ring holds.
contents-short :
    (s : LogState) (src : List ℕ)
    → IsValid s
    → 0 < length src
    → length src < buf_bytes
    → contents (buf_write s src) ≡ take_last buf_bytes (contents s ++ src)
contents-short s src v pos small =
    contents (buf_write s src)
    ≡⟨ ap (λ k. drop k (unrolled (buf_write s src))) lhs_index ⟩
      drop (buf_bytes - (buf_write s src).used) (unrolled (buf_write s src))
    ≡⟨ ap (λ r. drop (buf_bytes - (buf_write s src).used) r)
        (unrolled-buf_write s src v pos small) ⟩
      drop (buf_bytes - (buf_write s src).used) (drop (length src) (unrolled s ++ src))
    ≡⟨ drop-drop (buf_bytes - (buf_write s src).used) (length src) (unrolled s ++ src) ⟩
      drop (length src + (buf_bytes - (buf_write s src).used)) (unrolled s ++ src)
    ≡⟨ ap (λ k. drop k (unrolled s ++ src)) index ⟩
      drop (held + (length (drop held (unrolled s) ++ src) - buf_bytes)) (unrolled s ++ src)
    ≡⟨ sym
        (drop-drop (length (drop held (unrolled s) ++ src) - buf_bytes) held (unrolled s ++ src)) ⟩
      drop (length (drop held (unrolled s) ++ src) - buf_bytes) (drop held (unrolled s ++ src))
    ≡⟨ ap (λ r. drop (length (drop held (unrolled s) ++ src) - buf_bytes) r)
        (drop-append_le (unrolled s) src held (omega arith)) ⟩
      take_last buf_bytes (contents s ++ src) ∎
  where
    held : ℕ
    held = length (unrolled s) - s.used

    lhs_index :
        length (unrolled (buf_write s src)) - (buf_write s src).used
        ≡ buf_bytes - (buf_write s src).used
    lhs_index = omega (arith, length-unrolled (buf_write s src) (buf_write-IsValid s src v))

    index :
        length src + (buf_bytes - (buf_write s src).used)
        ≡ held + (length (drop held (unrolled s) ++ src) - buf_bytes)
    index = omega (
      arith,
      (buf_write-fields s src pos small).2,
      length-append (drop held (unrolled s)) src,
      length-drop held (unrolled s),
      length-unrolled s v,
      v.used_in,
    )

contents-empty :
    (s : LogState) → IsValid s → contents (buf_write s []) ≡ take_last buf_bytes (contents s ++ [])
unfolding buf_write
contents-empty s v =
    rw (append-nil (contents s))
      (sym (take_last-all buf_bytes (contents s) (omega (arith, length-contents s v))))

-- What is left of a write that fills the storage.
module _ (s : LogState) (src : List ℕ) (long : buf_bytes ≤ length src) where
  buf_write-long :
      ((buf_write s src).buf ≡ drop (length src - buf_bytes) src)
      × ((buf_write s src).head ≡ 0)
      × ((buf_write s src).used ≡ buf_bytes)
  unfolding buf_write
  buf_write-long = ground arith

  contents-long : IsValid s → contents (buf_write s src) ≡ take_last buf_bytes (contents s ++ src)
  contents-long v =
      contents (buf_write s src)
      ≡⟨ take_last-all (buf_write s src).used (unrolled (buf_write s src)) (
          omega (
            arith,
            buf_write-long,
            length-unrolled (buf_write s src) (buf_write-IsValid s src v),
          )) ⟩
        unrolled (buf_write s src)
      ≡⟨ unroll-parts [] (buf_write s src).buf (buf_write s src) refl (buf_write-long.1) ⟩
        (buf_write s src).buf ++ []
      ≡⟨ append-nil (buf_write s src).buf ∙ buf_write-long.0 ⟩ drop (length src - buf_bytes) src
      ≡⟨ sym (
          drop-append_ge (contents s) src _ (length src - buf_bytes)
            (omega (arith, length-append (contents s) src))) ⟩
        take_last buf_bytes (contents s ++ src) ∎

-- After any write the ring holds the last `buf_bytes` bytes of what it held followed by what was
-- written, oldest first: an empty write, one that fits, one that goes round the end of the storage and one
-- that is longer than the storage.
pub contents-buf_write :
    (s : LogState) (src : List ℕ)
    → IsValid s
    → contents (buf_write s src) ≡ take_last buf_bytes (contents s ++ src)
contents-buf_write s [] v = contents-empty s v
contents-buf_write s (x ∷ xs) v = elim (Bool-cases (ltb (length (x ∷ xs)) buf_bytes)) [
  | inl small ↦ contents-short s (x ∷ xs) v (omega arith) (ltb→lt _ _ small)
  | inr long ↦ contents-long s (x ∷ xs) (ground arith) v
]

pub lock-buf_write : (s : LogState) (src : List ℕ) → (buf_write s src).lock ≡ s.lock
unfolding buf_write
lock-buf_write s src = ground arith
