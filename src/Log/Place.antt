-- ===== src/Log/Place.antt =====
-- Where `buf_write` of components/log_buf/dd_log.c puts the bytes of a write, before and round the end of the storage.
use dingdong.Common.{
  ◌⊎◌, inl, inr, ℕ, ◌+◌, ◌-◌, ◌%◌, ◌≤◌, ◌<◌, min, ◌≡◌, refl, sym, ap, ap₂, ◌∙◌, true, false, List,
  [], ◌++◌, append_assoc, append-nil, arith, length, take, drop, length-append, length-take,
  length-drop, take-append-drop, drop-all, take-all, take-append, drop-append_le, drop-append_ge,
  leb, ltb, Bool-cases, leb→le, ltb→lt,
}
use dingdong.Log.{LogState, buf_bytes, buf_write, place, memcpy}
use dingdong.Log.Valid.{IsValid, unrolled, unroll-parts, buf-parts}

-- The storage as what lies before the head and what lies from it on.
module _ (a b src : List ℕ) where
  memcpy-parts :
      length src ≤ length b → memcpy (a ++ b) (length a) src ≡ a ++ (src ++ drop (length src) b)
  memcpy-parts h = rw (
    take-append a b (length a) (omega arith),
    take-all (length a) a (omega arith),
    drop-append_ge a b (length a + length src) (length src) (omega arith),
  )

  drop-parts :
      length src ≤ length b
      → drop (length src) ((b ++ a) ++ src) ≡ drop (length src) b ++ (a ++ src)
  drop-parts h = rw (append_assoc b a src, drop-append_le b (a ++ src) (length src) h)

-- A write that fits in front of the end of the storage, and one that goes round it.
module _ (a b src : List ℕ) (s : LogState) where
  unroll-inside :
      length src ≤ length b
      → s.buf ≡ memcpy (a ++ b) (length a) src
      → (s.head ≡ length a + length src) ⊎ ((length src ≡ length b) × (s.head ≡ 0))
      → unrolled s ≡ drop (length src) ((b ++ a) ++ src)
  unroll-inside h e (inl k) = rw (drop-parts a b src h) (
      unroll-parts (a ++ src) (drop (length src) b) s
        (e ∙ memcpy-parts a b src h ∙ sym (append_assoc a src (drop (length src) b)))
        (k ∙ sym (length-append a src)))
  unroll-inside h e (inr (full, k)) =
      let gone : drop (length src) b ≡ [] = drop-all (length src) b (omega arith) in
      rw (drop-parts a b src h, gone)
        (unroll-parts [] (a ++ src) s (e ∙ memcpy-parts a b src h ∙ rw (gone, append-nil src) refl)
            k
          ∙ append-nil (a ++ src))

  unroll-round :
      length b < length src
      → length src ≤ length b + length a
      → s.buf ≡ memcpy (memcpy (a ++ b) (length a) (take (length b) src)) 0 (drop (length b) src)
      → s.head ≡ length src - length b
      → unrolled s ≡ drop (length src) ((b ++ a) ++ src)
  unroll-round lt le e k =
      rw
        (
          append_assoc b a src,
          drop-append_ge b (a ++ src) (length src) over (omega arith),
          drop-append_le a src over (omega arith),
        )
        (unroll-parts s2 (drop over a ++ s1) s (e ∙ placed) (k ∙ sym s2_length)
          ∙ append_assoc (drop over a) s1 s2
          ∙ ap (λ r. drop over a ++ r) (take-append-drop (length b) src))
    where
      over : ℕ
      over = length src - length b

      s1 : List ℕ
      s1 = take (length b) src

      s2 : List ℕ
      s2 = drop (length b) src

      s1_length : length s1 ≡ length b
      s1_length = omega (arith, length-take (length b) src)

      s2_length : length s2 ≡ over
      s2_length = length-drop (length b) src

      inner : memcpy (a ++ b) (length a) s1 ≡ a ++ s1
      inner =
          memcpy-parts a b s1 (omega (arith, s1_length))
          ∙ rw (s1_length, drop-all (length b) b (omega arith), append-nil s1) refl

      placed : memcpy (memcpy (a ++ b) (length a) s1) 0 s2 ≡ s2 ++ (drop over a ++ s1)
      placed =
          rw (inner, s2_length)
            (ap (λ r. s2 ++ r)
              (let e' : 0 + over ≡ over = omega arith in
                rw e' (drop-append_le a s1 over (omega arith))))

place-inside :
    (s : LogState) (src : List ℕ)
    → leb (length src) (buf_bytes - s.head) ≡ true
    → place s src (length src) ≡ memcpy s.buf s.head src
unfolding place
place-inside s src fits = rw fits

place-round :
    (s : LogState) (src : List ℕ)
    → leb (length src) (buf_bytes - s.head) ≡ false
    → place s src (length src)
      ≡ memcpy
          (memcpy s.buf s.head (take (buf_bytes - s.head) src))
          0
          (drop (buf_bytes - s.head) src)
unfolding place
place-round s src over = rw over

-- The fields after a write of fewer bytes than the storage holds.
pub buf_write-fields :
    (s : LogState) (src : List ℕ)
    → 0 < length src
    → length src < buf_bytes
    → ((buf_write s src).buf ≡ place s src (length src))
      × ((buf_write s src).head ≡ (s.head + length src) % buf_bytes)
      × ((buf_write s src).used ≡ min buf_bytes (s.used + length src))
unfolding buf_write
buf_write-fields s src pos small = ground arith

-- A write of fewer bytes than the storage holds moves the reading window on by its length.
pub unrolled-buf_write :
    (s : LogState) (src : List ℕ)
    → IsValid s
    → 0 < length src
    → length src < buf_bytes
    → unrolled (buf_write s src) ≡ drop (length src) (unrolled s ++ src)
unrolled-buf_write s src v pos small = elim (Bool-cases (leb (length src) (buf_bytes - s.head))) [
  | inl fits ↦
      unroll-inside a b src (buf_write s src) (omega (arith, leb→le _ _ fits, parts.2))
        (fields.0 ∙ inside fits) (wrap (omega (arith, leb→le _ _ fits, parts.2)))
  | inr over ↦
      unroll-round a b src (buf_write s src) (long over) (omega (arith, parts.1, parts.2))
        (fields.0 ∙ round over) (ground (arith, long over, fields.1, parts.1, parts.2))
]
  where
    a : List ℕ
    a = take s.head s.buf

    b : List ℕ
    b = drop s.head s.buf

    parts : (s.buf ≡ a ++ b) × (s.head ≡ length a) × (length b ≡ buf_bytes - s.head)
    parts = buf-parts s v

    fields :
        ((buf_write s src).buf ≡ place s src (length src))
        × ((buf_write s src).head ≡ (s.head + length src) % buf_bytes)
        × ((buf_write s src).used ≡ min buf_bytes (s.used + length src))
    fields = buf_write-fields s src pos small

    long : leb (length src) (buf_bytes - s.head) ≡ false → length b < length src
    long over = ground (arith, parts.2)

    wrap :
        length src ≤ length b
        → ((buf_write s src).head ≡ length a + length src)
          ⊎ ((length src ≡ length b) × ((buf_write s src).head ≡ 0))
    wrap h = elim (Bool-cases (ltb (s.head + length src) buf_bytes)) [
      | inl lt ↦ inl (omega (arith, ltb→lt _ _ lt, fields.1, parts.1))
      | inr ge ↦ inr (ground (arith, fields.1, parts.1, parts.2))
    ]

    inside :
        leb (length src) (buf_bytes - s.head) ≡ true
        → place s src (length src) ≡ memcpy (a ++ b) (length a) src
    inside fits = place-inside s src fits ∙ ap₂ (λ m h. memcpy m h src) parts.0 parts.1

    round :
        leb (length src) (buf_bytes - s.head) ≡ false
        → place s src (length src)
          ≡ memcpy (memcpy (a ++ b) (length a) (take (length b) src)) 0 (drop (length b) src)
    round over =
        place-round s src over
        ∙ ap₂
            (λ m h.
              memcpy (memcpy m h (take (buf_bytes - s.head) src)) 0 (drop (buf_bytes - s.head) src))
            parts.0 parts.1
        ∙ ap (λ k. memcpy (memcpy (a ++ b) (length a) (take k src)) 0 (drop k src)) (sym parts.2)

pub length-place :
    (s : LogState) (src : List ℕ)
    → IsValid s
    → length src < buf_bytes
    → length (place s src (length src)) ≡ buf_bytes
unfolding place
length-place s src v small = ground (
  arith,
  length-append (take s.head s.buf) (src ++ drop (s.head + length src) s.buf),
  length-append src (drop (s.head + length src) s.buf),
  length-take s.head s.buf,
  length-drop (s.head + length src) s.buf,
  length-append (drop first src) (drop (0 + length (drop first src)) inner),
  length-drop first src,
  length-drop (0 + length (drop first src)) inner,
  length-append (take s.head s.buf)
      (take first src ++ drop (s.head + length (take first src)) s.buf),
  length-append (take first src) (drop (s.head + length (take first src)) s.buf),
  length-take first src,
  length-drop (s.head + length (take first src)) s.buf,
)
  where
    first : ℕ
    first = buf_bytes - s.head

    inner : List ℕ
    inner = memcpy s.buf s.head (take first src)
