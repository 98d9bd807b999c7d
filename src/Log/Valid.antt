-- ===== src/Log/Valid.antt =====
-- What the log ring of components/log_buf/dd_log.c holds, and when its offsets are in range.
use dingdong.Common.{
  drop-drop, ℕ, ◌+◌, ◌-◌, ◌≤◌, ◌<◌, ◌≡◌, refl, sym, ap, ◌∙◌, List, ◌++◌, arith, length, take, drop,
  length-append, length-take, length-drop, take-append-drop, take-all, take-append, drop-append_le,
  drop-append_ge,
}
use dingdong.Log.{LogState, buf_bytes}

-- The last `n` elements of a list, all of it if it has fewer.
abbrev pub take_last {ℓ} : {A : Type ℓ} → ℕ → List A → List A
take_last n xs = drop (length xs - n) xs

pub record IsValid (s : LogState) : Type 0 where
  pub storage : length s.buf ≡ buf_bytes
  pub head_in : s.head < buf_bytes
  pub used_in : s.used ≤ buf_bytes

-- The buffer read round from `head`, oldest byte first.
abbrev pub unrolled : LogState → List ℕ
unrolled s = drop s.head s.buf ++ take s.head s.buf

-- What the ring holds, oldest byte first.
abbrev pub contents : LogState → List ℕ
contents s = take_last s.used (unrolled s)

pub length-unrolled : (s : LogState) → IsValid s → length (unrolled s) ≡ buf_bytes
length-unrolled s v = omega (
  arith,
  length-append (drop s.head s.buf) (take s.head s.buf),
  length-drop s.head s.buf,
  length-take s.head s.buf,
)

pub unroll-parts :
    (x y : List ℕ) (s : LogState) → s.buf ≡ x ++ y → s.head ≡ length x → unrolled s ≡ y ++ x
unroll-parts x y s e h = rw (
  e,
  h,
  drop-append_ge x y (length x) 0 (omega arith),
  take-append x y (length x) (omega arith),
  take-all (length x) x (omega arith),
)

-- The storage is what lies before the head and what lies from it on.
pub buf-parts :
    (s : LogState)
    → IsValid s
    → (s.buf ≡ take s.head s.buf ++ drop s.head s.buf)
      × (s.head ≡ length (take s.head s.buf))
      × (length (drop s.head s.buf) ≡ buf_bytes - s.head)
buf-parts s v = (
  sym (take-append-drop s.head s.buf),
  omega (arith, length-take s.head s.buf),
  omega (arith, length-drop s.head s.buf),
)

pub length-contents : (s : LogState) → IsValid s → length (contents s) ≡ s.used
length-contents s v =
    omega (arith, length-drop (length (unrolled s) - s.used) (unrolled s), length-unrolled s v)

-- The last `n` of a list of at most `n` is the list.
pub take_last-all : (n : ℕ) (xs : List ℕ) → length xs ≤ n → take_last n xs ≡ xs
take_last-all n xs h = let e : length xs - n ≡ 0 = omega arith in rw e refl

-- Cutting to the last `n` twice is cutting once.
pub take_last-again :
    (n : ℕ) (xs ys : List ℕ) → take_last n (take_last n xs ++ ys) ≡ take_last n (xs ++ ys)
take_last-again n xs ys =
    let k = length xs - n in
    sym (
      ap (λ (r : List ℕ). drop (length (drop k xs ++ ys) - n) r)
        (drop-append_le xs ys k (omega arith)))
    ∙ drop-drop (length (drop k xs ++ ys) - n) k (xs ++ ys)
    ∙ ap (λ (m : ℕ). drop m (xs ++ ys)) (index)
  where
    index : length xs - n + (length (drop (length xs - n) xs ++ ys) - n) ≡ length (xs ++ ys) - n
    index = omega (
      arith,
      length-append (drop (length xs - n) xs) ys,
      length-append xs ys,
      length-drop (length xs - n) xs,
    )
