-- ===== src/Storage/Matching.antt =====
-- Which events dd_storage_event_delete_by_worker of components/storage/dd_storage.c drops.
use dingdong.Common.{
  ℕ, zero, suc, ◌≡◌, refl, sym, ap, ◌∙◌, Bool, true, false, ◌&&◌, ◌||◌, ◌==◌, ==_iff, List, [], ◌∷◌,
  ◌++◌, append_assoc, arith, length, drop, get_or, Bool-cases, inl, inr, drop-append_ge, codes,
}
use dingdong.Stdio.{starts_with, decimal, is_digit}
use dingdong.Stdio.Decimal.{decimal-injective}
use dingdong.Stdio.Search.{starts_with-append, starts_with-split, OnlyAt, strstr-only}
use dingdong.Storage.Delete.{drops_for_worker, worker_needle}

-- The name of the field, with its colon.
abbrev pub worker_field : List ℕ
worker_field = codes "\"worker_id\":"

-- The characters that may follow the number in a line that is dropped.
abbrev pub ends_number : ℕ → Bool
ends_number c = (c == b',') || (c == b'}') || (c == 32)

-- A line with the field at one place only, where it has the number `n`.
module _ (front rest : List ℕ) (n : ℕ) (c : ℕ) where
  abbrev pub event_line : List ℕ
  event_line = front ++ (worker_field ++ (decimal n ++ (c ∷ rest)))

drop-front : (xs ys : List ℕ) → drop (length xs) (xs ++ ys) ≡ ys
drop-front xs ys = drop-append_ge xs ys (length xs) 0 (omega arith)

get_or-drop : (k : ℕ) (xs : List ℕ) → get_or xs k 0 ≡ get_or (drop k xs) 0 0
get_or-drop zero xs = refl
get_or-drop (suc k) [] = refl
get_or-drop (suc k) (x ∷ xs) = get_or-drop k xs

-- The test of the line, at the place of the field.
drops-at :
    (m : ℕ) (line : List ℕ) (k : ℕ)
    → OnlyAt worker_field line k
    → drops_for_worker m line ≡ (
        starts_with (worker_needle m) (drop k line)
        && ends_number (get_or (drop k line) (length (worker_needle m)) 0))
unfolding drops_for_worker
drops-at m line k only = elim (Bool-cases (starts_with (worker_needle m) (drop k line))) [
  | inl hit ↦ ground (arith, strstr-only worker_field (decimal m) line k only)
  | inr miss ↦ ground (arith, strstr-only worker_field (decimal m) line k only)
]

-- What `strstr` finds of a number that is not the line's is not followed by one of the characters.
module _ (m n c : ℕ) (rest : List ℕ) (stops : is_digit c ≡ false) where
  abbrev tail : List ℕ
  tail = worker_field ++ (decimal n ++ (c ∷ rest))

  abbrev after : List ℕ
  after = drop (length (worker_needle m)) tail

  found-eq :
      starts_with (worker_needle m) tail ≡ true
      → ends_number (get_or tail (length (worker_needle m)) 0) ≡ true
      → m ≡ n
  found-eq hit ends =
      decimal-injective m n after (c ∷ rest)
        (ground (arith, get_or-drop (length (worker_needle m)) tail)) stops
        (sym (drop-front worker_field (decimal m ++ after))
          ∙ ap (drop (length worker_field)) (
              sym (append_assoc worker_field (decimal m) after)
              ∙ starts_with-split (worker_needle m) tail hit)
          ∙ drop-front worker_field (decimal n ++ (c ∷ rest)))

found_self :
    (n c : ℕ) (rest : List ℕ)
    → (starts_with (worker_needle n) (worker_field ++ (decimal n ++ (c ∷ rest))) ≡ true)
      × (get_or (worker_field ++ (decimal n ++ (c ∷ rest))) (length (worker_needle n)) 0 ≡ c)
found_self n c rest =
    let split : worker_field ++ (decimal n ++ (c ∷ rest)) ≡ worker_needle n ++ (c ∷ rest) =
      sym (append_assoc worker_field (decimal n) (c ∷ rest)) in
    rw split (
      starts_with-append (worker_needle n) (c ∷ rest),
      get_or-drop (length (worker_needle n)) (worker_needle n ++ (c ∷ rest))
          ∙ ap (λ l. get_or l 0 0) (drop-front (worker_needle n) (c ∷ rest)),
    )

-- A line that has the worker field at one place, with the number `n` there and no further digit behind it, is
-- dropped for worker `m` exactly when `m` is `n` and a comma, a closing brace or a space follows the number: events of
-- worker 12 outlive the deletion of worker 1.
pub drops_for_worker-eq :
    (m n c : ℕ) (front rest : List ℕ)
    → OnlyAt worker_field (event_line front rest n c) (length front)
    → is_digit c ≡ false
    → drops_for_worker m (event_line front rest n c) ≡ ((m == n) && ends_number c)
drops_for_worker-eq m n c front rest only stops =
    drops-at m (event_line front rest n c) (length front) only
    ∙ rw (drop-front front (worker_field ++ (decimal n ++ (c ∷ rest))))
        (elim (Bool-cases (m == n)) [
          | inl same ↦
              let eq : m ≡ n = (==_iff m n).0 same in
              let (hit, end) = found_self n c rest in rw (eq) (ground (arith, hit, end))
          | inr other ↦ ground (arith, found-eq m n c rest stops)
        ])
