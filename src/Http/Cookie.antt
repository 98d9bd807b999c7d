-- ===== src/Http/Cookie.antt =====
-- The session cookie in components/http_app/dd_http.c: a value that is sent is the value that is read.
use dingdong.Common.{
  ℕ, ◌+◌, ◌<◌, ◌≡◌, refl, ap, true, false, Option, none, some, List, [], ◌∷◌, ◌++◌, length,
  length-append, drop-append_ge, ◌==◌, arith, All, codes, lt→ltb,
}
use dingdong.Stdio.{starts_with}
use dingdong.Stdio.Search.{starts_with-append}
use dingdong.Http.{find_pair, begins_pair, ends_value, value_of, extract_cookie_value}

-- The last character of a text, behind another.
abbrev pub last_of : Option ℕ → List ℕ → Option ℕ
last_of before [] = before
last_of before (c ∷ cs) = last_of (some c) cs

-- The prefix stands nowhere in a text in front of it: not even across its end.
abbrev pub Absent : List ℕ → List ℕ → List ℕ → Type 0
Absent prefix [] rest = Unit {0}
Absent prefix (c ∷ cs) rest =
    (starts_with prefix (c ∷ (cs ++ rest)) ≡ false) × Absent prefix cs rest

find_pair-at :
    (prefix front rest : List ℕ) (before : Option ℕ)
    → 0 < length prefix
    → Absent prefix front (prefix ++ rest)
    → begins_pair (last_of before front) ≡ true
    → find_pair prefix 0 before (front ++ (prefix ++ rest)) ≡ some rest
unfolding find_pair
find_pair-at [] [] rest before pos absent begins = absurd (omega arith)
find_pair-at (p ∷ prefix) [] rest before pos absent begins =
    rw (starts_with-append (p ∷ prefix) rest, begins)
      (ap some (drop-append_ge (p ∷ prefix) rest (length (p ∷ prefix)) 0 (omega arith)))
find_pair-at prefix (c ∷ front) rest before pos absent begins =
    rw (absent.0) (find_pair-at prefix front rest (some c) pos absent.1 begins)

-- A value without the characters that end one, up to one of them or the end of the header.
pub value_of-append :
    (value rest : List ℕ)
    → All (λ c. ends_value c ≡ false) value
    → value_of rest ≡ []
    → value_of (value ++ rest) ≡ value
unfolding value_of
value_of-append [] rest plain ends = ends
value_of-append (c ∷ value) rest plain ends =
    rw (plain.0) (ap (λ r. c ∷ r) (value_of-append value rest plain.1 ends))

-- A cookie header with the pair anywhere gives its value: the pair stands at the front or behind a space or a
-- semicolon, the name with its equals sign does not stand in front of it, and behind the value the header ends or another pair follows. The header has
-- fewer than 1024 characters, the name fewer than 63, and the value fits the buffer.
pub extract_cookie_value-sent :
    (front name value rest : List ℕ) (cap : ℕ)
    → let prefix = name ++ codes "=" in
      length (front ++ (prefix ++ (value ++ rest))) < 1024
      → length name + 1 < 64
      → length value < cap
      → Absent prefix front (prefix ++ (value ++ rest))
      → begins_pair (last_of none front) ≡ true
      → All (λ c. ends_value c ≡ false) value
      → value_of rest ≡ []
      → extract_cookie_value (some (front ++ (prefix ++ (value ++ rest)))) name cap ≡ some value
unfolding extract_cookie_value
extract_cookie_value-sent front name value rest cap short named fits absent begins plain ends =
    let prefix = name ++ codes "=" in
    let header = front ++ (prefix ++ (value ++ rest)) in
    let size : length prefix ≡ length name + 1 = length-append name (codes "=") in
    let some_header : (length header == 0) ≡ false = ground (
      arith,
      length-append front (prefix ++ (value ++ rest)),
      length-append prefix (value ++ rest),
    ) in
    rw
      (
        some_header,
        lt→ltb _ _ short,
        lt→ltb _ _ named,
        find_pair-at prefix front (value ++ rest) none (omega arith) absent begins,
        value_of-append value rest plain ends,
        lt→ltb _ _ fits,
      )
      refl
