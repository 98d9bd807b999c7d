-- ===== src/Http/Guard.antt =====
-- The guard of the handlers in components/http_app/dd_http.c over the sessions of
-- components/session/dd_session.c: the cookie of a new session opens it.
use dingdong.Common.{
  ℕ, zero, suc, ◌+◌, ◌/◌, ◌%◌, ◌^◌, ◌<◌, ◌≡◌, refl, true, false, none, some, List, [], ◌∷◌, ◌++◌,
  length, take, get_or, arith, All, codes,
}
use dingdong.Session.{Slot, session_create, token_len, ttl_usec, hex_encode, hex_digits}
use dingdong.Session.Valid.{IsValid, cookie, length-cookie, session_is_valid-create}
use dingdong.Http.{ends_value, value_of, is_authed, cookie_name, begins_pair}
use dingdong.Http.Cookie.{Absent, last_of, extract_cookie_value-sent}

abbrev pub Plain : List ℕ → Type 0
Plain = All (λ c. ends_value c ≡ false)

Plain-get_or : (xs : List ℕ) (i : ℕ) → Plain xs → ends_value (get_or xs i 0) ≡ false
Plain-get_or [] i p = refl
Plain-get_or (x ∷ xs) zero p = p.0
Plain-get_or (x ∷ xs) (suc i) p = Plain-get_or xs i p.1

hex_digits-Plain : Plain hex_digits
hex_digits-Plain = (
  refl,
  (
    refl,
    (
      refl,
      (
        refl,
        (
          refl,
          (
            refl,
            (refl, (refl, (refl, (refl, (refl, (refl, (refl, (refl, (refl, (refl, tt)))))))))),
          ),
        ),
      ),
    ),
  ),
)

pub hex_encode-Plain : (bytes : List ℕ) → Plain (hex_encode bytes)
unfolding hex_encode
hex_encode-Plain [] = (refl, tt)
hex_encode-Plain (b ∷ bs) = (
  Plain-get_or hex_digits (b / 2 ^ 4 % 16) hex_digits-Plain,
  (Plain-get_or hex_digits (b % 16) hex_digits-Plain, hex_encode-Plain bs),
)

pub Plain-take : (n : ℕ) (xs : List ℕ) → Plain xs → Plain (take n xs)
Plain-take zero xs p = tt
Plain-take (suc n) [] p = tt
Plain-take (suc n) (x ∷ xs) p = (p.0, Plain-take n xs p.1)

-- A request that sends the cookie of a new session, among others or alone, is let in at every time before
-- seven days have gone by.
pub is_authed-create :
    (slots : List Slot) (bytes front rest : List ℕ) (now later : ℕ)
    → let pair = cookie_name ++ codes "=" in
      let header = front ++ (pair ++ (cookie bytes ++ rest)) in
      IsValid slots
      → length bytes ≡ 32
      → later < now + ttl_usec
      → length header < 1024
      → Absent pair front (pair ++ (cookie bytes ++ rest))
      → begins_pair (last_of none front) ≡ true
      → value_of rest ≡ []
      → is_authed (some header) (session_create slots bytes now true token_len).2 later ≡ true
unfolding is_authed
is_authed-create slots bytes front rest now later valid size lt short absent begins ends =
    let read =
      extract_cookie_value-sent front cookie_name (cookie bytes) rest token_len short (omega arith)
        (omega (arith, length-cookie bytes size)) absent begins
        (Plain-take 64 (hex_encode bytes) (hex_encode-Plain bytes)) ends in
    rw (read, is_authed)
      (session_is_valid-create slots bytes now token_len later valid (omega arith) size lt)
