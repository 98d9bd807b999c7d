-- ===== src/Http/Tests.antt =====
-- The requests of the app at concrete headers and packets.
use dingdong.Common.{ℕ, ◌≡◌, refl, true, none, some, List, [], ◌∷◌, codes}
use dingdong.Http.{recv_json_body, extract_cookie_value, cookie_name}

abbrev packets : List (List ℕ)
packets = codes "{\"a\"" ∷ codes ":1}" ∷ []

received : recv_json_body 7 true packets ≡ some (codes "{\"a\":1}")
unfolding recv_json_body
received = refl

not_at_a_border : extract_cookie_value (some (codes "xdd_session=abc")) cookie_name 65 ≡ none
unfolding extract_cookie_value
not_at_a_border = refl
