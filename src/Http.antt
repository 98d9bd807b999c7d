-- ===== src/Http.antt =====
-- components/http_app/dd_http.c: replies, the receiving of a body, the session cookie and the guard
-- of the handlers. esp_http_server is outside the model: a request is what its calls give, and a handler
-- is a function to its reply.
pub mod Cookie
pub mod Body
pub mod Guard
mod Tests
use dingdong.Common.{
  ℕ, zero, suc, ◌+◌, ◌-◌, Bool, true, false, not, ◌&&◌, ◌||◌, Option, none, some, List, [], ◌∷◌,
  ◌++◌, length, take, drop, ltb, leb, ◌==◌, if◌then◌else◌, Err, codes,
}
use dingdong.Stdio.{starts_with}
use dingdong.Session.{Slot, session_is_valid, token_len}

-- The status and the text of a reply.
pub record Reply : Type 0 where
  pub status : ℕ
  pub text : List ℕ

-- reply_text
abbrev pub reply_text : ℕ → List ℕ → Reply
reply_text status text = record { status = status; text = text }

-- reply_json_status, for what cJSON prints, `none` for NULL
unfoldable pub reply_json_status : ℕ → Option (List ℕ) → Reply
reply_json_status status none = reply_text 500 (codes "oom")
reply_json_status status (some text) = reply_text status text

-- The loop of recv_json_body with `left` bytes to come: what the calls of httpd_req_recv give, an
-- empty list for an answer of 0 or less. A call gives no more than it is asked for.
unfoldable pub recv_loop : ℕ → List (List ℕ) → Option (List ℕ)
recv_loop left [] = if left == 0 then some [] else none
recv_loop left (packet ∷ packets) =
    let rest = recv_loop (left - length (take left packet)) packets in
    if left == 0
    then some []
    else if length packet == 0
    then none
    else elim rest [ none ↦ none | some bytes ↦ some (take left packet ++ bytes) ]

-- recv_json_body: the text that is parsed; `allocated` is whether malloc gave a buffer
unfoldable pub recv_json_body : ℕ → Bool → List (List ℕ) → Option (List ℕ)
unfolding recv_loop
recv_json_body total allocated packets =
    if (total == 0) || ltb 8192 total
    then none
    else if not allocated
    then none
    else recv_loop total packets

-- COOKIE_NAME
abbrev pub cookie_name : List ℕ
cookie_name = codes "dd_session"

abbrev pub semicolon : ℕ
semicolon = 59

abbrev pub space : ℕ
space = 32

-- `p == buf || p[-1] == ' ' || p[-1] == ';'`
abbrev pub begins_pair : Option ℕ → Bool
begins_pair none = true
begins_pair (some c) = (c == space) || (c == semicolon)

-- The loop of extract_cookie_value: what stands behind the prefix. `skip` characters are still to be passed
-- over, and `before` is the character in front.
unfoldable pub find_pair : List ℕ → ℕ → Option ℕ → List ℕ → Option (List ℕ)
unfolding starts_with
find_pair prefix skip before [] = none
find_pair prefix (suc skip) before (c ∷ cs) = find_pair prefix skip (some c) cs
find_pair prefix zero before (c ∷ cs) =
    let passed = find_pair prefix (length prefix - 1) (some c) cs in
    let next = find_pair prefix 0 (some c) cs in
    if not (starts_with prefix (c ∷ cs))
    then next
    else if begins_pair before
    then some (drop (length prefix) (c ∷ cs))
    else passed

-- `strpbrk(p, ";\r\n")`
abbrev pub ends_value : ℕ → Bool
ends_value c = (c == semicolon) || (c == 13) || (c == 10)

unfoldable pub value_of : List ℕ → List ℕ
value_of [] = []
value_of (c ∷ cs) = if ends_value c then [] else c ∷ value_of cs

-- extract_cookie_value: `header` is the value of the header Cookie, `none` where there is none or it cannot be had, and
-- `cap` the size of the buffer
unfoldable pub extract_cookie_value : Option (List ℕ) → List ℕ → ℕ → Option (List ℕ)
unfolding find_pair value_of
extract_cookie_value none name cap = none
extract_cookie_value (some header) name cap =
    if (length header == 0) || not (ltb (length header) 1024)
    then none
    else if not (ltb (length name + 1) 64)
    then none
    else elim (find_pair (name ++ codes "=") 0 none header) [
      | none ↦ none
      | some rest ↦ if ltb (length (value_of rest)) cap then some (value_of rest) else none
    ]

-- is_authed
unfoldable pub is_authed : Option (List ℕ) → List Slot → ℕ → Bool
unfolding extract_cookie_value
is_authed header slots now = elim (extract_cookie_value header cookie_name token_len) [
  | none ↦ false
  | some token ↦ session_is_valid slots (some token) now
]
