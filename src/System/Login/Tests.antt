-- ===== src/System/Login/Tests.antt =====
-- The login, the logout and the change of the password over a store in memory.
use dingdong.Common.{
  ℕ, ◌%◌, ◌⊎◌, ◌≡◌, ◌≢◌, refl, true, false, none, some, Option, List, [], ◌∷◌, ◌++◌, length,
  replicate, codes, arith, bytes_eq, Err, inl, inr, get_or, ap,
}
use dingdong.Nvs.Memory.{Entry, memory}
use dingdong.Config.{Psa, ns, has_admin, verify_admin_password, key_admin_salt, key_admin_hash}
use dingdong.Session.{empty_slot, token_len, session_is_valid}
use dingdong.Session.Valid.{IsValid}
use dingdong.Session.Destroy.{Distinct}
use dingdong.Http.{is_authed, cookie_name, extract_cookie_value}
use dingdong.System.{Site}
use dingdong.System.Login.{auth_login_post, auth_logout_post, auth_change_password_post}
use dingdong.System.Login.Opens.{sent_back, auth_login_post-opens}
use dingdong.System.Login.Closes.{
  Changed, Refused, auth_logout_post-closes, auth_change_password_post-cases,
}

-- A derivation that gives the length of the password.
abbrev psa : Psa
psa = record {
  setup = true;
  input_cost = λ n. true;
  input_salt = λ salt. true;
  input_password = λ password. true;
  output = λ password salt iters n. some (replicate n (length password % 256));
}

-- A device whose admin password has nine characters.
abbrev flash : List Entry
flash =
    record { ns = ns; key = key_admin_salt; value = replicate 16 1 }
    ∷ record { ns = ns; key = key_admin_hash; value = replicate 32 9 }
    ∷ []

abbrev token : List ℕ
token = replicate 64 b'a'

abbrev site : Site (List Entry)
site = record {
  sessions =
      record { token = token ++ (0 ∷ []); expires = 100 }
      ∷ empty_slot
      ∷ empty_slot
      ∷ empty_slot
      ∷ [];
  flash = flash;
  store = record { events = none; tmp = none; event_count = 0 };
}

site-IsValid : IsValid site.sessions
site-IsValid = record { size = refl; bounded = omega arith }

admin : has_admin memory flash ≡ true
unfolding has_admin bytes_eq
admin = refl

checked : verify_admin_password memory psa (some (codes "ninechars")) flash ≡ (Err.ok, true)
unfolding verify_admin_password bytes_eq
checked = refl

auth_login_post-opens_example :
    let (reply, header, site') =
      auth_login_post memory psa (some (some (codes "ninechars"))) (replicate 32 7) 10 site in
    (true ≡ true → (reply.status ≡ 200) × (is_authed (sent_back header) site'.sessions 20 ≡ true))
    × (true ≡ false → (reply.status ≡ 401) × (site' ≡ site))
auth_login_post-opens_example =
    auth_login_post-opens memory psa (codes "ninechars") (replicate 32 7) 10 20 site true
      site-IsValid refl (omega arith) admin checked

abbrev header : Option (List ℕ)
header = some (cookie_name ++ (codes "=" ++ token))

read : extract_cookie_value header cookie_name token_len ≡ some token
unfolding extract_cookie_value
read = refl

distinct : Distinct site.sessions
distinct = (
  (inr (inl refl), (inr (inl refl), (inr (inl refl), tt))),
  ((inr (inl refl), (inr (inl refl), tt)), ((inl refl, tt), (tt, tt))),
)

tokens_differ : token ≢ replicate 64 b'b'
tokens_differ e = let c = ap (λ (l : List ℕ). get_or l 0 0) e in omega arith

auth_logout_post-closes_example :
    let (reply, cookie, site') = auth_logout_post memory psa header site in
    (is_authed header site'.sessions 50 ≡ false)
    × (session_is_valid site'.sessions (some (replicate 64 b'b')) 50
        ≡ session_is_valid site.sessions (some (replicate 64 b'b')) 50)
    × (site'.flash ≡ site.flash)
    × (site'.store ≡ site.store)
auth_logout_post-closes_example =
    auth_logout_post-closes memory psa header token (replicate 64 b'b') 50 site distinct read refl
      tokens_differ

auth_change_password_post-cases_example :
    let answer =
      auth_change_password_post memory psa header
        (some (some (codes "ninechars", codes "new password")))
        (replicate 16 2)
        50
        site in
    ((is_authed header site.sessions 50 ≡ true)
      × ((old : List ℕ) × (new : List ℕ) × (◌≡◌ {A = Option (Option (List ℕ × List ℕ))}
            (some (some (codes "ninechars", codes "new password")))
            (some (some (old, new))))
          × Changed memory psa old new (replicate 16 2) site answer))
    ⊎ Refused memory psa site answer
auth_change_password_post-cases_example =
    auth_change_password_post-cases memory psa header
      (some (some (codes "ninechars", codes "new password"))) (replicate 16 2) 50 site
