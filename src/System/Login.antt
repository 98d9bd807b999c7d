-- ===== src/System/Login.antt =====
-- The login, the logout and the change of the password in components/http_app/dd_http_system.c.
pub mod Opens
pub mod Closes
mod Tests
use dingdong.Common.{
  ℕ, ◌+◌, ◌-◌, Bool, true, false, not, ◌&&◌, ◌||◌, Option, none, some, List, [], ◌∷◌, ◌++◌, length,
  take, ltb, leb, ◌==◌, if◌then◌else◌, Err, is_ok, codes,
}
use dingdong.Nvs.{Nvs}
use dingdong.Config.{Psa, has_admin, set_admin_password, verify_admin_password}
use dingdong.Session.{Slot, session_create, session_destroy, session_destroy_all, token_len}
use dingdong.Http.{Reply, reply_text, extract_cookie_value, cookie_name, is_authed}
use dingdong.System.{Site}

-- The header Set-Cookie of a login and of a logout, cut to its buffer of 160 bytes.
abbrev pub set_cookie : List ℕ → List ℕ
set_cookie token = take 159 (
    cookie_name
    ++ (codes "=" ++ (token ++ codes "; Path=/; HttpOnly; SameSite=Lax; Max-Age=604800")))

abbrev pub clear_cookie : List ℕ
clear_cookie = cookie_name ++ codes "=; Path=/; HttpOnly; Max-Age=0"

-- What a handler gives: the reply, the header Set-Cookie if it sends one, and the site after it.
abbrev pub Answer : Type 0 → Type 0
Answer S = Reply × Option (List ℕ) × Site S

abbrev pub refuse : {S : Type 0} → ℕ → List ℕ → Site S → Answer S
refuse status text site = (reply_text status text, none, site)

module _ {S : Type 0} (nvs : Nvs S) (psa : Psa) where
  -- The part of auth_login_post behind the check of the password. `bytes` are those that esp_fill_random gives; what is printed of the
  -- token is its 64 characters in front of the NUL.
  unfoldable pub open_session : List ℕ → ℕ → Site S → Answer S
  open_session bytes now site =
      let (err, tok, slots) = session_create site.sessions bytes now true token_len in
      if not (is_ok err)
      then refuse 500 (codes "session alloc failed") (record site { sessions = slots })
      else (
        reply_text 200 (codes "ok"),
        some (set_cookie (take (token_len - 1) tok)),
        record site { sessions = slots },
      )

  -- auth_login_post: `body` is the parsed body, `none` where it is no JSON, and in it the password if it is a string
  unfoldable pub auth_login_post : Option (Option (List ℕ)) → List ℕ → ℕ → Site S → Answer S
  unfolding has_admin verify_admin_password open_session
  auth_login_post body bytes now site =
      if not (has_admin nvs site.flash)
      then refuse 409 (codes "no admin set; use /api/setup first") site
      else elim body [
        | none ↦ refuse 400 (codes "bad json") site
        | some none ↦ refuse 400 (codes "password required") site
        | some (some pw) ↦
            let (err, ok) = verify_admin_password nvs psa (some pw) site.flash in
            if not (is_ok err)
            then refuse 500 (codes "verify failed") site
            else if not ok
            then refuse 401 (codes "bad password") site
            else open_session bytes now site
      ]

  -- auth_logout_post
  unfoldable pub auth_logout_post : Option (List ℕ) → Site S → Answer S
  unfolding extract_cookie_value
  auth_logout_post header site = (
    reply_text 200 (codes "ok"),
    some clear_cookie,
    elim (extract_cookie_value header cookie_name token_len) [
      | none ↦ site
      | some token ↦ record site { sessions = session_destroy site.sessions (some token) }
    ],
  )

  -- The part of auth_change_password_post behind the reading of the two passwords.
  unfoldable pub change_password : List ℕ → List ℕ → List ℕ → Site S → Answer S
  unfolding verify_admin_password set_admin_password
  change_password old new salt site =
      let (err, ok) = verify_admin_password nvs psa (some old) site.flash in
      let (e_set, flash) = set_admin_password nvs psa (some new) salt site.flash in
      if ltb (length new) 8
      then refuse 400 (codes "new password too short") site
      else if not (is_ok err) || not ok
      then refuse 401 (codes "old password wrong") site
      else if not (is_ok e_set)
      then refuse 500 (codes "set failed") (record site { flash = flash })
      else (
        reply_text 200 (codes "password changed; all sessions revoked"),
        none,
        record site { flash = flash; sessions = session_destroy_all site.sessions },
      )

  -- auth_change_password_post: `header` is the cookie header, `salt` what esp_fill_random gives, and in the parsed body
  -- the two passwords, if both are strings
  unfoldable pub auth_change_password_post :
      Option (List ℕ) → Option (Option (List ℕ × List ℕ)) → List ℕ → ℕ → Site S → Answer S
  unfolding is_authed change_password
  auth_change_password_post header body salt now site =
      if not (is_authed header site.sessions now)
      then refuse 401 (codes "auth required") site
      else elim body [
        | none ↦ refuse 400 (codes "bad json") site
        | some none ↦ refuse 400 (codes "old_password + new_password required") site
        | some (some (old, new)) ↦ change_password old new salt site
      ]
