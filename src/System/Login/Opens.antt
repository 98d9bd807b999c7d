-- ===== src/System/Login/Opens.antt =====
-- The login in components/http_app/dd_http_system.c, up to the request that sends its cookie back.
use dingdong.Common.{
  ℕ, ◌+◌, ◌<◌, ◌≡◌, refl, sym, ap, ◌∙◌, Bool, true, false, Option, none, some, List, [], ◌++◌,
  length, take, arith, codes, length-append, take-all, Err, append-nil,
}
use dingdong.Nvs.{Nvs}
use dingdong.Config.{Psa, has_admin, verify_admin_password}
use dingdong.Session.{Slot, session_create, token_len, ttl_usec, hex_encode}
use dingdong.Session.Valid.{IsValid, cookie, length-cookie, session_create-evicts}
use dingdong.Http.{value_of, is_authed, cookie_name}
use dingdong.Http.Cookie.{value_of-append}
use dingdong.Http.Guard.{Plain, hex_encode-Plain, Plain-take, is_authed-create}
use dingdong.System.{Site}
use dingdong.System.Login.{set_cookie, auth_login_post, open_session}

-- What a browser keeps of the header: the text in front of the first semicolon.
value_of-set_cookie :
    (token : List ℕ)
    → length token ≡ 64
    → Plain token
    → value_of (set_cookie token) ≡ cookie_name ++ (codes "=" ++ token)
unfolding value_of
value_of-set_cookie token long plain =
    let attributes = codes "; Path=/; HttpOnly; SameSite=Lax; Max-Age=604800" in
    let whole : take 148 (token ++ attributes) ≡ token ++ attributes =
      take-all 148 (token ++ attributes) (omega (arith, length-append token attributes, long)) in
    ap (λ v. cookie_name ++ (codes "=" ++ v))
      (ap value_of whole ∙ value_of-append token attributes plain refl)

-- The cookie header that comes back.
abbrev pub sent_back : Option (List ℕ) → Option (List ℕ)
sent_back none = none
sent_back (some header) = some (value_of header)

module _ {S : Type 0} (nvs : Nvs S) (psa : Psa) where
  no_rest : value_of [] ≡ []
  unfolding value_of
  no_rest = refl

  open_session-opens :
      (bytes : List ℕ) (now later : ℕ) (site : Site S)
      → IsValid site.sessions
      → length bytes ≡ 32
      → later < now + ttl_usec
      → let (reply, header, site') = open_session nvs psa bytes now site in
        (reply.status ≡ 200) × (is_authed (sent_back header) site'.sessions later ≡ true)
  unfolding open_session
  open_session-opens bytes now later site valid size lt =
      let (i, s, there, free, made) =
        session_create-evicts site.sessions bytes now token_len valid (omega arith) in
      let plain = Plain-take 64 (hex_encode bytes) (hex_encode-Plain bytes) in
      let long = length-cookie bytes size in
      let enters =
        is_authed-create site.sessions bytes [] [] now later valid size lt
          (omega (arith, long, length-append (cookie bytes) [])) tt refl no_rest in
      let back = value_of-set_cookie (cookie bytes) long plain in
      let header = cookie_name ++ (codes "=" ++ cookie bytes) in
      let whole : cookie_name ++ (codes "=" ++ (cookie bytes ++ [])) ≡ header =
        ap (λ t. cookie_name ++ (codes "=" ++ t)) (append-nil (cookie bytes)) in
      rw made (
        refl,
        ap
              (λ (r : Err × List ℕ × List Slot).
                is_authed (some (value_of (set_cookie (cookie bytes)))) r.2 later)
              (sym made)
            ∙ ap
                (λ h.
                  is_authed (some h) (session_create site.sessions bytes now true token_len).2
                    later)
                (back ∙ sym whole)
            ∙ enters,
      )

  -- With an admin password set, and a body with a password that could be checked: a right one is answered with 200 and a cookie, which a request
  -- that sends it back within seven days is let in by; a wrong one is answered with 401 and changes nothing. The table of
  -- sessions is well formed, and the token is made of 32 bytes.
  pub auth_login_post-opens :
      (pw bytes : List ℕ) (now later : ℕ) (site : Site S) (ok : Bool)
      → IsValid site.sessions
      → length bytes ≡ 32
      → later < now + ttl_usec
      → has_admin nvs site.flash ≡ true
      → verify_admin_password nvs psa (some pw) site.flash ≡ (Err.ok, ok)
      → let (reply, header, site') = auth_login_post nvs psa (some (some pw)) bytes now site in
        (ok ≡ true
          → (reply.status ≡ 200) × (is_authed (sent_back header) site'.sessions later ≡ true))
        × (ok ≡ false → (reply.status ≡ 401) × (site' ≡ site))
  unfolding auth_login_post
  auth_login_post-opens pw bytes now later site true valid size lt admin checked =
      rw (admin, checked)
        ((λ right. open_session-opens bytes now later site valid size lt), (λ wrong. absurd cc))
  auth_login_post-opens pw bytes now later site false valid size lt admin checked =
      rw (admin, checked) ((λ right. absurd cc), (λ wrong. (refl, refl)))
