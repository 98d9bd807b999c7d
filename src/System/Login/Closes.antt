-- ===== src/System/Login/Closes.antt =====
-- The logout and the change of the password in components/http_app/dd_http_system.c: which sessions they end.
use dingdong.Common.{
  Bool, true, none, ℕ, ◌≡◌, ◌≢◌, refl, sym, false, not, ◌||◌, Option, some, List, length, ltb,
  arith, Err, is_ok, Bool-cases, inl, inr, ◌⊎◌,
}
use mathlib.Core.Path.{subst}
use dingdong.Nvs.{Nvs}
use dingdong.Config.{Psa, set_admin_password, verify_admin_password}
use dingdong.Session.{session_is_valid, session_destroy, token_len}
use dingdong.Session.Destroy.{Distinct, session_destroy_lem, session_destroy_all_lem}
use dingdong.Http.{extract_cookie_value, is_authed, cookie_name}
use dingdong.System.{Site}
use dingdong.System.Login.{auth_logout_post, auth_change_password_post, change_password, Answer}

module _ {S : Type 0} (nvs : Nvs S) (psa : Psa) where
  logout-destroys :
      (header : Option (List ℕ)) (token : List ℕ) (site : Site S)
      → extract_cookie_value header cookie_name token_len ≡ some token
      → (auth_logout_post nvs psa header site).2
        ≡ record site { sessions = session_destroy site.sessions (some token) }
  unfolding auth_logout_post
  logout-destroys header token site read = rw (read, auth_logout_post) refl

  -- A logout whose cookie header has a token of 64 characters, over a table of distinct tokens, lets no request with its cookie header in afterwards, and every
  -- other token stays as valid, or invalid, as it was. The settings and the log stay.
  pub auth_logout_post-closes :
      (header : Option (List ℕ)) (token other : List ℕ) (now : ℕ) (site : Site S)
      → Distinct site.sessions
      → extract_cookie_value header cookie_name token_len ≡ some token
      → length token ≡ 64
      → token ≢ other
      → let (reply, cookie, site') = auth_logout_post nvs psa header site in
        (is_authed header site'.sessions now ≡ false)
        × (session_is_valid site'.sessions (some other) now
            ≡ session_is_valid site.sessions (some other) now)
        × (site'.flash ≡ site.flash)
        × (site'.store ≡ site.store)
  unfolding is_authed
  auth_logout_post-closes header token other now site distinct read long ne =
      let (gone, others) = session_destroy_lem site.sessions token other now distinct long ne in
      let closed : is_authed header (session_destroy site.sessions (some token)) now ≡ false =
        rw (read, is_authed) gone in
      subst
        (λ (left : Site S).
          (is_authed header left.sessions now ≡ false)
          × (session_is_valid left.sessions (some other) now
              ≡ session_is_valid site.sessions (some other) now)
          × (left.flash ≡ site.flash)
          × (left.store ≡ site.store))
        (sym (logout-destroys header token site read)) (closed, others, refl, refl)

  -- An answer that leaves the sessions as they were, and is not 200.
  abbrev pub Refused : Site S → Answer S → Type 0
  Refused site (reply, cookie, site') = (reply.status ≢ 200) × (site'.sessions ≡ site.sessions)

  -- An answer of 200 for these passwords: the old one was right, the new one is stored over the settings, and no session is left.
  abbrev pub Changed : List ℕ → List ℕ → List ℕ → Site S → Answer S → Type 0
  Changed old new salt site (reply, cookie, site') =
      (reply.status ≡ 200)
      × (verify_admin_password nvs psa (some old) site.flash ≡ (Err.ok, true))
      × (set_admin_password nvs psa (some new) salt site.flash ≡ (Err.ok, site'.flash))
      × ((token : List ℕ) (later : ℕ) → session_is_valid site'.sessions (some token) later ≡ false)

  right_cases : (r : Err × Bool) → (not (is_ok r.0) || not r.1) ≡ false → r ≡ (Err.ok, true)
  right_cases (Err.ok, true) h = refl
  right_cases (Err.ok, false) h = absurd cc
  right_cases (e, ok) h = absurd cc

  set_cases : (r : Err × S) → (is_ok r.0 ≡ false) ⊎ (r ≡ (Err.ok, r.1))
  set_cases (Err.ok, flash) = inr refl
  set_cases (e, flash) = inl refl

  change_password-cases :
      (old new salt : List ℕ) (site : Site S)
      → Changed old new salt site (change_password nvs psa old new salt site)
        ⊎ Refused site (change_password nvs psa old new salt site)
  unfolding change_password
  change_password-cases old new salt site =
      let (err, ok) = verify_admin_password nvs psa (some old) site.flash in
      let set = set_admin_password nvs psa (some new) salt site.flash in
      elim (Bool-cases (ltb (length new) 8)) [
        | inl short ↦ rw short (inr ((λ h. omega arith), refl))
        | inr long ↦ elim (Bool-cases (not (is_ok err) || not ok)) [
          | inl wrong ↦ rw (long, wrong) (inr ((λ h. omega arith), refl))
          | inr right ↦ elim (set_cases set) [
            | inl failed ↦ rw (long, right, failed) (inr ((λ h. omega arith), refl))
            | inr stored ↦
                rw (long, right, stored)
                  (inl (
                    refl,
                    right_cases (verify_admin_password nvs psa (some old) site.flash) right,
                    refl,
                    (λ token later. (session_destroy_all_lem site.sessions token later).0),
                  ))
          ]
        ]
      ]

  -- Whatever the request is, a change of the password is answered with 200 only where the request was let in and gives the right old password; then the
  -- new password is stored over the settings and no token of any session is valid any more. With any other answer the sessions are those before.
  pub auth_change_password_post-cases :
      (header : Option (List ℕ)) (body : Option (Option (List ℕ × List ℕ))) (salt : List ℕ)
      (now : ℕ) (site : Site S)
      → let answer = auth_change_password_post nvs psa header body salt now site in
        ((is_authed header site.sessions now ≡ true)
          × ((old : List ℕ) × (new : List ℕ) × (body ≡ some (some (old, new)))
              × Changed old new salt site answer))
        ⊎ Refused site answer
  unfolding auth_change_password_post
  auth_change_password_post-cases header none salt now site =
      elim (Bool-cases (is_authed header site.sessions now)) [
        | inr stranger ↦ rw stranger (inr ((λ h. omega arith), refl))
        | inl authed ↦ rw authed (inr ((λ h. omega arith), refl))
      ]
  auth_change_password_post-cases header (some none) salt now site =
      elim (Bool-cases (is_authed header site.sessions now)) [
        | inr stranger ↦ rw stranger (inr ((λ h. omega arith), refl))
        | inl authed ↦ rw authed (inr ((λ h. omega arith), refl))
      ]
  auth_change_password_post-cases header (some (some (old, new))) salt now site =
      elim (Bool-cases (is_authed header site.sessions now)) [
        | inr stranger ↦ rw stranger (inr ((λ h. omega arith), refl))
        | inl authed ↦ rw authed (elim (change_password-cases old new salt site) [
          | inl changed ↦ inl (refl, (old, new, refl, changed))
          | inr refused ↦ inr refused
        ])
      ]
