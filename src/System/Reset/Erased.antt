-- ===== src/System/Reset/Erased.antt =====
-- The factory reset of components/http_app/dd_http_system.c: who can do it, and what becomes of the log.
use dingdong.Common.{
  ℕ, ◌≡◌, ◌≢◌, refl, ap, true, false, Option, none, some, List, [], Bool-cases, inl, inr, ◌⊎◌,
  codes, bytes_eq-cases,
}
use dingdong.Nvs.{Nvs}
use dingdong.Storage.{Store, Unlink, event_wipe}
use dingdong.Storage.Files.{Holds}
use dingdong.Http.{is_authed}
use dingdong.System.{Site}
use dingdong.System.Reset.{reset_device, factory_reset_post}

-- What unlink says agrees with whether there is a file.
abbrev pub Agrees : Unlink → Store → Type 0
Agrees unlink store = unlink ≡ Unlink.missing → store.events ≡ none

event_wipe-Holds :
    (unlink : Unlink) (store : Store)
    → unlink ≢ Unlink.refused
    → Agrees unlink store
    → Holds (event_wipe unlink store).1 []
unfolding event_wipe
event_wipe-Holds Unlink.removed store ok agrees = record { file = refl; count = refl; good = tt }
event_wipe-Holds Unlink.missing store ok agrees =
    let none_there = agrees refl in record { file = rw none_there refl; count = refl; good = tt }
event_wipe-Holds Unlink.refused store ok agrees = absurd (ok refl)

module _ {S : Type 0} (nvs : Nvs S) where
  -- Whatever the request is, a restart is scheduled only for one that is let in and confirms with the word FACTORY_RESET; then
  -- the log has no events. Where none is scheduled, nothing has changed. The file system does not refuse to remove the log, and finds
  -- no file only where there is none.
  pub factory_reset_post-erases :
      (header : Option (List ℕ)) (body : Option (Option (List ℕ))) (now : ℕ) (unlink : Unlink)
      (site : Site S)
      → unlink ≢ Unlink.refused
      → Agrees unlink site.store
      → let (reply, restarts, site') = factory_reset_post nvs header body now unlink site in
        ((restarts ≡ true)
          × (is_authed header site.sessions now ≡ true)
          × (body ≡ some (some (codes "FACTORY_RESET")))
          × Holds site'.store [])
        ⊎ ((restarts ≡ false) × (site' ≡ site))
  unfolding factory_reset_post reset_device
  factory_reset_post-erases header none now unlink site ok agrees =
      elim (Bool-cases (is_authed header site.sessions now)) [
        | inl authed ↦ rw authed (inr (refl, refl))
        | inr stranger ↦ rw stranger (inr (refl, refl))
      ]
  factory_reset_post-erases header (some none) now unlink site ok agrees =
      elim (Bool-cases (is_authed header site.sessions now)) [
        | inl authed ↦ rw authed (inr (refl, refl))
        | inr stranger ↦ rw stranger (inr (refl, refl))
      ]
  factory_reset_post-erases header (some (some word)) now unlink site ok agrees =
      elim (Bool-cases (is_authed header site.sessions now)) [
        | inr stranger ↦ rw stranger (inr (refl, refl))
        | inl authed ↦ elim (bytes_eq-cases word (codes "FACTORY_RESET")) [
          | inr (other, _) ↦ rw (authed, other) (inr (refl, refl))
          | inl (confirmed, same) ↦
              rw (authed, confirmed)
                (inl (
                  refl,
                  refl,
                  ap (λ w. some (some w)) same,
                  event_wipe-Holds unlink site.store ok agrees,
                ))
        ]
      ]
