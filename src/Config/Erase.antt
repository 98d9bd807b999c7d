-- ===== src/Config/Erase.antt =====
-- The factory reset of components/config/dd_config.c.
use dingdong.Common.{ℕ, not, List, [], ◌∷◌, if◌then◌else◌, Err, is_ok, codes}
use dingdong.Nvs.{Nvs, readwrite}
use dingdong.Config.{ns, is_missing}

module _ {S : Type 0} (nvs : Nvs S) where
  -- The loop of dd_config_factory_reset, with last_err so far.
  unfoldable pub reset_loop : List (List ℕ) → Err → S → Err × S
  reset_loop [] last s = (last, s)
  reset_loop (space ∷ spaces) last s =
      let err = nvs.opens readwrite space s in
      let (e1, s1) = nvs.erase_all space s in
      let (e2, s2) = nvs.commit space s1 in
      let skipped = reset_loop spaces last s in
      let unopened = reset_loop spaces err s in
      let unerased = reset_loop spaces e1 s1 in
      let erased = reset_loop spaces (if is_ok e2 then last else e2) s2 in
      if is_missing err
      then skipped
      else if not (is_ok err)
      then unopened
      else if not (is_ok e1)
      then unerased
      else erased

  -- dd_config_factory_reset
  unfoldable pub factory_reset : S → Err × S
  unfolding reset_loop
  factory_reset s = reset_loop (ns ∷ codes "led" ∷ codes "time" ∷ codes "presence" ∷ []) Err.ok s
