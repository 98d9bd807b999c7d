-- ===== src/Config/Reset.antt =====
-- The factory reset of components/config/dd_config.c: what is left in the NVS, and the boot mode.
use dingdong.Common.{
  not-ok, is_ok-eq, ℕ, ◌≡◌, refl, ap, ◌∙◌, true, List, [], ◌∷◌, Err, is_ok, All, Bool-cases, inl,
  inr, arith, if◌then◌else◌, codes,
}
use mathlib.Core.Path.{subst}
use dingdong.Nvs.{Nvs, Blank, Erases, readonly, readwrite}
use dingdong.Config.{ns, is_missing, boot_mode, BootMode, has_admin, key_admin_hash}
use dingdong.Config.Erase.{reset_loop, factory_reset}

missing-eq : (e : Err) → is_missing e ≡ true → e ≡ Err.nvs_not_found
missing-eq e h = ground (arith, h)

module _ {S : Type 0} (nvs : Nvs S) (laws : Erases nvs) where
  boot_mode-Blank : (s : S) → Blank nvs ns s → boot_mode nvs s ≡ BootMode.first_run
  unfolding boot_mode has_admin
  boot_mode-Blank s b =
      let absent = (b key_admin_hash).0 in
      elim (Bool-cases (is_ok (nvs.opens readonly ns s))) [
        | inl opened ↦ rw (opened, absent) refl
        | inr refused ↦ rw refused refl
      ]

  -- The loop leaves a blank namespace blank.
  reset_loop-keeps :
      (space : List ℕ) (spaces : List (List ℕ)) (last : Err) (s : S)
      → Blank nvs space s
      → Blank nvs space (reset_loop nvs spaces last s).1
  unfolding reset_loop
  reset_loop-keeps space [] last s b = b
  reset_loop-keeps space (x ∷ xs) last s b =
      let err = nvs.opens readwrite x s in
      let (e1, s1) = nvs.erase_all x s in
      let (e2, s2) = nvs.commit x s1 in
      let b1 = laws.erase_all-keeps space x s b in
      elim (Bool-cases (is_missing err)) [
        | inl missing ↦ rw missing (reset_loop-keeps space xs last s b)
        | inr there ↦ rw there (elim (Bool-cases (is_ok err)) [
          | inr refused ↦ rw refused (reset_loop-keeps space xs err s b)
          | inl opened ↦ rw opened (elim (Bool-cases (is_ok e1)) [
            | inr failed ↦ rw failed (reset_loop-keeps space xs e1 s1 b1)
            | inl erased ↦ rw erased (
                reset_loop-keeps space xs (if is_ok e2 then last else e2) s2
                  (laws.commit-keeps space x s1 b1))
          ])
        ])
      ]

  also-Blank :
      (x : List ℕ) (xs : List (List ℕ)) (last : Err) (s : S) (out : Err × S)
      → reset_loop nvs xs last s ≡ out
      → Blank nvs x s
      → (last ≡ Err.ok) × All (λ space. Blank nvs space (out.1)) xs
      → (last ≡ Err.ok) × All (λ space. Blank nvs space (out.1)) (x ∷ xs)
  also-Blank x xs last s out q b rest = (
    rest.0,
    (subst (λ (o : Err × S). Blank nvs x (o.1)) q (reset_loop-keeps x xs last s b), rest.1),
  )

  -- Where the loop reports success, no error came before and every namespace of it is blank.
  reset_loop-Blank :
      (spaces : List (List ℕ)) (last : Err) (s : S) (out : Err × S)
      → reset_loop nvs spaces last s ≡ out
      → out.0 ≡ Err.ok
      → (last ≡ Err.ok) × All (λ space. Blank nvs space (out.1)) spaces
  unfolding reset_loop
  reset_loop-Blank [] last s out = λ q e. (ap (λ (o : Err × S). o.0) q ∙ e, tt)
  reset_loop-Blank (x ∷ xs) last s out =
      let err = nvs.opens readwrite x s in
      let (e1, s1) = nvs.erase_all x s in
      let (e2, s2) = nvs.commit x s1 in
      elim (Bool-cases (is_missing err)) [
        | inl missing ↦
            let b = laws.opens-Blank x s (missing-eq err missing) in
            rw missing (λ q e. also-Blank x xs last s out q b (reset_loop-Blank xs last s out q e))
        | inr there ↦ rw there (elim (Bool-cases (is_ok err)) [
          | inr refused ↦
              rw refused (λ q e. absurd (not-ok err refused (reset_loop-Blank xs err s out q e).0))
          | inl opened ↦ rw opened (elim (Bool-cases (is_ok e1)) [
            | inr failed ↦
                rw failed (λ q e. absurd (not-ok e1 failed (reset_loop-Blank xs e1 s1 out q e).0))
            | inl erased ↦
                let b1 = laws.erase_all-Blank x s (is_ok-eq e1 erased) in
                let b2 = laws.commit-keeps x x s1 b1 in
                rw erased (elim (Bool-cases (is_ok e2)) [
                  | inr failed ↦
                      rw failed
                        (λ q e. absurd (not-ok e2 failed (reset_loop-Blank xs e2 s2 out q e).0))
                  | inl kept ↦ rw kept (λ q e.
                      also-Blank x xs last s2 out q b2 (reset_loop-Blank xs last s2 out q e))
                ])
          ])
        ])
      ]

  -- Over an NVS in which an erased namespace is blank and stays so: a factory reset that reports
  -- success leaves nothing in the namespaces of the settings, the LED, the clock and the presence
  -- table, and the boot mode is then that of the first run.
  pub factory_reset-Blank :
      (s : S)
      → (factory_reset nvs s).0 ≡ Err.ok
      → Blank nvs ns (factory_reset nvs s).1
        × Blank nvs (codes "led") (factory_reset nvs s).1
        × Blank nvs (codes "time") (factory_reset nvs s).1
        × Blank nvs (codes "presence") (factory_reset nvs s).1
        × (boot_mode nvs (factory_reset nvs s).1 ≡ BootMode.first_run)
  unfolding factory_reset
  factory_reset-Blank s e =
      let spaces = ns ∷ codes "led" ∷ codes "time" ∷ codes "presence" ∷ [] in
      let all = (reset_loop-Blank spaces Err.ok s (factory_reset nvs s) refl e).1 in
      (all.0, all.1.0, all.1.1.0, all.1.1.1.0, boot_mode-Blank (factory_reset nvs s).1 (all.0))
