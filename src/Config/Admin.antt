-- ===== src/Config/Admin.antt =====
-- The admin password and its blob in components/config/dd_config.c: what is set is what is verified and read.
use dingdong.Common.{
  is_ok-eq, not-ok, ℕ, ◌<◌, ◌≡◌, refl, sym, ap, ◌∙◌, true, some, List, length, get_or, ◌==◌, Err,
  is_ok, ◌≢◌, All, arith, Bool-cases, inl, inr,
}
use mathlib.Core.Path.{subst}
use dingdong.Nvs.{Nvs, KeepsBlobs, readonly, readwrite}
use dingdong.Config.{
  Psa, ns, key_admin_salt, key_admin_hash, admin_salt_len, admin_hash_len, pbkdf2, two_sets,
  blob_of, diff_loop, set_admin_password, verify_admin_password, get_admin_blob, set_admin_blob,
  has_admin,
}
use dingdong.Config.Compare.{diff_loop-zero}

-- The library derives as many bytes as it is asked for.
pub record GivesBytes (psa : Psa) : Type 0 where
  pub output-bytes :
      (password salt : List ℕ) (iters n : ℕ) (out : List ℕ)
      → psa.output password salt iters n ≡ some out
      → (length out ≡ n) × All (λ b. b < 256) out

pub two_sets-ok :
    {S : Type 0} (nvs : Nvs S) (first second : S → Err × S) (s : S)
    → (two_sets nvs first second s).0 ≡ Err.ok
    → ((first s).0 ≡ Err.ok)
      × ((second (first s).1).0 ≡ Err.ok)
      × ((two_sets nvs first second s).1 ≡ (nvs.commit ns (second (first s).1).1).1)
two_sets-ok nvs first second s = elim (Bool-cases (is_ok (first s).0)) [
  | inr failed ↦ rw failed (λ e. absurd (not-ok (first s).0 failed e))
  | inl one ↦ rw one (elim (Bool-cases (is_ok (second (first s).1).0)) [
    | inr failed ↦ rw failed (λ e. absurd (not-ok (second (first s).1).0 failed e))
    | inl two ↦ rw two (λ e. (is_ok-eq _ one, is_ok-eq _ two, refl))
  ])
]

pbkdf2-output :
    (psa : Psa) (password salt out : List ℕ) (n : ℕ)
    → pbkdf2 psa password salt n ≡ (Err.ok, out)
    → psa.output password salt 20000 n ≡ some out
unfolding pbkdf2
pbkdf2-output psa password salt out n e = ground (arith, e)

blob_of-read :
    {S : Type 0} (nvs : Nvs S) (size : ℕ) (key : List ℕ) (s : S) (v : List ℕ)
    → nvs.get_blob ns key s ≡ (Err.ok, v)
    → length v ≡ size
    → blob_of nvs size key s ≡ some v
blob_of-read nvs size key s v read n =
    let whole : (length v == size) ≡ true = ground arith in rw (read, whole) refl

keys_differ : key_admin_hash ≢ key_admin_salt
keys_differ e = let c = ap (λ (l : List ℕ). get_or l 6 0) e in omega arith

-- Both blobs after a set of both that succeeded.
blobs_set :
    {S : Type 0} (nvs : Nvs S) (salt hash : List ℕ) (s : S)
    → KeepsBlobs nvs
    → length salt ≡ admin_salt_len
    → length hash ≡ admin_hash_len
    → let (e, s') =
        two_sets nvs
          (nvs.set_blob ns key_admin_salt salt)
          (nvs.set_blob ns key_admin_hash hash)
          s in
      e ≡ Err.ok
      → (blob_of nvs admin_salt_len key_admin_salt s' ≡ some salt)
        × (blob_of nvs admin_hash_len key_admin_hash s' ≡ some hash)
        × (nvs.get_blob ns key_admin_hash s' ≡ (Err.ok, hash))
blobs_set nvs salt hash s keeps n16 n32 ok =
    let (first, second, made) =
      two_sets-ok nvs (nvs.set_blob ns key_admin_salt salt) (nvs.set_blob ns key_admin_hash hash) s
        ok in
    let s1 = (nvs.set_blob ns key_admin_salt salt s).1 in
    let s2 = (nvs.set_blob ns key_admin_hash hash s1).1 in
    let its_salt =
      keeps.get_blob-commit ns key_admin_salt s2
      ∙ keeps.get_blob-set_blob_ne ns key_admin_salt key_admin_hash hash s1 keys_differ
      ∙ keeps.get_blob-set_blob ns key_admin_salt salt s first in
    let its_hash =
      keeps.get_blob-commit ns key_admin_hash s2
      ∙ keeps.get_blob-set_blob ns key_admin_hash hash s1 second in
    rw made (
      blob_of-read nvs admin_salt_len key_admin_salt (nvs.commit ns s2).1 salt its_salt n16,
      blob_of-read nvs admin_hash_len key_admin_hash (nvs.commit ns s2).1 hash its_hash n32,
      its_hash,
    )

module _ {S : Type 0} (nvs : Nvs S) where
  set_admin_blob-both :
      (s : S) (salt hash : List ℕ)
      → (set_admin_blob nvs salt hash s).0 ≡ Err.ok
      → set_admin_blob nvs salt hash s
        ≡ two_sets nvs (nvs.set_blob ns key_admin_salt salt) (nvs.set_blob ns key_admin_hash hash) s
  unfolding set_admin_blob
  set_admin_blob-both s salt hash = elim (Bool-cases (is_ok (nvs.opens readwrite ns s))) [
    | inl opened ↦ rw opened (λ e. refl)
    | inr refused ↦ rw refused (λ e. absurd (not-ok (nvs.opens readwrite ns s) refused e))
  ]

  set_admin_password-both :
      (psa : Psa) (s : S) (password salt hash : List ℕ)
      → pbkdf2 psa password salt admin_hash_len ≡ (Err.ok, hash)
      → (set_admin_password nvs psa (some password) salt s).0 ≡ Err.ok
      → set_admin_password nvs psa (some password) salt s
        ≡ two_sets nvs (nvs.set_blob ns key_admin_salt salt) (nvs.set_blob ns key_admin_hash hash) s
  unfolding set_admin_password
  set_admin_password-both psa s password salt hash hashed =
      rw (set_admin_password, hashed)
        (elim (Bool-cases (length password == 0)) [
          | inl empty ↦ rw empty (λ e. absurd (not-ok Err.invalid_arg refl e))
          | inr given ↦ rw given (elim (Bool-cases (is_ok (nvs.opens readwrite ns s))) [
            | inl opened ↦ rw opened (λ e. refl)
            | inr refused ↦ rw refused (λ e. absurd (not-ok (nvs.opens readwrite ns s) refused e))
          ])
        ])

  get_admin_blob-read :
      (s : S) (salt hash : List ℕ)
      → blob_of nvs admin_salt_len key_admin_salt s ≡ some salt
      → blob_of nvs admin_hash_len key_admin_hash s ≡ some hash
      → nvs.opens readonly ns s ≡ Err.ok
      → get_admin_blob nvs s ≡ (Err.ok, salt, hash)
  unfolding get_admin_blob
  get_admin_blob-read s salt hash its_salt its_hash opened =
      rw (get_admin_blob, opened, its_salt, its_hash) refl

  verify_admin_password-read :
      (psa : Psa) (s : S) (tried salt hash got : List ℕ)
      → blob_of nvs admin_salt_len key_admin_salt s ≡ some salt
      → blob_of nvs admin_hash_len key_admin_hash s ≡ some hash
      → nvs.opens readonly ns s ≡ Err.ok
      → pbkdf2 psa tried salt admin_hash_len ≡ (Err.ok, got)
      → verify_admin_password nvs psa (some tried) s ≡ (Err.ok, diff_loop 0 hash got == 0)
  unfolding verify_admin_password
  verify_admin_password-read psa s tried salt hash got its_salt its_hash opened derived =
      rw (verify_admin_password, opened, its_salt, its_hash, derived) refl

  has_admin-read :
      (s : S) (hash : List ℕ)
      → nvs.get_blob ns key_admin_hash s ≡ (Err.ok, hash)
      → length hash ≡ admin_hash_len
      → nvs.opens readonly ns s ≡ Err.ok
      → has_admin nvs s ≡ true
  unfolding has_admin
  has_admin-read s hash read n opened =
      let whole : (length hash == admin_hash_len) ≡ true = ground arith in
      rw (opened, read, whole) refl

-- A password that was set with success, with its salt and hash, then any password tried against it
-- whose hash could be derived: the check succeeds, and its answer is yes just where the two hashes are the same.
pub verify_admin_password-set :
    {S : Type 0} (nvs : Nvs S) (psa : Psa) (s : S) (password tried salt hash got : List ℕ)
    → KeepsBlobs nvs
    → GivesBytes psa
    → length salt ≡ admin_salt_len
    → pbkdf2 psa password salt admin_hash_len ≡ (Err.ok, hash)
    → pbkdf2 psa tried salt admin_hash_len ≡ (Err.ok, got)
    → (set_admin_password nvs psa (some password) salt s).0 ≡ Err.ok
    → let s' = (set_admin_password nvs psa (some password) salt s).1 in
      nvs.opens readonly ns s' ≡ Err.ok
      → let (e, accepted) = verify_admin_password nvs psa (some tried) s' in
        (e ≡ Err.ok) × (accepted ≡ true → hash ≡ got) × (hash ≡ got → accepted ≡ true)
verify_admin_password-set nvs psa s password tried salt hash got keeps gives n16 hashed derived ok
      opened =
    let same = set_admin_password-both nvs psa s password salt hash hashed ok in
    let (n32, hash_bytes) =
      gives.output-bytes password salt 20000 admin_hash_len hash
        (pbkdf2-output psa password salt hash admin_hash_len hashed) in
    let (m32, got_bytes) =
      gives.output-bytes tried salt 20000 admin_hash_len got
        (pbkdf2-output psa tried salt got admin_hash_len derived) in
    let blobs =
      blobs_set nvs salt hash s keeps n16 n32 (ap (λ (r : Err × _). r.0) (sym same) ∙ ok) in
    let s' =
      (two_sets nvs (nvs.set_blob ns key_admin_salt salt) (nvs.set_blob ns key_admin_hash hash)
        s).1 in
    let opens' : nvs.opens readonly ns s' ≡ Err.ok =
      subst (λ r. nvs.opens readonly ns r.1 ≡ Err.ok) same opened in
    let (to, from) = diff_loop-zero 0 hash got (omega arith) hash_bytes got_bytes (n32 ∙ sym m32) in
    rw
      (
        same,
        verify_admin_password-read nvs psa s' tried salt hash got blobs.0 blobs.1 opens' derived,
      )
      (
        refl,
        λ accepted. (to (ground (arith, accepted))).1,
        λ e. let none_differ = from refl e in ground (arith, none_differ),
      )

-- A blob that was set with success is the one read back, wherever the namespace opens, and an admin
-- password counts as set.
pub get_admin_blob-set :
    {S : Type 0} (nvs : Nvs S) (s : S) (salt hash : List ℕ)
    → KeepsBlobs nvs
    → length salt ≡ admin_salt_len
    → length hash ≡ admin_hash_len
    → (set_admin_blob nvs salt hash s).0 ≡ Err.ok
    → nvs.opens readonly ns (set_admin_blob nvs salt hash s).1 ≡ Err.ok
    → (get_admin_blob nvs (set_admin_blob nvs salt hash s).1 ≡ (Err.ok, salt, hash))
      × (has_admin nvs (set_admin_blob nvs salt hash s).1 ≡ true)
get_admin_blob-set nvs s salt hash keeps n16 n32 ok opened =
    let same = set_admin_blob-both nvs s salt hash ok in
    let blobs =
      blobs_set nvs salt hash s keeps n16 n32 (ap (λ (r : Err × _). r.0) (sym same) ∙ ok) in
    let s' =
      (two_sets nvs (nvs.set_blob ns key_admin_salt salt) (nvs.set_blob ns key_admin_hash hash)
        s).1 in
    let opens' : nvs.opens readonly ns s' ≡ Err.ok =
      subst (λ r. nvs.opens readonly ns r.1 ≡ Err.ok) same opened in
    rw same (
      get_admin_blob-read nvs s' salt hash blobs.0 blobs.1 opens',
      has_admin-read nvs s' hash blobs.2 n32 opens',
    )
