-- ===== src/Nvs.antt =====
-- The key-value store of ESP-IDF (`nvs_open`, `nvs_get_*`, `nvs_set_*`, `nvs_erase_*`, `nvs_commit`),
-- which the components keep their settings in. It is no code of the repository: an implementation is an
-- argument, on a type `S` of flash contents, and what the code relies on is the record of laws.
pub mod Memory
use dingdong.Common.{
  Bool, is_ok, false, ◌≢◌, ℕ, ◌≡◌, ◌≢◌, Bool, Option, none, some, List, Err, ok, nvs_not_found,
}

pub data Mode : Type 0 where
  readonly readwrite : Mode

-- The type of a number under a key, as in `nvs_get_u16` and `nvs_set_i32`.
pub data Kind : Type 0 where
  u8 u16 u32 u64 i32 : Kind

-- The operations: the first two arguments of those on keys are the namespace and the key. A failed
-- read gives a value that the code does not use.
pub record Nvs (S : Type 0) : Type 0 where
  pub opens : Mode → List ℕ → S → Err
  pub get_num : Kind → List ℕ → List ℕ → S → Err × ℕ
  pub set_num : Kind → List ℕ → List ℕ → ℕ → S → Err × S
  pub get_blob : List ℕ → List ℕ → S → Err × List ℕ
  pub set_blob : List ℕ → List ℕ → List ℕ → S → Err × S
  pub get_str : List ℕ → List ℕ → S → Err × List ℕ
  pub set_str : List ℕ → List ℕ → List ℕ → S → Err × S
  pub erase_key : List ℕ → List ℕ → S → S
  pub erase_all : List ℕ → S → Err × S
  pub commit : List ℕ → S → Err × S

-- A blob that was set is read back, also over a commit and where another key of the namespace is set.
pub record KeepsBlobs {S : Type 0} (nvs : Nvs S) : Type 0 where
  pub get_blob-set_blob :
      (ns key v : List ℕ) (s : S)
      → (nvs.set_blob ns key v s).0 ≡ Err.ok
      → nvs.get_blob ns key (nvs.set_blob ns key v s).1 ≡ (Err.ok, v)
  pub get_blob-set_blob_ne :
      (ns key key' v : List ℕ) (s : S)
      → key' ≢ key
      → nvs.get_blob ns key (nvs.set_blob ns key' v s).1 ≡ nvs.get_blob ns key s
  pub get_blob-commit :
      (ns key : List ℕ) (s : S) → nvs.get_blob ns key (nvs.commit ns s).1 ≡ nvs.get_blob ns key s

-- The same of a string.
pub record KeepsStrings {S : Type 0} (nvs : Nvs S) : Type 0 where
  pub get_str-set_str :
      (ns key v : List ℕ) (s : S)
      → (nvs.set_str ns key v s).0 ≡ Err.ok
      → nvs.get_str ns key (nvs.set_str ns key v s).1 ≡ (Err.ok, v)
  pub get_str-set_str_ne :
      (ns key key' v : List ℕ) (s : S)
      → key' ≢ key
      → nvs.get_str ns key (nvs.set_str ns key' v s).1 ≡ nvs.get_str ns key s
  pub get_str-commit :
      (ns key : List ℕ) (s : S) → nvs.get_str ns key (nvs.commit ns s).1 ≡ nvs.get_str ns key s

-- The same of a number, and an erased one is not found.
pub record KeepsNumbers {S : Type 0} (nvs : Nvs S) : Type 0 where
  pub get_num-set_num :
      (kind : Kind) (ns key : List ℕ) (v : ℕ) (s : S)
      → (nvs.set_num kind ns key v s).0 ≡ Err.ok
      → nvs.get_num kind ns key (nvs.set_num kind ns key v s).1 ≡ (Err.ok, v)
  pub get_num-set_num_ne :
      (kind kind' : Kind) (ns key key' : List ℕ) (v : ℕ) (s : S)
      → key' ≢ key
      → nvs.get_num kind ns key (nvs.set_num kind' ns key' v s).1 ≡ nvs.get_num kind ns key s
  pub get_num-commit :
      (kind : Kind) (ns key : List ℕ) (s : S)
      → nvs.get_num kind ns key (nvs.commit ns s).1 ≡ nvs.get_num kind ns key s
  pub get_num-erase_key :
      (kind : Kind) (ns key : List ℕ) (s : S)
      → is_ok (nvs.get_num kind ns key (nvs.erase_key ns key s)).0 ≡ false

-- A namespace in which no read finds anything.
abbrev pub Blank : {S : Type 0} → Nvs S → List ℕ → S → Type 0
Blank nvs ns s =
    (key : List ℕ)
    → (is_ok (nvs.get_blob ns key s).0 ≡ false)
      × (is_ok (nvs.get_str ns key s).0 ≡ false)
      × ((kind : Kind) → is_ok (nvs.get_num kind ns key s).0 ≡ false)

-- A namespace that was erased is blank, and so is one that there is none of; erasing and committing
-- write nothing.
pub record Erases {S : Type 0} (nvs : Nvs S) : Type 0 where
  pub erase_all-Blank :
      (ns : List ℕ) (s : S) → (nvs.erase_all ns s).0 ≡ Err.ok → Blank nvs ns (nvs.erase_all ns s).1
  pub opens-Blank :
      (ns : List ℕ) (s : S) → nvs.opens readwrite ns s ≡ Err.nvs_not_found → Blank nvs ns s
  pub erase_all-keeps :
      (ns ns' : List ℕ) (s : S) → Blank nvs ns s → Blank nvs ns (nvs.erase_all ns' s).1
  pub commit-keeps : (ns ns' : List ℕ) (s : S) → Blank nvs ns s → Blank nvs ns (nvs.commit ns' s).1
