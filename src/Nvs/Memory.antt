-- ===== src/Nvs/Memory.antt =====
-- A key-value store in memory, on which the tests run the code that uses the NVS: a list of entries,
-- the newest first, that never fails.
use dingdong.Common.{
  ◌≡◌, is_ok, false, ◌≢◌, bytes_eq-cases, Bool-cases, inl, inr, ℕ, refl, Bool, ◌&&◌, List, [], ◌∷◌,
  if◌then◌else◌, bytes_eq, bytes_eq_refl, Err,
}
use dingdong.Nvs.{Nvs, Erases, KeepsBlobs, KeepsStrings, KeepsNumbers}

pub record Entry : Type 0 where
  pub ns : List ℕ
  pub key : List ℕ
  pub value : List ℕ

abbrev at : List ℕ → List ℕ → Entry → Bool
at ns key e = bytes_eq e.ns ns && bytes_eq e.key key

abbrev read : List ℕ → List ℕ → List Entry → Err × List ℕ
read ns key [] = (Err.nvs_not_found, [])
read ns key (e ∷ es) = if at ns key e then (Err.ok, e.value) else read ns key es

abbrev without : (Entry → Bool) → List Entry → List Entry
without p [] = []
without p (e ∷ es) = if p e then without p es else e ∷ without p es

abbrev number : List ℕ → ℕ
number [] = 0
number (n ∷ _) = n

abbrev pub memory : Nvs (List Entry)
memory = record {
  opens = λ mode ns s. Err.ok;
  get_num = λ kind ns key s. ((read ns key s).0, number (read ns key s).1);
  set_num = λ kind ns key n s. (Err.ok, record { ns = ns; key = key; value = n ∷ [] } ∷ s);
  get_blob = read;
  set_blob = λ ns key v s. (Err.ok, record { ns = ns; key = key; value = v } ∷ s);
  get_str = read;
  set_str = λ ns key v s. (Err.ok, record { ns = ns; key = key; value = v } ∷ s);
  erase_key = λ ns key s. without (at ns key) s;
  erase_all = λ ns s. (Err.ok, without (λ e. bytes_eq e.ns ns) s);
  commit = λ ns s. (Err.ok, s);
}

at_ne :
    (ns key key' v : List ℕ)
    → key' ≢ key
    → at ns key (record { ns = ns; key = key'; value = v }) ≡ false
at_ne ns key key' v ne = elim (bytes_eq-cases key' key) [
  | inl (same, e) ↦ absurd (ne e)
  | inr (differ, _) ↦ rw (bytes_eq_refl ns, differ) refl
]

read-without :
    (ns key : List ℕ) (s : List Entry) → is_ok (read ns key (without (at ns key) s)).0 ≡ false
read-without ns key [] = refl
read-without ns key (e ∷ es) = elim (Bool-cases (at ns key e)) [
  | inl hit ↦ rw hit (read-without ns key es)
  | inr miss ↦ rw (miss, miss) (read-without ns key es)
]

pub memory-KeepsBlobs : KeepsBlobs memory
memory-KeepsBlobs = record {
  get_blob-set_blob = λ ns key v s e. rw (bytes_eq_refl ns, bytes_eq_refl key) refl;
  get_blob-set_blob_ne = λ ns key key' v s ne. rw (at_ne ns key key' v ne) refl;
  get_blob-commit = λ ns key s. refl;
}

pub memory-KeepsStrings : KeepsStrings memory
memory-KeepsStrings = record {
  get_str-set_str = λ ns key v s e. rw (bytes_eq_refl ns, bytes_eq_refl key) refl;
  get_str-set_str_ne = λ ns key key' v s ne. rw (at_ne ns key key' v ne) refl;
  get_str-commit = λ ns key s. refl;
}

pub memory-KeepsNumbers : KeepsNumbers memory
memory-KeepsNumbers = record {
  get_num-set_num = λ kind ns key v s e. rw (bytes_eq_refl ns, bytes_eq_refl key) refl;
  get_num-set_num_ne = λ kind kind' ns key key' v s ne. rw (at_ne ns key key' (v ∷ []) ne) refl;
  get_num-commit = λ kind ns key s. refl;
  get_num-erase_key = λ kind ns key s. read-without ns key s;
}

read-erase_all :
    (ns key : List ℕ) (s : List Entry)
    → is_ok (read ns key (without (λ e. bytes_eq e.ns ns) s)).0 ≡ false
read-erase_all ns key [] = refl
read-erase_all ns key (e ∷ es) = elim (Bool-cases (bytes_eq e.ns ns)) [
  | inl hit ↦ rw hit (read-erase_all ns key es)
  | inr miss ↦ rw (miss, miss) (read-erase_all ns key es)
]

read-without_keeps :
    (p : Entry → Bool) (ns key : List ℕ) (s : List Entry)
    → is_ok (read ns key s).0 ≡ false
    → is_ok (read ns key (without p s)).0 ≡ false
read-without_keeps p ns key [] = λ absent. absent
read-without_keeps p ns key (e ∷ es) = elim (Bool-cases (at ns key e)) [
  | inl hit ↦ rw hit (λ absent. absurd cc)
  | inr miss ↦ rw miss (λ absent. elim (Bool-cases (p e)) [
    | inl gone ↦ rw gone (read-without_keeps p ns key es absent)
    | inr kept ↦ rw (kept, miss) (read-without_keeps p ns key es absent)
  ])
]

pub memory-Erases : Erases memory
memory-Erases = record {
  erase_all-Blank = λ ns s e key.
      (read-erase_all ns key s, read-erase_all ns key s, λ kind. read-erase_all ns key s);
  opens-Blank = λ ns s e. absurd cc;
  erase_all-keeps = λ ns ns' s b key.
      let absent = read-without_keeps (λ e. bytes_eq e.ns ns') ns key s ((b key).0) in
      (absent, absent, λ kind. absent);
  commit-keeps = λ ns ns' s b. b;
}
