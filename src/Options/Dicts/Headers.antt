-- ===== src/Options/Dicts/Headers.antt =====
-- Merged headers.
use trequests.Base.{
  Option-cases, true, false, List, [], ◌∷◌, ◌++◌, Option, none, some, Bytes, if◌then◌else◌, ◌≡◌,
  refl, arith, All, str_eq, str_eq-eq, str_eq_self, ◌∙◌, Bool-cases, inl, inr, ap,
}
use trequests.Options.Dicts.{find_key}
use trequests.Options.Platform.{Platform}

abbrev pub Entries : Type 0
Entries = List (Bytes × Bytes)

-- A dictionary of Tcl keeps the order in which its keys were first put.
abbrev pub put_entry : Bytes → Bytes → Entries → Entries
put_entry k v [] = (k, v) ∷ []
put_entry k v ((j, u) ∷ es) = if str_eq j k then (k, v) ∷ es else (j, u) ∷ put_entry k v es

abbrev pub remove_entry : Bytes → Entries → Entries
remove_entry k [] = []
remove_entry k ((j, u) ∷ es) = if str_eq j k then es else (j, u) ∷ remove_entry k es

-- What the documentation of Tcl and of libcurl says of their functions.
pub record Documented (p : Platform) : Type 0 where
  pub entries_empty : p.dict_entries p.dict_empty ≡ some []
  pub entries_put :
      (d k v : Bytes) (es : Entries)
      → p.dict_entries d ≡ some es
      → p.dict_entries (p.dict_put d k v) ≡ some (put_entry k v es)
  pub entries_remove :
      (d k : Bytes) (es : Entries)
      → p.dict_entries d ≡ some es
      → p.dict_entries (p.dict_remove d k) ≡ some (remove_entry k es)
  pub strequal_refl : (a : Bytes) → p.strequal a a ≡ true
  pub strequal_trans :
      (a b c : Bytes) → p.strequal a c ≡ true → p.strequal b c ≡ true → p.strequal a b ≡ true

module _ (p : Platform) where
  -- No key of the entries is equal to `k` but for case.
  abbrev pub Lacks : Bytes → Entries → Type 0
  Lacks k = All (λ e. p.strequal e.0 k ≡ false)

  -- No two keys are equal but for case.
  abbrev pub CaseUnique : Entries → Type 0
  CaseUnique [] = Unit {0}
  CaseUnique ((k, v) ∷ es) = All (λ e. p.strequal k e.0 ≡ false) es × CaseUnique es

  -- The entries but those whose key is equal to `k` but for case.
  abbrev pub drop_key : Bytes → Entries → Entries
  drop_key k [] = []
  drop_key k ((j, u) ∷ es) = if p.strequal j k then drop_key k es else (j, u) ∷ drop_key k es

  -- The entries whose key the other dictionary does not have.
  abbrev pub keep : Entries → Entries → Entries
  keep [] es1 = es1
  keep ((k, v) ∷ es2) es1 = keep es2 (drop_key k es1)

  abbrev pub without : Bytes → Option Bytes → Entries → Entries
  without key2 none es = es
  without key2 (some key1) es = remove_entry key1 es

  abbrev pub Trans : Type 0
  Trans = (a b c : Bytes) → p.strequal a c ≡ true → p.strequal b c ≡ true → p.strequal a b ≡ true

  drop_key-Lacks : (k : Bytes) (es : Entries) → Lacks k es → drop_key k es ≡ es
  drop_key-Lacks k [] h = refl
  drop_key-Lacks k ((j, u) ∷ es) h = ground (arith, drop_key-Lacks k es h.1)

  -- What one key shares with `k`, the others do not.
  apart-Lacks :
      (j k : Bytes) (es : Entries)
      → Trans
      → p.strequal j k ≡ true
      → All (λ e. p.strequal j e.0 ≡ false) es
      → Lacks k es
  apart-Lacks j k [] t h a = tt
  apart-Lacks j k ((i, u) ∷ es) t h a = (ground (arith, t j i k h), apart-Lacks j k es t h a.1)

  find_key-strequal :
      (k key1 : Bytes) (es : Entries) → find_key p k es ≡ some key1 → p.strequal key1 k ≡ true
  unfolding find_key
  find_key-strequal k key1 [] e = cc
  find_key-strequal k key1 ((j, u) ∷ es) e = ground (arith, find_key-strequal k key1 es)

  differ :
      (j key1 k : Bytes) → p.strequal j k ≡ false → p.strequal key1 k ≡ true → str_eq j key1 ≡ false
  differ j key1 k other same = elim (Bool-cases (str_eq j key1)) [
    | inl e ↦ absurd (ground (arith, ap (λ x. p.strequal x k) (str_eq-eq j key1 e)))
    | inr e ↦ e
  ]

  pub without-drop_key :
      (k : Bytes) (es : Entries)
      → Trans
      → CaseUnique es
      → without k (find_key p k es) es ≡ drop_key k es
  unfolding find_key
  without-drop_key k [] t u = refl
  without-drop_key k ((j, v) ∷ es) t u = elim (Bool-cases (p.strequal j k)) [
    | inl same ↦ ground (arith, str_eq_self j, drop_key-Lacks k es (apart-Lacks j k es t same u.0))
    | inr other ↦ elim (Option-cases (find_key p k es)) [
      | inl e ↦ ground (arith, without-drop_key k es t u.1)
      | inr (key1, e) ↦ ground (
        arith,
        without-drop_key k es t u.1,
        differ j key1 k other (find_key-strequal k key1 es e),
      )
    ]
  ]

  pub Lacks-drop_key : (k : Bytes) (es : Entries) → Lacks k (drop_key k es)
  Lacks-drop_key k [] = tt
  Lacks-drop_key k ((j, v) ∷ es) = ground (arith, Lacks-drop_key k es)

  All-drop_key :
      (P : Bytes × Bytes → Type 0) (k : Bytes) (es : Entries) → All P es → All P (drop_key k es)
  All-drop_key P k [] h = tt
  All-drop_key P k ((j, v) ∷ es) h = elim (Bool-cases (p.strequal j k)) [
    | inl same ↦ rw same (All-drop_key P k es h.1)
    | inr other ↦ rw other (h.0, All-drop_key P k es h.1)
  ]

  pub drop_key-CaseUnique : (k : Bytes) (es : Entries) → CaseUnique es → CaseUnique (drop_key k es)
  drop_key-CaseUnique k [] u = tt
  drop_key-CaseUnique k ((j, v) ∷ es) u = elim (Bool-cases (p.strequal j k)) [
    | inl same ↦ rw same (drop_key-CaseUnique k es u.1)
    | inr other ↦ rw other (All-drop_key _ k es u.0, drop_key-CaseUnique k es u.1)
  ]

  pub put_entry-Lacks :
      (k v : Bytes) (es : Entries)
      → p.strequal k k ≡ true
      → Lacks k es
      → put_entry k v es ≡ es ++ (k, v) ∷ []
  put_entry-Lacks k v [] r h = refl
  put_entry-Lacks k v ((j, u) ∷ es) r h =
      ground (arith, differ j k k h.0 r, put_entry-Lacks k v es r h.1)

  pub append-CaseUnique :
      (k v : Bytes) (es : Entries) → CaseUnique es → Lacks k es → CaseUnique (es ++ (k, v) ∷ [])
  append-CaseUnique k v [] u h = (tt, tt)
  append-CaseUnique k v ((j, w) ∷ es) u h =
      (All-append_one es u.0 h.0, append-CaseUnique k v es u.1 h.1)
    where
      All-append_one :
          (xs : Entries)
          → All (λ e. p.strequal j e.0 ≡ false) xs
          → p.strequal j k ≡ false
          → All (λ e. p.strequal j e.0 ≡ false) (xs ++ (k, v) ∷ [])
      All-append_one [] a b = (b, tt)
      All-append_one (x ∷ xs) a b = (a.0, All-append_one xs a.1 b)

  pub keep-append_one :
      (k v : Bytes) (es2 es1 : Entries)
      → All (λ e. p.strequal k e.0 ≡ false) es2
      → keep es2 (es1 ++ (k, v) ∷ []) ≡ keep es2 es1 ++ (k, v) ∷ []
  keep-append_one k v [] es1 h = refl
  keep-append_one k v ((j, u) ∷ es2) es1 h =
      ap (keep es2) (drop_one es1) ∙ keep-append_one k v es2 (drop_key j es1) h.1
    where
      drop_one : (xs : Entries) → drop_key j (xs ++ (k, v) ∷ []) ≡ drop_key j xs ++ (k, v) ∷ []
      drop_one [] = rw h.0
      drop_one ((i, w) ∷ xs) = ground (arith, drop_one xs)
