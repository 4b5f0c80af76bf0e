-- ===== src/Options/Dicts.antt =====
-- src/library.c: `treq_OptionListMergeDicts` and `treq_MergeDicts`.
pub mod Headers
pub mod Merged
use trequests.Base.{ℕ, Bool, true, false, List, [], ◌∷◌, Option, none, some, Bytes, if◌then◌else◌}
use trequests.Options.Platform.{
  Platform, OptionName, OptionError, not_a_dict, Checked, ok, failed, ◌>>=◌, require,
}

module _ (p : Platform) where
  -- The inner loop: every entry is put.
  pub put_all : Bytes → List (Bytes × Bytes) → Bytes
  put_all dict [] = dict
  put_all dict ((k, v) ∷ es) = put_all (p.dict_put dict k v) es

  -- The outer loop, over the elements behind the first.
  pub merge_rest : OptionName → Bytes → List Bytes → Checked Bytes
  unfolding put_all
  merge_rest name dict [] = ok dict
  merge_rest name dict (d ∷ ds) = do
    es ← require (p.dict_entries d) (not_a_dict name)
    merge_rest name (put_all dict es) ds

  -- NULL for an empty dictionary.
  pub null_if_empty : Bytes → List (Bytes × Bytes) → Option Bytes
  null_if_empty dict [] = none
  null_if_empty dict (e ∷ es) = some dict

  -- `treq_OptionListMergeDicts`. The list is not empty; where it is, the code reads past its end.
  unfoldable pub option_list_merge_dicts : OptionName → List Bytes → Checked (Option Bytes)
  unfolding merge_rest null_if_empty
  option_list_merge_dicts name [] = failed (not_a_dict name)
  option_list_merge_dicts name (d ∷ ds) = do
    es ← require (p.dict_entries d) (not_a_dict name)
    dict ← merge_rest name d ds
    entries ← require (p.dict_entries dict) (not_a_dict name)
    ok (null_if_empty dict entries)

  -- The first key that `curl_strequal` takes for `key2`.
  pub find_key : Bytes → List (Bytes × Bytes) → Option Bytes
  find_key key2 [] = none
  find_key key2 ((key1, v) ∷ es) = if p.strequal key1 key2 then some key1 else find_key key2 es

  pub remove_found : Bytes → Option Bytes → Bytes
  remove_found dict none = dict
  remove_found dict (some key1) = p.dict_remove dict key1

  abbrev pub entries_of : Bytes → List (Bytes × Bytes)
  entries_of dict = elim (p.dict_entries dict) [ none ↦ [] | some es ↦ es ]

  -- One round of the loop of `treq_MergeDicts` over the second dictionary.
  pub merge_entry : Bool → Bytes → Bytes → Bytes → Bytes
  unfolding find_key remove_found
  merge_entry case_insensitive dict1 key2 value2 =
      let duplicate = remove_found dict1 (find_key key2 (entries_of dict1)) in
      p.dict_put (if case_insensitive then duplicate else dict1) key2 value2

  pub merge_entries : Bool → Bytes → List (Bytes × Bytes) → Bytes
  unfolding merge_entry
  merge_entries case_insensitive dict1 [] = dict1
  merge_entries case_insensitive dict1 ((k, v) ∷ es) =
      merge_entries case_insensitive (merge_entry case_insensitive dict1 k v) es

  -- `treq_MergeDicts`; the first dictionary may be NULL.
  unfoldable pub merge_dicts : Option Bytes → Bytes → Bool → Bytes
  unfolding merge_entries
  merge_dicts none dict2 ci = merge_entries ci p.dict_empty (entries_of dict2)
  merge_dicts (some dict1) dict2 ci = merge_entries ci dict1 (entries_of dict2)
