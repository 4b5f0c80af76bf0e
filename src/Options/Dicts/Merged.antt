-- ===== src/Options/Dicts/Merged.antt =====
-- `treq_MergeDicts` with `case_insensitive`, as it is called for headers.
use mathlib.Core.List.{append_assoc, append-nil}
use trequests.Base.{true, [], ◌∷◌, ◌++◌, Option, none, some, Bytes, ◌≡◌, arith, ap, ◌∙◌}
use trequests.Options.Dicts.Headers.{
  Entries, Documented, CaseUnique, drop_key, keep, without, without-drop_key, Lacks-drop_key,
  drop_key-CaseUnique, put_entry-Lacks, append-CaseUnique, keep-append_one,
}
use trequests.Options.Dicts.{
  find_key, remove_found, merge_entry, merge_entries, merge_dicts, entries_of,
}
use trequests.Options.Platform.{Platform}

entries_of-eq :
    (p : Platform) (d : Bytes) (es : Entries) → p.dict_entries d ≡ some es → entries_of p d ≡ es
entries_of-eq p d es e = ground arith

module _ (p : Platform) (doc : Documented p) where
  removed-entries :
      (d : Bytes) (o : Option Bytes) (k : Bytes) (es : Entries)
      → p.dict_entries d ≡ some es
      → p.dict_entries (remove_found p d o) ≡ some (without p k o es)
  unfolding remove_found
  removed-entries d none k es e = e
  removed-entries d (some key1) k es e = doc.entries_remove d key1 es e

  -- One round: the equal key is gone, and the entry stands at the end.
  merge_entry-entries :
      (d k v : Bytes) (es : Entries)
      → p.dict_entries d ≡ some es
      → CaseUnique p es
      → p.dict_entries (merge_entry p true d k v) ≡ some (drop_key p k es ++ (k, v) ∷ [])
  unfolding merge_entry
  merge_entry-entries d k v es e u =
      let found = entries_of-eq p d es e in
      let gone : p.dict_entries (remove_found p d (find_key p k (entries_of p d)))
          ≡ some (drop_key p k es) =
        rw found (
          removed-entries d (find_key p k es) k es e
          ∙ ap some (without-drop_key p k es doc.strequal_trans u)) in
      doc.entries_put _ k v (drop_key p k es) gone
      ∙ ap some
          (put_entry-Lacks p k v (drop_key p k es) (doc.strequal_refl k) (Lacks-drop_key p k es))

  merge_entries-entries :
      (es2 es1 : Entries) (d : Bytes)
      → p.dict_entries d ≡ some es1
      → CaseUnique p es1
      → CaseUnique p es2
      → p.dict_entries (merge_entries p true d es2) ≡ some (keep p es2 es1 ++ es2)
  unfolding merge_entries
  merge_entries-entries [] es1 d e u1 u2 = rw (append-nil es1) e
  merge_entries-entries ((k, v) ∷ es2) es1 d e u1 u2 =
      let kept = drop_key p k es1 in
      merge_entries-entries es2 (kept ++ (k, v) ∷ []) (merge_entry p true d k v)
        (merge_entry-entries d k v es1 e u1)
        (append-CaseUnique p k v kept (drop_key-CaseUnique p k es1 u1) (Lacks-drop_key p k es1))
        u2.1
      ∙ rw (keep-append_one p k v es2 kept u2.0, append_assoc)

  -- The headers of a request in a session, where neither dictionary has two keys that are equal but
  -- for case (CaseUnique): those of the session whose name the request does not give in any case, in
  -- their order, and then those of the request. Without a session's headers, and where those of the
  -- request are such a dictionary, they are those of the request.
  pub merge_dicts-entries :
      (dict1 dict2 : Bytes) (es1 es2 : Entries)
      → p.dict_entries dict1 ≡ some es1
      → p.dict_entries dict2 ≡ some es2
      → CaseUnique p es1
      → CaseUnique p es2
      → (p.dict_entries (merge_dicts p (some dict1) dict2 true) ≡ some (keep p es2 es1 ++ es2))
        × (p.dict_entries (merge_dicts p none dict2 true) ≡ some (keep p es2 [] ++ es2))
  unfolding merge_dicts
  merge_dicts-entries dict1 dict2 es1 es2 e1 e2 u1 u2 =
      let found = entries_of-eq p dict2 es2 e2 in
      (
        ap (λ es. p.dict_entries (merge_entries p true dict1 es)) found
            ∙ merge_entries-entries es2 es1 dict1 e1 u1 u2,
        ap (λ es. p.dict_entries (merge_entries p true p.dict_empty es)) found
            ∙ merge_entries-entries es2 [] p.dict_empty doc.entries_empty tt u2,
      )

  -- Whatever keys the second dictionary has, the merged dictionary has no two that are equal but for
  -- case, if the first dictionary has none (CaseUnique).
  pub merge_entries-CaseUnique :
      (es2 es1 : Entries) (d : Bytes)
      → p.dict_entries d ≡ some es1
      → CaseUnique p es1
      → (es : Entries) × (p.dict_entries (merge_entries p true d es2) ≡ some es) × CaseUnique p es
  unfolding merge_entries
  merge_entries-CaseUnique [] es1 d e u = (es1, e, u)
  merge_entries-CaseUnique ((k, v) ∷ es2) es1 d e u =
      merge_entries-CaseUnique es2 _ (merge_entry p true d k v) (merge_entry-entries d k v es1 e u)
        (append-CaseUnique p k v _ (drop_key-CaseUnique p k es1 u) (Lacks-drop_key p k es1))
