-- ===== src/Tests/Tcl.antt =====
-- Lists and dictionaries of Tcl as byte strings: each byte of a word is one more than it was, and a
-- zero ends the word. With them, a platform on which the documented behaviour holds.
use trequests.Base.{
  ℕ, zero, suc, Bool, true, List, [], ◌∷◌, Option, none, some, Bytes, map, to_lower, str_eq_self,
  str_eq-eq, ◌≡◌, refl, ap, arith, ◌∙◌,
}
use trequests.Options.Dicts.Headers.{Documented, Entries, put_entry, remove_entry}
use trequests.Options.Platform.{Platform}
use trequests.Tests.Fixtures.{same_text, escape_percent, curl_flags, auth_index}

cons_head : ℕ → List Bytes → List Bytes
cons_head b [] = (b ∷ []) ∷ []
cons_head b (w ∷ ws) = (b ∷ w) ∷ ws

unfoldable pub words : Bytes → List Bytes
unfolding cons_head
words [] = []
words (zero ∷ s) = [] ∷ words s
words (suc b ∷ s) = cons_head b (words s)

abbrev pub add_word : Bytes → Bytes → Bytes
add_word [] s = 0 ∷ s
add_word (c ∷ cs) s = suc c ∷ add_word cs s

words-add_word : (w s : Bytes) → words (add_word w s) ≡ w ∷ words s
unfolding words cons_head
words-add_word [] s = refl
words-add_word (c ∷ cs) s = rw (words-add_word cs s) refl

abbrev pairs : List Bytes → Option Entries
pairs [] = some []
pairs (k ∷ []) = none
pairs (k ∷ v ∷ ws) = elim (pairs ws) [ none ↦ none | some es ↦ some ((k, v) ∷ es) ]

abbrev pub entries_in : Bytes → Option Entries
entries_in s = pairs (words s)

abbrev pub dict_of : Entries → Bytes
dict_of [] = []
dict_of ((k, v) ∷ es) = add_word k (add_word v (dict_of es))

pairs-more :
    (k v : Bytes) (ws : List Bytes) (es : Entries)
    → pairs ws ≡ some es
    → pairs (k ∷ v ∷ ws) ≡ some ((k, v) ∷ es)
pairs-more k v ws es e = ground arith

pub entries_in-dict_of : (es : Entries) → entries_in (dict_of es) ≡ some es
entries_in-dict_of [] = unfold words in refl
entries_in-dict_of ((k, v) ∷ es) =
    let rest = add_word v (dict_of es) in
    ap pairs (words-add_word k rest ∙ ap (λ ws. k ∷ ws) (words-add_word v (dict_of es)))
    ∙ pairs-more k v (words (dict_of es)) es (entries_in-dict_of es)

abbrev changed : (Entries → Entries) → Bytes → Bytes
changed f d = elim (entries_in d) [ none ↦ d | some es ↦ dict_of (f es) ]

abbrev yes_or_no : Bytes → Option Bool
yes_or_no [] = none
yes_or_no (c ∷ cs) = some true

abbrev pub tcl : Platform
tcl = record {
  list_elements = λ s. some (words s);
  dict_entries = entries_in;
  dict_empty = [];
  dict_put = λ d k v. changed (put_entry k v) d;
  dict_remove = λ d k. changed (remove_entry k) d;
  boolean = yes_or_no;
  strequal = same_text;
  escape = escape_percent;
  curl_auth = curl_flags;
  auth_option = auth_index;
}

entries_in-changed :
    (f : Entries → Entries) (d : Bytes) (es : Entries)
    → entries_in d ≡ some es
    → entries_in (changed f d) ≡ some (f es)
entries_in-changed f d es e = ground (arith, entries_in-dict_of (f es))

same_text_trans :
    (a b c : Bytes) → same_text a c ≡ true → same_text b c ≡ true → same_text a b ≡ true
unfolding same_text
same_text_trans a b c x y =
    let left = str_eq-eq (map to_lower a) (map to_lower c) x in
    let right = str_eq-eq (map to_lower b) (map to_lower c) y in
    rw (left, right) (str_eq_self (map to_lower c))

pub tcl-Documented : Documented tcl
tcl-Documented = record {
  entries_empty = unfold words in refl;
  entries_put = λ d k v es e. entries_in-changed (put_entry k v) d es e;
  entries_remove = λ d k es e. entries_in-changed (remove_entry k) d es e;
  strequal_refl = λ a. unfold same_text in str_eq_self (map to_lower a);
  strequal_trans = same_text_trans;
}
