-- ===== src/Options/Data/Joined.antt =====
-- The value of a data option is the join of its parts by ampersands.
use mathlib.Core.List.{append_assoc, append-nil}
use trequests.Base.{
  ℕ, Bool, true, false, List, [], ◌∷◌, ◌++◌, Option, none, some, Bytes, codes, ◌≡◌, refl, arith, ap,
  ◌∙◌, sym,
}
use trequests.Options.Data.{
  DataKind, join_amp, encode_if, append_value, fields_chunk, is_odd, whole_element, element,
  elements, join_element, or_empty, validate_data,
}
use trequests.Options.Platform.{
  Platform, OptionName, OptionError, ok, urlencode_value, urlencode_key, urlencode_data,
}
use trequests.Text.Urlencode.Chunks.{encode_each, EscapesEach, urlencode_lem}
use trequests.Text.Urlencode.{curl_max_input_length}

abbrev pub each_after_amp : List Bytes → Bytes
each_after_amp [] = []
each_after_amp (t ∷ ts) = codes "&" ++ (t ++ each_after_amp ts)

-- The parts with an ampersand between each two.
abbrev pub joined : List Bytes → Bytes
joined [] = []
joined (t ∷ ts) = t ++ each_after_amp ts

-- What is joined to a value, if there is one.
abbrev append_all : Option Bytes → List Bytes → Option Bytes
append_all none [] = none
append_all none (t ∷ ts) = some (t ++ each_after_amp ts)
append_all (some v) ts = some (v ++ each_after_amp ts)

append_all-cons :
    (value : Option Bytes) (t : Bytes) (ts : List Bytes)
    → append_all (some (join_amp value t)) ts ≡ append_all value (t ∷ ts)
unfolding join_amp
append_all-cons none t ts = refl
append_all-cons (some v) t ts = ap some (append_assoc v (codes "&" ++ t) (each_after_amp ts))

join_element-append_all :
    (p : Platform) (name : OptionName) (value : Option Bytes) (ts : List Bytes)
    → join_element p name value (append_all none ts) ≡ append_all value ts
unfolding join_element join_amp
join_element-append_all p name none [] = refl
join_element-append_all p name (some v) [] = ap some (sym (append-nil v))
join_element-append_all p name none (t ∷ ts) = refl
join_element-append_all p name (some v) (t ∷ ts) = refl

each_after_amp-append :
    (ts us : List Bytes) → each_after_amp (ts ++ us) ≡ each_after_amp ts ++ each_after_amp us
each_after_amp-append [] us = refl
each_after_amp-append (t ∷ ts) us = simp (each_after_amp-append ts us, append_assoc)

append_all-append :
    (value : Option Bytes) (ts us : List Bytes)
    → append_all (append_all value ts) us ≡ append_all value (ts ++ us)
append_all-append none [] us = refl
append_all-append none (t ∷ ts) us = simp (each_after_amp-append ts us, append_assoc)
append_all-append (some v) ts us = simp (each_after_amp-append ts us, append_assoc)

module _ (p : Platform) (name : OptionName) (encode : ℕ → Bytes)
    (each : EscapesEach p.escape encode curl_max_input_length) where
  -- A key or a value as it is sent.
  abbrev pub text : Bool → Bytes → Bytes
  text false s = s
  text true s = encode_each encode s

  -- A key, and its value behind an equals sign unless it is empty.
  abbrev pub pair_text : Bool → Bytes → Bytes → Bytes
  pair_text enc key [] = text enc key
  pair_text enc key (c ∷ cs) = text enc key ++ (codes "=" ++ text enc (c ∷ cs))

  abbrev pub pair_texts : Bool → List Bytes → List Bytes
  pair_texts enc [] = []
  pair_texts enc (key ∷ []) = []
  pair_texts enc (key ∷ val ∷ rest) = pair_text enc key val ∷ pair_texts enc rest

  encode_if-text :
      (enc : Bool) (s : Bytes) (e : OptionError) → encode_if p name enc s e ≡ ok (text enc s)
  unfolding encode_if
  encode_if-text false s e = refl
  encode_if-text true s e = rw (urlencode_lem p.escape encode s each) refl

  join_amp-append :
      (chunk : Option Bytes) (s t : Bytes) → join_amp chunk s ++ t ≡ join_amp chunk (s ++ t)
  unfolding join_amp
  join_amp-append none s t = refl
  join_amp-append (some v) s t = append_assoc v (codes "&" ++ s) t

  append_value-text :
      (enc : Bool) (key val : Bytes) (chunk : Option Bytes)
      → append_value p name enc key (join_amp chunk (text enc key)) val
        ≡ ok (join_amp chunk (pair_text enc key val))
  unfolding append_value
  append_value-text enc key [] chunk = refl
  append_value-text enc key (c ∷ cs) chunk =
      rw (encode_if-text enc (c ∷ cs) (urlencode_value name key))
        (ap ok (join_amp-append chunk (text enc key) (codes "=" ++ text enc (c ∷ cs))))

  fields_chunk-texts :
      (enc : Bool) (chunk : Option Bytes) (xs : List Bytes)
      → is_odd p name xs ≡ false
      → fields_chunk p name enc chunk xs ≡ ok (append_all chunk (pair_texts enc xs))
  unfolding fields_chunk is_odd
  fields_chunk-texts enc none [] h = refl
  fields_chunk-texts enc (some c) [] h = ap (λ v. ok (some v)) (sym (append-nil c))
  fields_chunk-texts enc chunk (key ∷ []) h = cc
  fields_chunk-texts enc chunk (key ∷ val ∷ rest) h =
      rw (encode_if-text enc key (urlencode_key name), append_value-text enc key val chunk)
        (fields_chunk-texts enc (some (join_amp chunk (pair_text enc key val))) rest (ground arith)
          ∙ ap ok (append_all-cons chunk (pair_text enc key val) (pair_texts enc rest)))

  -- The elements as lists of an even length.
  abbrev pub Pairs : List Bytes → List (List Bytes) → Type 0
  Pairs [] [] = Unit {0}
  Pairs (item ∷ items) (xs ∷ xss) =
      (p.list_elements item ≡ some xs) × (is_odd p name xs ≡ false) × Pairs items xss
  Pairs _ _ = ⊥

  abbrev pub all_texts : Bool → List (List Bytes) → List Bytes
  all_texts enc [] = []
  all_texts enc (xs ∷ xss) = pair_texts enc xs ++ all_texts enc xss

  element-texts :
      (k : DataKind) (item : Bytes) (xs : List Bytes)
      → k.is_fields ≡ true
      → p.list_elements item ≡ some xs
      → is_odd p name xs ≡ false
      → element p name k item ≡ ok (append_all none (pair_texts k.is_urlencoded xs))
  unfolding element
  element-texts k item xs f e h = ground (arith, fields_chunk-texts k.is_urlencoded none xs h)

  elements-texts :
      (k : DataKind) (value : Option Bytes) (items : List Bytes) (xss : List (List Bytes))
      → k.is_fields ≡ true
      → Pairs items xss
      → elements p name k value items ≡ ok (append_all value (all_texts k.is_urlencoded xss))
  unfolding elements
  elements-texts k none [] [] f h = refl
  elements-texts k (some v) [] [] f h = ap (λ s. ok (some s)) (sym (append-nil v))
  elements-texts k value [] (xs ∷ xss) f h = absurd h
  elements-texts k value (item ∷ items) [] f h = absurd h
  elements-texts k value (item ∷ items) (xs ∷ xss) f (e, even, h) =
      let ts = pair_texts k.is_urlencoded xs in
      rw (element-texts k item xs f e even, join_element-append_all p name value ts)
        (elements-texts k (append_all value ts) items xss f h
          ∙ ap ok (append_all-append value ts (all_texts k.is_urlencoded xss)))

  or_empty-append_all : (ts : List Bytes) → or_empty p name (append_all none ts) ≡ joined ts
  unfolding or_empty
  or_empty-append_all [] = refl
  or_empty-append_all (t ∷ ts) = refl

  -- -data_fields, -data_fields_urlencode and -params, however often given, with lists of an even
  -- length: the value is made of all their pairs in order, joined by ampersands, each "key=value",
  -- or the key alone where the value is empty, urlencoded where the option says so.
  pub validate_data-fields :
      (k : DataKind) (items : List Bytes) (xss : List (List Bytes))
      → k.is_fields ≡ true
      → k.is_typed ≡ false
      → Pairs items xss
      → validate_data p name k items ≡ ok (some (joined (all_texts k.is_urlencoded xss)))
  unfolding validate_data
  validate_data-fields k items xss f t h = ground (
    arith,
    elements-texts k none items xss f h,
    or_empty-append_all (all_texts k.is_urlencoded xss),
  )

  -- The items that are not empty, as they are sent.
  abbrev pub whole_texts : Bool → List Bytes → List Bytes
  whole_texts enc [] = []
  whole_texts enc ([] ∷ items) = whole_texts enc items
  whole_texts enc ((c ∷ cs) ∷ items) = text enc (c ∷ cs) ∷ whole_texts enc items

  elements-whole :
      (k : DataKind) (value : Option Bytes) (items : List Bytes)
      → k.is_fields ≡ false
      → elements p name k value items ≡ ok (append_all value (whole_texts k.is_urlencoded items))
  unfolding elements element whole_element join_element
  elements-whole k none [] f = refl
  elements-whole k (some v) [] f = ap (λ s. ok (some s)) (sym (append-nil v))
  elements-whole k value ([] ∷ items) f = rw f (elements-whole k value items f)
  elements-whole k value ((c ∷ cs) ∷ items) f =
      let t = text k.is_urlencoded (c ∷ cs) in
      rw (f, encode_if-text k.is_urlencoded (c ∷ cs) (urlencode_data name))
        (elements-whole k (some (join_amp value t)) items f
          ∙ ap ok (append_all-cons value t (whole_texts k.is_urlencoded items)))

  -- -data, -data_urlencode and -params_raw, however often given: the value is made of the
  -- arguments that are not empty, joined by ampersands.
  pub validate_data-whole :
      (k : DataKind) (items : List Bytes)
      → k.is_fields ≡ false
      → k.is_typed ≡ false
      → validate_data p name k items ≡ ok (some (joined (whole_texts k.is_urlencoded items)))
  unfolding validate_data
  validate_data-whole k items f t = ground (
    arith,
    elements-whole k none items f,
    or_empty-append_all (whole_texts k.is_urlencoded items),
  )
