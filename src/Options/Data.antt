-- ===== src/Options/Data.antt =====
-- src/library.c, `treq_ValidateOptionData`: the body or the query string of all the times that a
-- data option was given.
pub mod Joined
use trequests.Base.{
  ℕ, ◌+◌, ◌&&◌, Bool, true, false, not, List, [], ◌∷◌, ◌++◌, Option, none, some, Bytes, codes,
  length, if◌then◌else◌, ◌==◌,
}
use trequests.Options.Platform.{
  Platform, OptionName, OptionError, invalid_list, odd_list, urlencode_key, urlencode_value,
  urlencode_data, multiple_times, Checked, ok, failed, ◌>>=◌, ◌>>◌, require, refuse_if,
}
use trequests.Text.Urlencode.{urlencode}

-- `is_urlencoded`, `is_fields` and `is_typed` of `treq_optionDataType`.
pub record DataKind : Type 0 where
  pub is_urlencoded : Bool
  pub is_fields : Bool
  pub is_typed : Bool

-- A value that is joined to what is there by an ampersand; `none` is NULL.
pub join_amp : Option Bytes → Bytes → Bytes
join_amp none s = s
join_amp (some v) s = v ++ (codes "&" ++ s)

module _ (p : Platform) (name : OptionName) where
  -- `treq_UrlencodeTclObject`, if the option is urlencoded.
  pub encode_if : Bool → Bytes → OptionError → Checked Bytes
  unfolding urlencode
  encode_if false s e = ok s
  encode_if true s e = require (urlencode p.escape s) e

  -- "=" and the value, unless it is empty.
  pub append_value : Bool → Bytes → Bytes → Bytes → Checked Bytes
  unfolding encode_if
  append_value enc key chunk [] = ok chunk
  append_value enc key chunk (c ∷ cs) = do
    v ← encode_if enc (c ∷ cs) (urlencode_value name key)
    ok (chunk ++ (codes "=" ++ v))

  -- The loop over the key-value pairs of an even list.
  pub fields_chunk : Bool → Option Bytes → List Bytes → Checked (Option Bytes)
  unfolding append_value join_amp
  fields_chunk enc chunk [] = ok chunk
  fields_chunk enc chunk (key ∷ []) = ok chunk
  fields_chunk enc chunk (key ∷ val ∷ rest) = do
    k ← encode_if enc key (urlencode_key name)
    c ← append_value enc key (join_amp chunk k) val
    fields_chunk enc (some c) rest

  unfoldable pub is_odd : List Bytes → Bool
  is_odd [] = false
  is_odd (x ∷ xs) = not (is_odd xs)

  -- The chunk of one element with key-value pairs; `none` for an empty list, which is skipped.
  pub fields_element : Bool → Bytes → Checked (Option Bytes)
  unfolding fields_chunk is_odd
  fields_element enc item = do
    xs ← require (p.list_elements item) (invalid_list name)
    refuse_if (is_odd xs) (odd_list name (length xs))
    fields_chunk enc none xs

  -- The chunk of one element that is used whole; `none` for an empty one, which is skipped.
  pub whole_element : Bool → Bytes → Checked (Option Bytes)
  unfolding encode_if
  whole_element enc [] = ok none
  whole_element enc (c ∷ cs) = do s ← encode_if enc (c ∷ cs) (urlencode_data name); ok (some s)

  pub element : DataKind → Bytes → Checked (Option Bytes)
  unfolding fields_element whole_element
  element k item =
      if k.is_fields
      then fields_element k.is_urlencoded item
      else whole_element k.is_urlencoded item

  pub join_element : Option Bytes → Option Bytes → Option Bytes
  unfolding join_amp
  join_element value none = value
  join_element value (some chunk) = some (join_amp value chunk)

  -- The loop over the elements.
  pub elements : DataKind → Option Bytes → List Bytes → Checked (Option Bytes)
  unfolding element join_element
  elements k value [] = ok value
  elements k value (item ∷ items) = do
    chunk ← element k item
    elements k (join_element value chunk) items

  pub or_empty : Option Bytes → Bytes
  or_empty none = []
  or_empty (some v) = v

  -- `treq_ValidateOptionData` on the arguments of an option that was given: an empty value where
  -- there is no data.
  unfoldable pub validate_data : DataKind → List Bytes → Checked (Option Bytes)
  unfolding elements or_empty
  validate_data k items = do
    refuse_if (k.is_typed && not (length items == 1)) (multiple_times name)
    value ← elements k none items
    ok (some (or_empty value))
