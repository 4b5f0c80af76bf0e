-- ===== src/Options/Values.antt =====
-- src/library.c: what `Tcl_ParseArgsObjv` collects for an option (`lappend_arg`, `boolean_arg`,
-- `object_arg`), and the checks of a single option. An option that passes its check is its
-- value, or `none` where `isOptionExists` is false of it.
use trequests.Base.{Bool, true, false, List, [], ◌∷◌, ◌++◌, Option, none, some, Bytes, length}
use trequests.Options.Dicts.{option_list_merge_dicts}
use trequests.Options.Platform.{
  Platform, OptionName, no_argument, not_a_boolean, not_a_list, is_empty_list, not_two_elements,
  Checked, ok, failed, ◌>>=◌, require,
}

-- The field `is_missing`: -1, 1 and 0.
pub data Presence : Type 0 where
  absent missing present : Presence

-- `treq_optionListType` and `treq_optionDataType`: the arguments of all the times it was given.
pub record ListOption : Type 0 where
  pub presence : Presence
  pub items : List Bytes

-- `treq_optionObjectType`, `treq_optionBooleanType` and their like: the last argument.
pub record ObjectOption : Type 0 where
  pub presence : Presence
  pub value : Option Bytes

-- `lappend_arg`; `none` is an option at the end, without an argument.
unfoldable pub lappend_arg : Option Bytes → ListOption → ListOption
lappend_arg none o = record { presence = missing; items = [] }
lappend_arg (some x) o = record { presence = present; items = o.items ++ x ∷ [] }

-- `object_arg`, and `boolean_arg` on the raw value.
unfoldable pub object_arg : Option Bytes → ObjectOption → ObjectOption
object_arg none o = record o { presence = missing }
object_arg (some x) o = record { presence = present; value = some x }

-- `treq_ValidateOptionCommon` and `VALIDATE_COMMON`: an option that was not given passes, and one
-- without an argument fails.
unfoldable pub validate_common {ℓ} :
    {A : Type ℓ} → OptionName → Presence → Checked (Option A) → Checked (Option A)
validate_common name absent rest = ok none
validate_common name missing rest = failed (no_argument name)
validate_common name present rest = rest

module _ (p : Platform) where
  -- `treq_ValidateOptionListOfDicts`
  unfoldable pub validate_list_of_dicts : OptionName → ListOption → Checked (Option Bytes)
  unfolding validate_common
  validate_list_of_dicts name o =
      validate_common name o.presence (option_list_merge_dicts p name o.items)

  -- `treq_ValidateOptionBoolean`
  unfoldable pub validate_boolean : OptionName → ObjectOption → Checked (Option Bool)
  unfolding validate_common
  validate_boolean name o = validate_common name o.presence (do
    raw ← require o.value (no_argument name)
    b ← require (p.boolean raw) (not_a_boolean name raw)
    ok (some b))

  -- The length of the list.
  pub non_empty : OptionName → Bool → Bytes → List Bytes → Checked (Option Bytes)
  non_empty name allow_empty value (x ∷ xs) = ok (some value)
  non_empty name true value [] = ok none
  non_empty name false value [] = failed (is_empty_list name)

  -- `treq_ValidateOptionObjectList`
  unfoldable pub validate_object_list : OptionName → Bool → ObjectOption → Checked (Option Bytes)
  unfolding validate_common non_empty
  validate_object_list name allow_empty o = validate_common name o.presence (do
    value ← require o.value (no_argument name)
    xs ← require (p.list_elements value) (not_a_list name)
    non_empty name allow_empty value xs)

  -- The username and the password.
  pub two_elements : OptionName → List Bytes → Checked (Option (Bytes × Bytes))
  two_elements name (username ∷ password ∷ []) = ok (some (username, password))
  two_elements name xs = failed (not_two_elements name (length xs))

  -- `treq_ValidateOptionAuth`
  unfoldable pub validate_auth : OptionName → ObjectOption → Checked (Option (Bytes × Bytes))
  unfolding validate_common two_elements
  validate_auth name o = validate_common name o.presence (do
    value ← require o.value (no_argument name)
    xs ← require (p.list_elements value) (not_a_list name)
    two_elements name xs)

-- An option of which only the presence of an argument is checked.
unfoldable pub validate_object : OptionName → ObjectOption → Checked (Option Bytes)
unfolding validate_common
validate_object name o = validate_common name o.presence (ok o.value)
