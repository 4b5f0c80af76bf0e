-- ===== src/Options/Compatible.antt =====
-- src/library.c, `treq_ValidateOptions` behind the chain of checks: which options go together, the
-- authentication scheme, and the parameters of AWS V4.
pub mod Callback
pub mod Consistent
use trequests.Auth.{Parsed, parse_option}
use trequests.Auth
use trequests.Base.{
  ℕ, ℤ, pos, negsuc, zero, suc, Bool, true, false, not, ◌&&◌, ◌||◌, List, [], ◌∷◌, ◌++◌, Option,
  none, some, Bytes, codes, length, if◌then◌else◌, ltb, is_some,
}
use trequests.Options.Platform.{
  Platform, OptionName, form, data_raw, data_urlencode, data_fields, data_fields_urlencode, json,
  params, params_raw, auth_aws_sigv4, auth_scheme, timeout, timeout_connect, OptionError,
  not_a_list, not_one_to_four, incompatible, mutually_exclusive, bad_auth_scheme, async_and_simple,
  callback_without_async, not_unsigned, Checked, ok, failed, ◌>>=◌, ◌>>◌, require, refuse_if,
}
use trequests.Options.Validate.{RawOptions, Options, validate_each}
use trequests.Request.Settings.{Method, head, get, post, put, patch, delete, custom}

-- The options that stand for POST data, in the order of the passes, and which of them are given.
abbrev pub post_options : Options → List (OptionName × Bool)
post_options o =
    (data_raw, is_some o.data_value)
    ∷ (data_urlencode, is_some o.data_urlencode_value)
    ∷ (data_fields, is_some o.data_fields_value)
    ∷ (data_fields_urlencode, is_some o.data_fields_urlencode_value)
    ∷ (json, is_some o.json_value)
    ∷ (form, is_some o.form_value)
    ∷ []

-- The first pass: `opt_defined1`.
pub find_given : List (OptionName × Bool) → Option OptionName
find_given [] = none
find_given ((n, b) ∷ os) = if b then some n else find_given os

-- The second pass: `opt_defined2`. The first given option is not the first one, and none in front of
-- it is given, so this is the first given option behind it.
pub find_other : List (OptionName × Bool) → Option OptionName
unfolding find_given
find_other [] = none
find_other ((n, b) ∷ os) = if b then find_given os else find_other os

-- The switch over the methods.
pub allows_data : Method → Bool
allows_data head = false
allows_data get = false
allows_data patch = false
allows_data delete = false
allows_data put = true
allows_data post = true
allows_data custom = true

-- What is checked if a first option is found, and then a second.
pub check_second : OptionName → Option OptionName → Checked (Unit {0})
check_second first none = ok tt
check_second first (some second) = failed (mutually_exclusive first second)

pub check_first : Method → Option OptionName → Option OptionName → Checked (Unit {0})
unfolding allows_data check_second
check_first method none second = ok tt
check_first method (some first) second = do
  refuse_if (not (allows_data method)) (incompatible first method)
  check_second first second

-- The checks up to the two options of the query string.
unfoldable pub check_data : Method → Options → Checked (Unit {0})
unfolding check_first find_given find_other
check_data method o = do
  check_first method (find_given (post_options o)) (find_other (post_options o))
  refuse_if (is_some o.params_value && is_some o.params_raw_value)
      (mutually_exclusive params params_raw)

abbrev pub below_minus_one : ℤ → Bool
below_minus_one (pos n) = false
below_minus_one (negsuc zero) = false
below_minus_one (negsuc (suc n)) = true

-- The checks from `opt->async` on.
unfoldable pub check_mode : Options → Checked (Unit {0})
check_mode o = do
  if o.async
      then refuse_if o.simple async_and_simple
      else refuse_if (is_some o.callback_value) callback_without_async
  refuse_if (below_minus_one o.timeout_value) (not_unsigned timeout)
  refuse_if (below_minus_one o.timeout_connect_value) (not_unsigned timeout_connect)

abbrev scheme_of : Parsed ℕ → Checked (Option ℕ)
scheme_of (Auth.ok r) = ok (some r)
scheme_of (Auth.failed e) = failed (bad_auth_scheme e)

-- The elements with a colon between each two.
pub colon_joined : List Bytes → Bytes
colon_joined [] = []
colon_joined (x ∷ []) = x
colon_joined (x ∷ y ∷ xs) = x ++ (codes ":" ++ colon_joined (y ∷ xs))

module _ (p : Platform) where
  pub check_scheme : Option Bytes → Checked (Option ℕ)
  check_scheme none = ok none
  check_scheme (some raw) = do
    words ← require (p.list_elements raw) (not_a_list auth_scheme)
    scheme_of (parse_option p.curl_auth p.auth_option words)

  pub check_aws : Option Bytes → Checked (Option Bytes)
  unfolding colon_joined
  check_aws none = ok none
  check_aws (some raw) = do
    xs ← require (p.list_elements raw) (not_a_list auth_aws_sigv4)
    refuse_if (ltb (length xs) 1 || ltb 4 (length xs)) (not_one_to_four (length xs))
    ok (some (colon_joined xs))

  -- `treq_ValidateOptions`: the options, with the flags of -auth_scheme and the text of
  -- -auth_aws_sigv4.
  unfoldable pub validate_options :
      Method → RawOptions → Checked (Options × Option ℕ × Option Bytes)
  unfolding validate_each check_data check_scheme check_aws check_mode
  validate_options method raw = do
    o ← validate_each p raw
    check_data method o
    scheme ← check_scheme o.auth_scheme_raw
    aws ← check_aws o.auth_aws_sigv4_raw
    check_mode o
    ok (o, scheme, aws)
