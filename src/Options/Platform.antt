-- ===== src/Options/Platform.antt =====
-- What the code asks of Tcl and of libcurl. A Tcl object is its string representation.
use trequests.Auth.{AuthError, CurlAuth, AuthOption}
use trequests.Base.{ℕ, Bool, true, false, List, Option, none, some, Bytes}
use trequests.Request.Settings.{Method}

pub record Platform : Type 0 where
  -- `Tcl_ListObjGetElements`, `Tcl_DictObjFirst` and `Tcl_DictObjNext`; `none` is an error.
  pub list_elements : Bytes → Option (List Bytes)
  pub dict_entries : Bytes → Option (List (Bytes × Bytes))
  -- `Tcl_NewDictObj`, `Tcl_DictObjPut`, `Tcl_DictObjRemove`
  pub dict_empty : Bytes
  pub dict_put : Bytes → Bytes → Bytes → Bytes
  pub dict_remove : Bytes → Bytes → Bytes
  -- `Tcl_GetBooleanFromObj`
  pub boolean : Bytes → Option Bool
  -- `curl_strequal`, `curl_easy_escape`
  pub strequal : Bytes → Bytes → Bool
  pub escape : Bytes → Option Bytes
  -- The flags of curl.h, and `Tcl_GetIndexFromObj` over the options of -auth_scheme.
  pub curl_auth : CurlAuth
  pub auth_option : Bytes → Option AuthOption

-- The names of the options that the messages show.
pub data OptionName : Type 0 where
  headers form verbose allow_redirects callback callback_debug : OptionName
  auth_scheme auth_token auth auth_aws_sigv4 accept content_type : OptionName
  data_raw data_urlencode data_fields data_fields_urlencode json : OptionName
  params params_raw verify verify_host verify_peer verify_status : OptionName
  timeout timeout_connect : OptionName

-- The messages left in the interpreter.
pub data OptionError : Type 0 where
  no_argument : OptionName → OptionError
  not_a_dict : OptionName → OptionError
  multiple_times : OptionName → OptionError
  invalid_list : OptionName → OptionError
  odd_list : OptionName → ℕ → OptionError
  urlencode_key urlencode_data : OptionName → OptionError
  urlencode_value : OptionName → Bytes → OptionError
  not_a_boolean : OptionName → Bytes → OptionError
  not_a_list : OptionName → OptionError
  is_empty_list : OptionName → OptionError
  not_two_elements : OptionName → ℕ → OptionError
  not_one_to_four : ℕ → OptionError
  incompatible : OptionName → Method → OptionError
  mutually_exclusive : OptionName → OptionName → OptionError
  bad_auth_scheme : AuthError → OptionError
  async_and_simple : OptionError
  callback_without_async : OptionError
  not_unsigned : OptionName → OptionError

pub data Checked {ℓ} (A : Type ℓ) : Type ℓ where
  ok : A → Checked A
  failed : OptionError → Checked A

infixl 5 ◌>>=◌ ◌>>◌
abbrev pub ◌>>=◌ {ℓ κ} : {A : Type ℓ} {B : Type κ} → Checked A → (A → Checked B) → Checked B
ok a >>= f = f a
failed e >>= f = failed e

abbrev pub ◌>>◌ {ℓ} : {B : Type ℓ} → Checked (Unit {0}) → Checked B → Checked B
m >> k = m >>= λ _. k

-- A test of the code that returns an error.
abbrev pub require {ℓ} : {A : Type ℓ} → Option A → OptionError → Checked A
require none e = failed e
require (some a) e = ok a

abbrev pub refuse_if : Bool → OptionError → Checked (Unit {0})
refuse_if true e = failed e
refuse_if false e = ok tt
