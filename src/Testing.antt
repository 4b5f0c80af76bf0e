-- ===== src/Testing.antt =====
-- src/testing.c: in the testing mode every setting that a request makes is registered, by its name
-- and its value. A name that the table does not have is a panic.
pub mod Registered
use trequests.Base.{
  ℕ, Bool, true, false, List, [], ◌∷◌, ◌++◌, Option, none, some, Bytes, codes, if◌then◌else◌,
}
use trequests.Options.Platform.{Platform}

-- `treq_OptionType`
pub data OptionType : Type 0 where
  opt_string opt_long opt_pointer opt_slist : OptionType

-- `options`
abbrev pub options : List (Bytes × OptionType)
options =
    (codes "CURLOPT_HTTPGET", opt_long)
    ∷ (codes "CURLOPT_NOBODY", opt_long)
    ∷ (codes "CURLOPT_HTTPGET", opt_long)
    ∷ (codes "CURLOPT_POST", opt_long)
    ∷ (codes "CURLOPT_UPLOAD", opt_long)
    ∷ (codes "CURLOPT_CUSTOMREQUEST", opt_string)
    ∷ (codes "CURLOPT_CURLU", opt_pointer)
    ∷ (codes "CURLOPT_POSTFIELDSIZE", opt_long)
    ∷ (codes "CURLOPT_POSTFIELDS", opt_string)
    ∷ (codes "CURLOPT_USERNAME", opt_string)
    ∷ (codes "CURLOPT_PASSWORD", opt_string)
    ∷ (codes "CURLOPT_XOAUTH2_BEARER", opt_string)
    ∷ (codes "CURLOPT_AWS_SIGV4", opt_string)
    ∷ (codes "CURLOPT_HTTPAUTH", opt_long)
    ∷ (codes "CURLOPT_MIMEPOST", opt_pointer)
    ∷ (codes "CURLOPT_FOLLOWLOCATION", opt_long)
    ∷ (codes "CURLOPT_VERBOSE", opt_long)
    ∷ (codes "CURLOPT_HTTPHEADER", opt_slist)
    ∷ (codes "CURLOPT_CONNECTTIMEOUT_MS", opt_long)
    ∷ (codes "CURLOPT_TIMEOUT_MS", opt_long)
    ∷ (codes "CURLOPT_SSL_VERIFYHOST", opt_long)
    ∷ (codes "CURLOPT_SSL_VERIFYPEER", opt_long)
    ∷ (codes "CURLOPT_SSL_VERIFYSTATUS", opt_long)
    ∷ (codes "CURLUPART_URL", opt_string)
    ∷ (codes "CURLUPART_QUERY", opt_string)
    ∷ []

-- A value as it is passed behind the name: an int is not a long.
pub data Passed : Type 0 where
  passed_string : Bytes → Passed
  passed_long passed_int : ℕ → Passed
  passed_pointer : Passed
  passed_slist : List Bytes → Passed

-- The value that is read as the type says, as the object that is stored; `none` where the types of
-- C do not agree, which is undefined. `print_long` is `Tcl_NewWideIntObj`, `print_list` a list of
-- Tcl.
unfoldable pub read_value : (ℕ → Bytes) → (List Bytes → Bytes) → OptionType → Passed → Option Bytes
read_value print_long print_list opt_string (passed_string s) = some s
read_value print_long print_list opt_long (passed_long n) = some (print_long n)
read_value print_long print_list opt_pointer passed_pointer = some (codes "pointer")
read_value print_long print_list opt_slist (passed_slist l) = some (print_list l)
read_value print_long print_list _ _ = none

-- `req->set_options`, which is NULL until the first setting, and what the function can end in.
pub data Registration : Type 0 where
  panic undefined : Registration
  registered : Bytes → Registration

module _ (p : Platform) (find_exact : List (Bytes × OptionType) → Bytes → Option OptionType)
    (print_long : ℕ → Bytes) (print_list : List Bytes → Bytes) where
  pub dict_or_new : Option Bytes → Bytes
  dict_or_new none = p.dict_empty
  dict_or_new (some d) = d

  unfoldable pub put_value : Option Bytes → Bytes → Option Bytes → Registration
  unfolding dict_or_new
  put_value set_options name none = undefined
  put_value set_options name (some val) = registered (p.dict_put (dict_or_new set_options) name val)

  -- `treq_RequestRegisterEasyOption`
  unfoldable pub register_easy_option : Option Bytes → Bytes → Passed → Registration
  unfolding put_value read_value
  register_easy_option set_options name value = elim (find_exact options name) [
    | none ↦ panic
    | some type ↦ put_value set_options name (read_value print_long print_list type value)
  ]

  -- `treq_RequestGetEasyOpts`; `none` is NULL.
  unfoldable pub get_easy_opts :
      (Bytes → Bytes → Option Bytes) → Option Bytes → Option Bytes → Option Bytes
  get_easy_opts dict_get none opt_name = none
  get_easy_opts dict_get (some d) none = some d
  get_easy_opts dict_get (some d) (some name) = dict_get d name
