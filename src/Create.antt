-- ===== src/Create.antt =====
-- src/library.c, `treq_CreateNewRequest` and `treq_SessionCmd`: the settings of a request, from its
-- options and those of its session, and the defaults of a session. The functions of src/common.c
-- that make the headers of the shortcuts are here too.
pub mod Commands
pub mod Defaults
use trequests.Auth.{RequestAuth}
use trequests.Auth
use trequests.Base.{
  ℕ, ℤ, pos, minus_one, int_eq, Bool, true, false, ◌||◌, List, [], ◌∷◌, ◌++◌, Option, none, some,
  Bytes, codes, is_some, if◌then◌else◌,
}
use trequests.Options.Dicts.{merge_dicts}
use trequests.Options.Platform.{Platform}
use trequests.Options.Validate.{Options}
use trequests.Request.Memory.{SessionSettings}
use trequests.Request.Settings.{Method, Settings}

-- `isOptionExists(a) ? a : b`
abbrev pub or_option {ℓ} : {A : Type ℓ} → Option A → Option A → Option A
or_option none b = b
or_option (some a) b = some a

-- The integer of a boolean option.
abbrev pub int_of : Bool → ℤ
int_of true = pos 1
int_of false = pos 0

abbrev pub flag_or : Option Bool → ℤ → ℤ
flag_or none z = z
flag_or (some b) z = int_of b

-- `a != -1 ? a : b`
abbrev pub int_or : ℤ → ℤ → ℤ
int_or a b = if int_eq a minus_one then b else a

-- `-1` as a 64-bit pattern: the scheme where -auth_scheme is not given.
abbrev pub no_scheme : ℕ
no_scheme = 18446744073709551615

abbrev pub or_no_scheme : Option ℕ → ℕ
or_no_scheme none = no_scheme
or_no_scheme (some s) = s

abbrev username_of : Option (Bytes × Bytes) → Option Bytes
username_of none = none
username_of (some (u, w)) = some u

abbrev password_of : Option (Bytes × Bytes) → Option Bytes
password_of none = none
password_of (some (u, w)) = some w

-- The credentials of a session, if it has any, for a request.
abbrev pub duplicated : Option RequestAuth → Option RequestAuth
duplicated none = none
duplicated (some a) = some (Auth.duplicate a)

-- The credentials, if one of their options is given.
unfoldable pub auth_of : Options → Option ℕ → Option Bytes → Option RequestAuth
auth_of o scheme aws =
    if is_some o.auth_scheme_raw
      || (is_some o.auth_token_value || (is_some o.auth_value || is_some o.auth_aws_sigv4_raw))
    then some (
        Auth.init (username_of o.auth_value) (password_of o.auth_value) o.auth_token_value aws
          (or_no_scheme scheme))
    else none

abbrev pub accept_shortcuts : List (Bytes × Bytes)
accept_shortcuts = (codes "all", codes "*/*") ∷ (codes "json", codes "application/json") ∷ []

abbrev pub content_type_shortcuts : List (Bytes × Bytes)
content_type_shortcuts = (codes "json", codes "application/json") ∷ []

-- `request->session->...`, and NULL or -1 without a session.
abbrev pub of_session {ℓ} : {A : Type ℓ} → Option SessionSettings → A → (SessionSettings → A) → A
of_session none a f = a
of_session (some s) a f = f s

-- `Tcl_GetIndexFromObjStruct` with TCL_EXACT is a parameter, which gives the value of the entry.
module _ (p : Platform) (find_exact : List (Bytes × Bytes) → Bytes → Option Bytes) where
  -- `treq_GenerateHeader`
  unfoldable pub generate_header : Bytes → List (Bytes × Bytes) → Bytes
  generate_header name table = elim (find_exact table name) [ none ↦ name | some value ↦ value ]

  abbrev generate_header_accept : Bytes → Bytes
  generate_header_accept accept = codes "Accept: " ++ generate_header accept accept_shortcuts

  abbrev generate_header_content_type : Bytes → Bytes
  generate_header_content_type type =
      codes "Content-Type: " ++ generate_header type content_type_shortcuts

  abbrev mapped : (Bytes → Bytes) → Option Bytes → Option Bytes
  mapped f none = none
  mapped f (some a) = some (f a)

  -- "json" where -json is given.
  abbrev json_name : Option Bytes → Option Bytes
  json_name none = none
  json_name (some j) = some (codes "json")

  abbrev merged_headers : Option Bytes → Option Bytes → Option Bytes
  merged_headers none inherited = inherited
  merged_headers (some h) inherited = some (merge_dicts p inherited h true)

  -- What `treq_CreateNewRequest` stores in the request.
  unfoldable pub request_settings :
      Method
      → Bytes
      → Option Bytes
      → Options × Option ℕ × Option Bytes
      → Option SessionSettings
      → Settings
  unfolding auth_of
  request_settings method url custom (o, scheme, aws) session = record {
    url = url;
    headers = merged_headers o.headers_value (of_session session none (λ s. s.headers));
    header_accept = mapped generate_header_accept (
        or_option o.accept_value
          (or_option (json_name o.json_value) (of_session session none (λ s. s.accept))));
    header_content_type = mapped generate_header_content_type (
        or_option o.content_type_value
          (or_option (json_name o.json_value) (of_session session none (λ s. s.content_type))));
    form = o.form_value;
    method = method;
    custom_method = custom;
    auth = or_option (auth_of o scheme aws) (of_session session none (λ s. duplicated s.auth));
    postfields = or_option o.data_value (
        or_option o.data_urlencode_value
          (or_option o.data_fields_value (or_option o.data_fields_urlencode_value o.json_value)));
    querystring = or_option o.params_value o.params_raw_value;
    allow_redirects =
        flag_or o.allow_redirects_value
          (of_session session (pos 1) (λ s. int_or s.allow_redirects (pos 1)));
    verbose = flag_or o.verbose_value (of_session session (pos 0) (λ s. int_or s.verbose (pos 0)));
    timeout = int_or o.timeout_value (of_session session minus_one (λ s. s.timeout));
    timeout_connect =
        int_or o.timeout_connect_value (of_session session minus_one (λ s. s.timeout_connect));
    verify_host = flag_or o.verify_host_value (
        flag_or o.verify_value (of_session session minus_one (λ s. int_or s.verify_host s.verify)));
    verify_peer = flag_or o.verify_peer_value (
        flag_or o.verify_value (of_session session minus_one (λ s. int_or s.verify_peer s.verify)));
    verify_status =
        flag_or o.verify_status_value (of_session session minus_one (λ s. s.verify_status));
    callback =
        if o.async
        then or_option o.callback_value (of_session session none (λ s. s.callback))
        else none;
    async = o.async;
    callback_debug =
        or_option o.callback_debug_value (of_session session none (λ s. s.callback_debug));
  }

  -- What `treq_SessionCmd` stores in the session.
  unfoldable pub session_settings : Options × Option ℕ × Option Bytes → SessionSettings
  unfolding auth_of
  session_settings (o, scheme, aws) = record {
    headers = merged_headers o.headers_value none;
    auth = auth_of o scheme aws;
    allow_redirects = flag_or o.allow_redirects_value minus_one;
    verbose = flag_or o.verbose_value minus_one;
    callback = o.callback_value;
    callback_debug = o.callback_debug_value;
    accept = o.accept_value;
    content_type = o.content_type_value;
    timeout = o.timeout_value;
    timeout_connect = o.timeout_connect_value;
    verify = flag_or o.verify_value minus_one;
    verify_host = flag_or o.verify_host_value minus_one;
    verify_peer = flag_or o.verify_peer_value minus_one;
    verify_status = flag_or o.verify_status_value minus_one;
  }
