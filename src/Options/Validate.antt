-- ===== src/Options/Validate.antt =====
-- src/library.c, `treq_ValidateOptions`: every option on its own, and then the options together.
use trequests.Base.{ℤ, Bool, true, false, Option, Bytes}
use trequests.Options.Data.{DataKind, validate_data}
use trequests.Options.Platform.{
  Platform, OptionName, headers, form, verbose, allow_redirects, callback, callback_debug,
  auth_scheme, auth_token, auth, auth_aws_sigv4, accept, content_type, data_raw, data_urlencode,
  data_fields, data_fields_urlencode, json, params, params_raw, verify, verify_host, verify_peer,
  verify_status, Checked, ok, ◌>>=◌,
}
use trequests.Options.Values.{
  ListOption, ObjectOption, validate_common, validate_list_of_dicts, validate_boolean,
  validate_object_list, validate_auth, validate_object,
}

-- `treq_RequestOptions`, as the arguments fill it.
pub record RawOptions : Type 0 where
  pub headers_arg : ListOption
  pub form_arg : ListOption
  pub verbose_arg : ObjectOption
  pub allow_redirects_arg : ObjectOption
  pub callback_arg : ObjectOption
  pub callback_debug_arg : ObjectOption
  pub auth_scheme_arg : ObjectOption
  pub auth_token_arg : ObjectOption
  pub auth_arg : ObjectOption
  pub auth_aws_sigv4_arg : ObjectOption
  pub accept_arg : ObjectOption
  pub content_type_arg : ObjectOption
  pub data_arg : ListOption
  pub data_urlencode_arg : ListOption
  pub data_fields_arg : ListOption
  pub data_fields_urlencode_arg : ListOption
  pub json_arg : ListOption
  pub params_arg : ListOption
  pub params_raw_arg : ListOption
  pub verify_arg : ObjectOption
  pub verify_host_arg : ObjectOption
  pub verify_peer_arg : ObjectOption
  pub verify_status_arg : ObjectOption
  pub async_flag : Bool
  pub simple_flag : Bool
  pub timeout_arg : ℤ
  pub timeout_connect_arg : ℤ

-- The options after the checks; `none` where `isOptionExists` is false. The scheme and the
-- parameters of AWS V4 are still the lists that were given.
pub record Options : Type 0 where
  pub headers_value : Option Bytes
  pub form_value : Option Bytes
  pub verbose_value : Option Bool
  pub allow_redirects_value : Option Bool
  pub callback_value : Option Bytes
  pub callback_debug_value : Option Bytes
  pub auth_scheme_raw : Option Bytes
  pub auth_token_value : Option Bytes
  pub auth_value : Option (Bytes × Bytes)
  pub auth_aws_sigv4_raw : Option Bytes
  pub accept_value : Option Bytes
  pub content_type_value : Option Bytes
  pub data_value : Option Bytes
  pub data_urlencode_value : Option Bytes
  pub data_fields_value : Option Bytes
  pub data_fields_urlencode_value : Option Bytes
  pub json_value : Option Bytes
  pub params_value : Option Bytes
  pub params_raw_value : Option Bytes
  pub verify_value : Option Bool
  pub verify_host_value : Option Bool
  pub verify_peer_value : Option Bool
  pub verify_status_value : Option Bool
  pub async : Bool
  pub simple : Bool
  pub timeout_value : ℤ
  pub timeout_connect_value : ℤ

-- The flags of `treq_InitRequestOptions` for a data option.
abbrev pub kind : Bool → Bool → Bool → DataKind
kind urlencoded fields typed = record {
  is_urlencoded = urlencoded;
  is_fields = fields;
  is_typed = typed;
}

module _ (p : Platform) where
  abbrev pub data_of : OptionName → DataKind → ListOption → Checked (Option Bytes)
  data_of name k o = validate_common name o.presence (validate_data p name k o.items)

  -- The chain of checks of the single options, in its order.
  unfoldable pub validate_each : RawOptions → Checked Options
  unfolding validate_common
  validate_each o = do
    h ← validate_list_of_dicts p headers o.headers_arg
    f ← validate_list_of_dicts p form o.form_arg
    c ← validate_object_list p callback true o.callback_arg
    d ← validate_object_list p callback_debug true o.callback_debug_arg
    s ← validate_object_list p auth_scheme false o.auth_scheme_arg
    t ← validate_object auth_token o.auth_token_arg
    a ← validate_auth p auth o.auth_arg
    w ← validate_object_list p auth_aws_sigv4 false o.auth_aws_sigv4_arg
    ac ← validate_object accept o.accept_arg
    ct ← validate_object content_type o.content_type_arg
    d1 ← data_of data_raw (kind false false false) o.data_arg
    d2 ← data_of data_urlencode (kind true false false) o.data_urlencode_arg
    d3 ← data_of data_fields (kind false true false) o.data_fields_arg
    d4 ← data_of data_fields_urlencode (kind true true false) o.data_fields_urlencode_arg
    j ← data_of json (kind false false true) o.json_arg
    p1 ← data_of params (kind true true false) o.params_arg
    p2 ← data_of params_raw (kind false false false) o.params_raw_arg
    v ← validate_boolean p verify o.verify_arg
    vh ← validate_boolean p verify_host o.verify_host_arg
    vp ← validate_boolean p verify_peer o.verify_peer_arg
    vs ← validate_boolean p verify_status o.verify_status_arg
    vb ← validate_boolean p verbose o.verbose_arg
    ar ← validate_boolean p allow_redirects o.allow_redirects_arg
    ok (record {
      headers_value = h;
      form_value = f;
      verbose_value = vb;
      allow_redirects_value = ar;
      callback_value = c;
      callback_debug_value = d;
      auth_scheme_raw = s;
      auth_token_value = t;
      auth_value = a;
      auth_aws_sigv4_raw = w;
      accept_value = ac;
      content_type_value = ct;
      data_value = d1;
      data_urlencode_value = d2;
      data_fields_value = d3;
      data_fields_urlencode_value = d4;
      json_value = j;
      params_value = p1;
      params_raw_value = p2;
      verify_value = v;
      verify_host_value = vh;
      verify_peer_value = vp;
      verify_status_value = vs;
      async = o.async_flag;
      simple = o.simple_flag;
      timeout_value = o.timeout_arg;
      timeout_connect_value = o.timeout_connect_arg;
    })
