-- ===== src/Options/Compatible/Callback.antt =====
-- The callback among the options that are checked one by one.
use trequests.Base.{
  subst, ℕ, ◌≢◌, true, false, not, ◌&&◌, List, ◌∷◌, Option, some, Bytes, ◌≡◌, refl, ap, arith,
  is_some,
}
use trequests.Options.Compatible.Consistent.{
  some_result, validate_options-IsConsistent, IsConsistent,
}
use trequests.Options.Compatible.{validate_options}
use trequests.Options.Platform.{
  Platform, headers, form, verbose, allow_redirects, callback, callback_debug, auth_scheme,
  auth_token, auth, auth_aws_sigv4, accept, content_type, data_raw, data_urlencode, data_fields,
  data_fields_urlencode, json, params, params_raw, verify, verify_host, verify_peer, verify_status,
  Checked, ok, failed,
}
use trequests.Options.Validate.{RawOptions, Options, validate_each, data_of, kind}
use trequests.Options.Values.{
  present, validate_object_list, validate_list_of_dicts, validate_object, validate_auth,
  validate_boolean,
}
use trequests.Request.Settings.{Method}

checked_or : Checked Options → Options → Options
checked_or (ok o) d = o
checked_or (failed e) d = d

module _ (p : Platform) where
  abbrev Keeps : RawOptions → Options → Type 0
  Keeps raw o =
      (validate_object_list p callback true raw.callback_arg ≡ ok o.callback_value)
      × (o.async ≡ raw.async_flag)

  validate_each-Keeps : (raw : RawOptions) (o : Options) → validate_each p raw ≡ ok o → Keeps raw o
  unfolding validate_each checked_or
  validate_each-Keeps raw o e =
      let (_, _, e0) = some_result (validate_list_of_dicts p headers raw.headers_arg) _ o e in
      let (_, _, e1) = some_result (validate_list_of_dicts p form raw.form_arg) _ o e0 in
      let (_, found, e2) =
        some_result (validate_object_list p callback true raw.callback_arg) _ o e1 in
      let (_, _, e3) =
        some_result (validate_object_list p callback_debug true raw.callback_debug_arg) _ o e2 in
      let (_, _, e4) =
        some_result (validate_object_list p auth_scheme false raw.auth_scheme_arg) _ o e3 in
      let (_, _, e5) = some_result (validate_object auth_token raw.auth_token_arg) _ o e4 in
      let (_, _, e6) = some_result (validate_auth p auth raw.auth_arg) _ o e5 in
      let (_, _, e7) =
        some_result (validate_object_list p auth_aws_sigv4 false raw.auth_aws_sigv4_arg) _ o e6 in
      let (_, _, e8) = some_result (validate_object accept raw.accept_arg) _ o e7 in
      let (_, _, e9) = some_result (validate_object content_type raw.content_type_arg) _ o e8 in
      let (_, _, e10) =
        some_result (data_of p data_raw (kind false false false) raw.data_arg) _ o e9 in
      let (_, _, e11) =
        some_result (data_of p data_urlencode (kind true false false) raw.data_urlencode_arg) _ o
          e10 in
      let (_, _, e12) =
        some_result (data_of p data_fields (kind false true false) raw.data_fields_arg) _ o e11 in
      let (_, _, e13) =
        some_result
          (data_of p data_fields_urlencode (kind true true false) raw.data_fields_urlencode_arg) _ o
          e12 in
      let (_, _, e14) = some_result (data_of p json (kind false false true) raw.json_arg) _ o e13 in
      let (_, _, e15) =
        some_result (data_of p params (kind true true false) raw.params_arg) _ o e14 in
      let (_, _, e16) =
        some_result (data_of p params_raw (kind false false false) raw.params_raw_arg) _ o e15 in
      let (_, _, e17) = some_result (validate_boolean p verify raw.verify_arg) _ o e16 in
      let (_, _, e18) = some_result (validate_boolean p verify_host raw.verify_host_arg) _ o e17 in
      let (_, _, e19) = some_result (validate_boolean p verify_peer raw.verify_peer_arg) _ o e18 in
      let (_, _, e20) =
        some_result (validate_boolean p verify_status raw.verify_status_arg) _ o e19 in
      let (_, _, e21) = some_result (validate_boolean p verbose raw.verbose_arg) _ o e20 in
      let (_, _, e22) =
        some_result (validate_boolean p allow_redirects raw.allow_redirects_arg) _ o e21 in
      subst (Keeps raw) (ap (λ m. checked_or m o) e22) (found, refl)

  -- A callback that is not an empty list is refused without -async, whatever the method and the
  -- other options. The options of a session have no -async.
  pub validate_options-callback :
      (method : Method) (raw : RawOptions) (value x : Bytes) (xs : List Bytes)
      (r : Options × Option ℕ × Option Bytes)
      → raw.async_flag ≡ false
      → raw.callback_arg ≡ record { presence = present; value = some value }
      → p.list_elements value ≡ some (x ∷ xs)
      → validate_options p method raw ≢ ok r
  unfolding validate_object_list
  validate_options-callback method raw value x xs (o, s, a) sync given elements e =
      let (each, consistent) = validate_options-IsConsistent p method raw o s a e in
      let (c, flag) = validate_each-Keeps raw o each in
      let kept : o.callback_value ≡ some value = ground arith in
      let mode : (not o.async && is_some o.callback_value) ≡ false =
        (unfold IsConsistent in consistent.4) in
      ground arith
