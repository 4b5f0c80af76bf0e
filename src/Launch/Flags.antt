-- ===== src/Launch/Flags.antt =====
-- The flags of the options pass the checks as they are.
use trequests.Base.{ℕ, true, false, Option, Bytes, ◌≡◌, refl, arith, subst}
use trequests.Options.Compatible.Consistent.{IsConsistent, validate_options-IsConsistent}
use trequests.Options.Compatible.{validate_options}
use trequests.Options.Platform.{
  accept, allow_redirects, auth, auth_aws_sigv4, auth_scheme, auth_token, callback, callback_debug,
  content_type, data_fields, data_fields_urlencode, data_raw, data_urlencode, form, headers, json,
  params, params_raw, verbose, verify, verify_host, verify_peer, verify_status, Platform,
  OptionError, Checked, ok, failed, ◌>>=◌,
}
use trequests.Options.Validate.{RawOptions, Options, validate_each, data_of, kind}
use trequests.Request.Settings.{Method}
use trequests.Options.Values.{
  validate_auth, validate_boolean, validate_list_of_dicts, validate_object, validate_object_list,
}

-- A result that fails, or of which `P` holds.
data Passes {A : Type 0} (P : A → Type 0) : Checked A → Type 0 where
  fails : {e : OptionError} → Passes P (failed e)
  passes : {a : A} → P a → Passes P (ok a)

after :
    {A B : Type 0} {P : B → Type 0} (m : Checked A) (f : A → Checked B)
    → ((a : A) → Passes P (f a))
    → Passes P (m >>= f)
after (ok a) f h = h a
after (failed e) f h = fails

passes_ok : {A : Type 0} {P : A → Type 0} (a : A) → Passes P (ok a) → P a
passes_ok a (passes h) = h

module _ (p : Platform) (raw : RawOptions) where
  abbrev KeepsFlags : Options → Type 0
  KeepsFlags o = (o.simple ≡ raw.simple_flag) × (o.async ≡ raw.async_flag)

  flags : Passes KeepsFlags (validate_each p raw)
  unfolding validate_each
  flags = after (validate_list_of_dicts p headers raw.headers_arg) _ λ _.
      after (validate_list_of_dicts p form raw.form_arg) _ λ _.
        after (validate_object_list p callback true raw.callback_arg) _ λ _.
          after (validate_object_list p callback_debug true raw.callback_debug_arg) _ λ _.
            after (validate_object_list p auth_scheme false raw.auth_scheme_arg) _ λ _.
              after (validate_object auth_token raw.auth_token_arg) _ λ _.
                after (validate_auth p auth raw.auth_arg) _ λ _.
                  after (validate_object_list p auth_aws_sigv4 false raw.auth_aws_sigv4_arg) _ λ _.
                    after (validate_object accept raw.accept_arg) _ λ _.
                      after (validate_object content_type raw.content_type_arg) _ λ _.
                        after (data_of p data_raw (kind false false false) raw.data_arg) _ λ _.
                          after
                            (data_of p data_urlencode (kind true false false)
                              raw.data_urlencode_arg)
                            _
                            λ _.
                              after
                                (data_of p data_fields (kind false true false) raw.data_fields_arg)
                                _
                                λ _.
                                  after
                                    (data_of p data_fields_urlencode (kind true true false)
                                      raw.data_fields_urlencode_arg)
                                    _
                                    λ _.
                                      after (data_of p json (kind false false true) raw.json_arg) _
                                        λ _.
                                          after
                                            (data_of p params (kind true true false) raw.params_arg)
                                            _
                                            λ _.
                                              after
                                                (data_of p params_raw (kind false false false)
                                                  raw.params_raw_arg)
                                                _
                                                λ _.
                                                  after (validate_boolean p verify raw.verify_arg) _
                                                    λ _.
                                                      after
                                                        (validate_boolean p verify_host
                                                          raw.verify_host_arg)
                                                        _
                                                        λ _.
                                                          after
                                                            (validate_boolean p verify_peer
                                                            raw.verify_peer_arg)
                                                            _
                                                            λ _.
                                                            after
                                                            (validate_boolean p verify_status
                                                            raw.verify_status_arg)
                                                            _
                                                            λ _.
                                                            after
                                                            (validate_boolean p verbose
                                                            raw.verbose_arg)
                                                            _
                                                            λ _.
                                                            after
                                                            (validate_boolean p allow_redirects
                                                            raw.allow_redirects_arg)
                                                            _ λ _. passes (refl, refl)

-- Options that pass the checks are as simple and as asynchronous as they were given.
pub accepted_flags :
    (p : Platform) (method : Method) (raw : RawOptions) (o : Options) (s : Option ℕ)
    (a : Option Bytes)
    → validate_options p method raw ≡ ok (o, s, a)
    → KeepsFlags p raw o
accepted_flags p method raw o s a e =
    let (each, _) = validate_options-IsConsistent p method raw o s a e in
    passes_ok o (subst (Passes (KeepsFlags p raw)) each (flags p raw))

-- The options of a request that is created with -simple, if they pass the checks.
pub accepted_simple :
    (p : Platform) (method : Method) (raw : RawOptions) (o : Options) (s : Option ℕ)
    (a : Option Bytes)
    → raw.simple_flag ≡ true
    → validate_options p method raw ≡ ok (o, s, a)
    → (o.simple ≡ true) × (o.async ≡ false)
unfolding IsConsistent
accepted_simple p method raw o s a simple e =
    let (_, consistent) = validate_options-IsConsistent p method raw o s a e in
    ground (arith, accepted_flags p method raw o s a e, consistent.3)
