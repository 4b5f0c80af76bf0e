-- ===== src/Create/Defaults.antt =====
-- The settings of a session as defaults of its requests.
use trequests.Base.{
  ℕ, ℤ, pos, negsuc, minus_one, Bool, true, false, List, Option, none, some, Bytes, ◌≡◌, refl,
  arith,
}
use trequests.Auth.{RequestAuth}
use trequests.Create.{
  auth_of, duplicated, or_option, request_settings, session_settings, flag_or, int_or,
}
use trequests.Options.Platform.{Platform}
use trequests.Options.Validate.{Options}
use trequests.Request.Settings.{Method}

-- The options without those that a session has, too.
abbrev pub without_defaults : Options → Options
without_defaults o = record o {
  headers_value = none;
  verbose_value = none;
  allow_redirects_value = none;
  callback_value = none;
  callback_debug_value = none;
  auth_scheme_raw = none;
  auth_token_value = none;
  auth_value = none;
  auth_aws_sigv4_raw = none;
  accept_value = none;
  content_type_value = none;
  verify_value = none;
  verify_host_value = none;
  verify_peer_value = none;
  verify_status_value = none;
  timeout_value = minus_one;
  timeout_connect_value = minus_one;
}

or_option-none : {A : Type 0} (a : Option A) → or_option a none ≡ a
or_option-none none = refl
or_option-none (some a) = refl

duplicated_same : (a : Option RequestAuth) → duplicated a ≡ a
duplicated_same none = refl
duplicated_same (some a) = refl

-- A flag that was stored as an integer is set exactly if the option was given.
int_or-flag_or : (b : Option Bool) (z : ℤ) → int_or (flag_or b minus_one) z ≡ flag_or b z
int_or-flag_or none z = refl
int_or-flag_or (some true) z = refl
int_or-flag_or (some false) z = refl

int_or-minus_one : (z : ℤ) → int_or z minus_one ≡ z
int_or-minus_one (pos n) = refl
int_or-minus_one (negsuc n) = ground arith

module _ (p : Platform) (find_exact : List (Bytes × Bytes) → Bytes → Option Bytes) where
  -- Without -json, a setting that is a default of a session has the same effect on a request in the
  -- session as it has on a request of its own that is given it as an option.
  pub session_settings_lem :
      (method : Method) (url : Bytes) (custom : Option Bytes) (o : Options) (scheme : Option ℕ)
      (aws : Option Bytes)
      → o.json_value ≡ none
      → request_settings p find_exact method url custom
          (without_defaults o, none, none)
          (some (session_settings p find_exact (o, scheme, aws)))
        ≡ request_settings p find_exact method url custom (o, scheme, aws) none
  unfolding request_settings session_settings
  session_settings_lem method url custom o scheme aws json =
      rw
        (
          json,
          int_or-flag_or o.allow_redirects_value (pos 1),
          int_or-flag_or o.verbose_value (pos 0),
          int_or-flag_or o.verify_host_value (flag_or o.verify_value minus_one),
          int_or-flag_or o.verify_peer_value (flag_or o.verify_value minus_one),
          int_or-minus_one o.timeout_value,
          int_or-minus_one o.timeout_connect_value,
          duplicated_same (auth_of o scheme aws),
          or_option-none (auth_of o scheme aws),
          or_option-none o.callback_value,
          or_option-none o.callback_debug_value,
          or_option-none o.accept_value,
          or_option-none o.content_type_value,
        )
        refl
