-- ===== src/Tests/Given.antt =====
-- The theorems on the options at concrete options.
use trequests.Base.{
  ◌≢◌, minus_one, true, false, List, [], ◌∷◌, ◌++◌, none, some, Bytes, codes, ◌≡◌, refl,
}
use trequests.Launch.Sessions.{init_request_options}
use trequests.Options.Compatible.Callback.{validate_options-callback}
use trequests.Options.Compatible.Consistent.{validate_options-IsConsistent, IsConsistent}
use trequests.Options.Compatible.{validate_options}
use trequests.Options.Data.Joined.{validate_data-fields, validate_data-whole}
use trequests.Options.Data.{validate_data, is_odd}
use trequests.Options.Dicts.Headers.{Entries, CaseUnique, keep}
use trequests.Options.Dicts.Merged.{merge_dicts-entries, merge_entries-CaseUnique}
use trequests.Options.Dicts.{merge_dicts, merge_entries}
use trequests.Options.Platform.{ok, params, data_urlencode}
use trequests.Options.Validate.{RawOptions, Options, validate_each, kind}
use trequests.Options.Values.{
  validate_list_of_dicts, validate_object_list, validate_object, validate_auth, validate_boolean,
  present,
}
use trequests.Request.Settings.{post}
use trequests.Tests.Fixtures.{same_text, percent}
use trequests.Tests.Tcl.{
  tcl, tcl-Documented, dict_of, entries_in-dict_of, entries_in, words, add_word,
}

-- The headers of a session and those of a request.
abbrev session_headers : Entries
session_headers = (codes "Host", codes "a") ∷ (codes "Accept", codes "b") ∷ []

abbrev request_headers : Entries
request_headers = (codes "accept", codes "c") ∷ (codes "X", codes "d") ∷ []

session_unique : CaseUnique tcl session_headers
session_unique = unfold same_text in ((refl, tt), (tt, tt))

request_unique : CaseUnique tcl request_headers
request_unique = unfold same_text in ((refl, tt), (tt, tt))

merge_dicts-entries_example :
    (entries_in (merge_dicts tcl (some (dict_of session_headers)) (dict_of request_headers) true)
      ≡ some (keep tcl request_headers session_headers ++ request_headers))
    × (entries_in (merge_dicts tcl none (dict_of request_headers) true)
        ≡ some (keep tcl request_headers [] ++ request_headers))
merge_dicts-entries_example =
    merge_dicts-entries tcl tcl-Documented (dict_of session_headers) (dict_of request_headers)
      session_headers request_headers (entries_in-dict_of session_headers)
      (entries_in-dict_of request_headers) session_unique request_unique

merge_entries-CaseUnique_example :
    (es : Entries) × (entries_in (merge_entries tcl true (dict_of session_headers) request_headers)
      ≡ some es)
    × CaseUnique tcl es
merge_entries-CaseUnique_example =
    merge_entries-CaseUnique tcl tcl-Documented request_headers session_headers
      (dict_of session_headers) (entries_in-dict_of session_headers) session_unique

abbrev a_and_b : Bytes
a_and_b = add_word (codes "a b") (add_word (codes "c") [])

abbrev two_words : List Bytes
two_words = codes "a b" ∷ codes "c" ∷ []

validate_data-fields_example :
    validate_data tcl params (kind true true false) (a_and_b ∷ a_and_b ∷ [])
    ≡ ok (some (codes "a%20b=c&a%20b=c"))
validate_data-fields_example =
    validate_data-fields tcl params percent (λ s pos le. refl) (kind true true false)
      (a_and_b ∷ a_and_b ∷ []) (two_words ∷ two_words ∷ []) refl refl
      (unfold words is_odd in (refl, refl, (refl, refl, tt)))

validate_data-whole_example :
    validate_data tcl data_urlencode (kind true false false) (codes "a b" ∷ [] ∷ codes "c" ∷ [])
    ≡ ok (some (codes "a%20b&c"))
validate_data-whole_example =
    validate_data-whole tcl data_urlencode percent (λ s pos le. refl) (kind true false false)
      (codes "a b" ∷ [] ∷ codes "c" ∷ []) refl refl

-- -async -callback cb -data_urlencode "a b"
abbrev pub raw : RawOptions
raw = record init_request_options {
  callback_arg = record { presence = present; value = some (codes "cb") };
  data_urlencode_arg = record { presence = present; items = codes "a b" ∷ [] };
  async_flag = true;
}

abbrev pub checked : Options
checked = record {
  headers_value = none;
  form_value = none;
  verbose_value = none;
  allow_redirects_value = none;
  callback_value = some (codes "cb");
  callback_debug_value = none;
  auth_scheme_raw = none;
  auth_token_value = none;
  auth_value = none;
  auth_aws_sigv4_raw = none;
  accept_value = none;
  content_type_value = none;
  data_value = none;
  data_urlencode_value = some (codes "a%20b");
  data_fields_value = none;
  data_fields_urlencode_value = none;
  json_value = none;
  params_value = none;
  params_raw_value = none;
  verify_value = none;
  verify_host_value = none;
  verify_peer_value = none;
  verify_status_value = none;
  async = true;
  simple = false;
  timeout_value = minus_one;
  timeout_connect_value = minus_one;
}

validate_options-IsConsistent_example :
    (validate_each tcl raw ≡ ok checked) × IsConsistent post checked
validate_options-IsConsistent_example =
    validate_options-IsConsistent tcl post raw checked none none (
      unfold validate_options validate_list_of_dicts validate_object_list validate_object
        validate_auth validate_data validate_boolean words in
      refl)

-- The same options without -async.
abbrev synchronous : RawOptions
synchronous = record raw { async_flag = false }

validate_options-callback_example : validate_options tcl post synchronous ≢ ok (checked, none, none)
validate_options-callback_example =
    validate_options-callback tcl post synchronous (codes "cb") (98 ∷ 97 ∷ []) []
      (checked, none, none) refl refl (unfold words in refl)
