-- ===== src/Launch/Sessions.antt =====
-- src/library.c, `treq_SessionCmd` as a whole: the options are checked, and the session is allocated and
-- gets them as defaults.
use trequests.Base.{ℕ, ℤ, Bool, false, List, [], Option, none, some, Bytes, minus_one}
use trequests.Create.{session_settings}
use trequests.Destroy.{session_free}
use trequests.Options.Compatible.{validate_options}
use trequests.Options.Platform.{Platform, OptionError, Checked, ok, failed}
use trequests.Options.Validate.{RawOptions, Options}
use trequests.Options.Values.{ListOption, ObjectOption, absent}
use trequests.Request.Memory.{Memory, M}
use trequests.Request.Settings.{custom}
use trequests.Session.{session_init}

-- The result of the command: the message of a failed check, "failed to alloc", or the handle of the
-- session.
pub data SessionReply : Type 0 where
  refused : OptionError → SessionReply
  not_allocated : SessionReply
  handle : ℕ → SessionReply

-- What `Tcl_ParseArgsObjv` collects by the table of the command.
pub record SessionArgs : Type 0 where
  pub headers : ListOption
  pub allow_redirects : ObjectOption
  pub verbose : ObjectOption
  pub callback : ObjectOption
  pub callback_debug : ObjectOption
  pub auth : ObjectOption
  pub auth_token : ObjectOption
  pub auth_scheme : ObjectOption
  pub auth_aws_sigv4 : ObjectOption
  pub accept : ObjectOption
  pub content_type : ObjectOption
  pub timeout : ℤ
  pub timeout_connect : ℤ
  pub verify : ObjectOption
  pub verify_host : ObjectOption
  pub verify_peer : ObjectOption
  pub verify_status : ObjectOption

-- The options of `treq_InitRequestOptions`, none of which is given.
abbrev pub no_list : ListOption
no_list = record { presence = absent; items = [] }

abbrev pub no_object : ObjectOption
no_object = record { presence = absent; value = none }

abbrev pub init_request_options : RawOptions
init_request_options = record {
  headers_arg = no_list;
  form_arg = no_list;
  verbose_arg = no_object;
  allow_redirects_arg = no_object;
  callback_arg = no_object;
  callback_debug_arg = no_object;
  auth_scheme_arg = no_object;
  auth_token_arg = no_object;
  auth_arg = no_object;
  auth_aws_sigv4_arg = no_object;
  accept_arg = no_object;
  content_type_arg = no_object;
  data_arg = no_list;
  data_urlencode_arg = no_list;
  data_fields_arg = no_list;
  data_fields_urlencode_arg = no_list;
  json_arg = no_list;
  params_arg = no_list;
  params_raw_arg = no_list;
  verify_arg = no_object;
  verify_host_arg = no_object;
  verify_peer_arg = no_object;
  verify_status_arg = no_object;
  async_flag = false;
  simple_flag = false;
  timeout_arg = minus_one;
  timeout_connect_arg = minus_one;
}

-- The options that the command fills.
abbrev pub options_with : SessionArgs → RawOptions
options_with a = record init_request_options {
  headers_arg = a.headers;
  verbose_arg = a.verbose;
  allow_redirects_arg = a.allow_redirects;
  callback_arg = a.callback;
  callback_debug_arg = a.callback_debug;
  auth_scheme_arg = a.auth_scheme;
  auth_token_arg = a.auth_token;
  auth_arg = a.auth;
  auth_aws_sigv4_arg = a.auth_aws_sigv4;
  accept_arg = a.accept;
  content_type_arg = a.content_type;
  verify_arg = a.verify;
  verify_host_arg = a.verify_host;
  verify_peer_arg = a.verify_peer;
  verify_status_arg = a.verify_status;
  timeout_arg = a.timeout;
  timeout_connect_arg = a.timeout_connect;
}

abbrev session_reply : Option ℕ × Memory → Option (SessionReply × Memory)
session_reply (none, w) = some (not_allocated, w)
session_reply (some s, w) = some (handle s, w)

module _ (p : Platform) (find_exact : List (Bytes × Bytes) → Bytes → Option Bytes)
    (inited : Bool) where
  unfoldable pub open_session : Checked (Options × Option ℕ × Option Bytes) → M SessionReply
  open_session (failed e) w = some (refused e, w)
  open_session (ok given) w =
      session_reply (session_init inited (session_settings p find_exact given) w)

  -- `treq_SessionCmd`; `inited` says whether libcurl gives a share handle.
  unfoldable pub session_cmd : SessionArgs → M SessionReply
  unfolding open_session
  session_cmd a = open_session (validate_options p custom (options_with a))

-- `treq_SessionHandleDelete`: what Tcl calls when the handle command of a session is deleted, by the
-- command's "destroy" among others.
unfoldable pub session_handle_delete : ℕ → M (Unit {0})
session_handle_delete = session_free
