-- ===== src/Launch.antt =====
-- src/library.c, `treq_CreateNewRequest` as a whole: the options are checked, the request is
-- allocated, gets its settings and runs, and the result of the command is set.
pub mod Flags
pub mod Live
pub mod Replies
pub mod Simple
pub mod Made
pub mod Ordered
pub mod Quiet
pub mod Sessions
pub mod Opened
use trequests.Base.{
  ℕ, Bool, true, false, List, [], Option, none, some, Bytes, is_some, if◌then◌else◌,
}
use trequests.Create.{request_settings, of_session}
use trequests.Destroy.{request_free}
use trequests.Options.Compatible.{validate_options}
use trequests.Options.Platform.{OptionError, Checked, ok, failed}
use trequests.Options.Validate.{RawOptions, Options}
use trequests.Request.Callback.{get_error}
use trequests.Request.Memory.{
  Request, RequestState, created, inprogress, done, error, SessionSettings, Memory, M, ◌>>=◌, ◌>>◌,
  return, fault, when◌then◌else◌, load_request, store_request, load_session,
}
use trequests.Request.Settings.{Method, Settings}
use trequests.Response.{Encodings, Response, get_text}
use trequests.Run.Start.{World, request_run}
use trequests.Session.{request_init, session_request_init}

-- The result of the command: the message of a failed check, "failed to alloc", the text or the error
-- of a simple request, "request is in wrong state", or the handle of the request.
pub data Reply : Type 0 where
  refused : OptionError → Reply
  not_allocated wrong_state : Reply
  text error_text : Bytes → Reply
  handle : ℕ → Reply

-- The arguments but for the options.
pub record Wanted : Type 0 where
  pub method : Method
  pub url : Bytes
  pub custom_method : Option Bytes
  pub session : Option ℕ

-- What the call meets: what a run meets, the encodings of Tcl, the look-up of a shortcut, whether
-- libcurl gives a handle, and the header Content-Type of the response.
pub record Site : Type 1 where
  pub world : World
  pub encodings : Encodings
  pub find_exact : List (Bytes × Bytes) → Bytes → Option Bytes
  pub has_handle : Bool
  pub content_type : Option Bytes

module _ (site : Site) where
  open site use {world, encodings, find_exact, has_handle, content_type}

  -- A new request has seen nothing of its response but the body.
  abbrev pub response_with : Option Bytes → Response encodings
  response_with body = record {
    content = body;
    encoding = none;
    content_type = none;
    content_charset = none;
  }

  unfoldable pub text_reply : Request → M Reply
  text_reply q w = elim (get_text encodings content_type (response_with q.content)) [
    | none ↦ none
    | some (shown, _) ↦ some (text shown, w)
  ]

  -- The switch over the state.
  unfoldable pub state_reply : Request → M Reply
  unfolding text_reply
  state_reply q = elim q.state [
    | created ↦ return wrong_state
    | inprogress ↦ return wrong_state
    | done ↦ text_reply q
    | error ↦ return (error_text (get_error q.error q.state q.curl_error))
  ]

  unfoldable pub simple_reply : ℕ → M Reply
  unfolding state_reply
  simple_reply r = do q ← load_request r; reply ← state_reply q; request_free r; return reply

  unfoldable pub create_handle : ℕ → M Reply
  create_handle r = do
    q ← load_request r
    store_request r (record q { cmd_token = true })
    return (handle r)

  unfoldable pub allocate : Settings → Option ℕ → M (Option ℕ)
  allocate settings none w = some (request_init has_handle settings none w)
  allocate settings (some s) w = session_request_init has_handle settings s w

  unfoldable pub defaults : Option ℕ → M (Option SessionSettings)
  defaults none = return none
  defaults (some s) = do ses ← load_session s; return (some ses.settings)

  unfoldable pub run_and_reply : Bool → ℕ → M Reply
  unfolding simple_reply create_handle
  run_and_reply simple r = do
    request_run world r
    when simple then simple_reply r else create_handle r

  unfoldable pub launch : Bool → Option ℕ → M Reply
  unfolding run_and_reply
  launch simple none = return not_allocated
  launch simple (some r) = run_and_reply simple r

  unfoldable pub create_validated : Wanted → Options × Option ℕ × Option Bytes → M Reply
  unfolding allocate defaults launch
  create_validated t given = do
    session ← defaults t.session
    let settings =
        request_settings world.platform find_exact t.method t.url t.custom_method given session
    r ← allocate settings t.session
    launch given.0.simple r

  -- What follows the check of the options.
  unfoldable pub when_checked : Wanted → Checked (Options × Option ℕ × Option Bytes) → M Reply
  when_checked t (failed e) = return (refused e)
  when_checked t (ok given) = create_validated t given

  -- `treq_CreateNewRequest`, from the options as the arguments fill them.
  unfoldable pub create_new_request : Wanted → RawOptions → M Reply
  unfolding when_checked
  create_new_request t raw = when_checked t (validate_options world.platform t.method raw)
