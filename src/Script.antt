-- ===== src/Script.antt =====
-- src/library.c: what a script evaluates, from the words of a command to the function that the command
-- is registered with: a command of the package, the handle of a session, or that of a request.
pub mod Dispatch
pub mod Callbacks
pub mod Words
pub mod Getters
pub mod Safe
use trequests.Base.{if◌then◌else◌, ◌==◌, ℕ, Bool, List, [], ◌∷◌, Option, none, some, Bytes}
use trequests.Create.Commands.{
  Action, wrong_args, unknown_command, destroy, create, Creation, SessionCommand, request_cmd,
  session_handle_cmd,
}
use trequests.Destroy.{handle_delete}
use trequests.Launch.Sessions.{SessionReply, SessionArgs, session_cmd, session_handle_delete}
use trequests.Request.Callback.{get_error, get_state}
use trequests.Response.{Encodings, Response, get_text, get_content, get_encoding, set_encoding}
use trequests.Launch.{response_with, Site, Reply, create_new_request}
use trequests.Options.Validate.{RawOptions}
use trequests.Package.{CommandProc, request_proc, session_proc, curl_version_proc}
use trequests.Request.Memory.{Request, Memory, M, ◌>>=◌, ◌>>◌, return, fault, load_request}
use trequests.Request.Settings.{Method}
use trequests.Response.Headers.{
  HandleEntry, HandleCommand, cmd_text, cmd_content, cmd_error, cmd_headers, cmd_header,
  cmd_encoding, cmd_status_code, cmd_state, cmd_destroy, HandleAction, run_command,
  request_handle_cmd, Header, get_header, get_headers,
}
use trequests.Response.Headers
use trequests.Version.{VersionReply, VersionInfo, curl_version_cmd}

-- A command by its procedure and its client data.
pub data Command : Type 0 where
  of_package : CommandProc → Command
  of_session of_request : ℕ → Command

-- What the command answers: that its words are wrong, what one of the functions answers, a text or a
-- list that a request shows, that the response has no such header or Tcl no such encoding, or nothing.
pub data Outcome : Type 0 where
  bad_words bad_options nothing : Outcome
  made : Reply → Outcome
  opened : SessionReply → Outcome
  told : VersionReply → Outcome
  shown no_header no_encoding : Bytes → Outcome
  listed : List Bytes → Outcome

-- What Tcl and libcurl do: `Tcl_ParseArgsObjv` by the table of either command, the look-ups in tables,
-- whether libcurl gives a share handle, what it says of itself, and what it has of the response of each
-- request: the header Content-Type, a header by its name and index, all of them, and the status code.
pub record Front : Type 0 where
  pub parse_request : List Bytes → Option RawOptions
  pub parse_session : List Bytes → Option SessionArgs
  pub find_method : List (Bytes × Method) → Bytes → Option Method
  pub find_session_command : List (Bytes × SessionCommand) → Bytes → Option SessionCommand
  pub find_request_command : List (Bytes × HandleEntry) → Bytes → Option HandleEntry
  pub has_share : Bool
  pub dict_get : Bytes → Bytes → Option Bytes
  pub version_info : VersionInfo
  pub content_type : ℕ → Option Bytes
  pub header_at : ℕ → Bytes → ℕ → Option Header
  pub headers : ℕ → List (Bytes × Bytes)
  pub status_code : ℕ → Bytes

-- The outcome of a function.
abbrev pub giving : {A : Type 0} → (A → Outcome) → M A → M Outcome
giving {A} f m w = go (m w)
  where
    go : Option (A × Memory) → Option (Outcome × Memory)
    go none = none
    go (some (a, v)) = some (f a, v)

module _ (site : Site) (front : Front) where
  -- The call of `treq_CreateNewRequest`, up to its check of the options. It reads the URL from the
  -- first word.
  unfoldable pub created_with : Creation → Bytes → Option RawOptions → M Outcome
  created_with c url none = return bad_options
  created_with c url (some raw) = giving made (
      create_new_request site
        (record {
          method = c.method;
          url = url;
          custom_method = c.custom_method;
          session = c.session;
        })
        raw)

  unfoldable pub create_with : Creation → List Bytes → M Outcome
  unfolding created_with
  create_with c [] = fault
  create_with c (url ∷ options) = created_with c url (front.parse_request (url ∷ options))

  -- `destroyed` is what deletes the command.
  unfoldable pub run_action : M (Unit {0}) → Action → M Outcome
  unfolding create_with
  run_action destroyed wrong_args = return bad_words
  run_action destroyed unknown_command = return bad_words
  run_action destroyed destroy = giving (λ _. nothing) destroyed
  run_action destroyed (create c) = create_with c c.words

  unfoldable pub opened_with : Option SessionArgs → M Outcome
  opened_with none = return bad_options
  opened_with (some a) =
      giving opened (session_cmd site.world.platform site.find_exact front.has_share a)

  -- The fields of the requests for their responses, by address. They are NULL in a new request, which
  -- gets a new address.
  abbrev pub Shown : Type 0
  Shown = ℕ → Response site.encodings

  abbrev pub new_shown : Shown
  new_shown r = response_with site none

  -- What a getter answers, with the fields as it leaves them; `none` is a fault. Its word is there, as
  -- the entry of the command says.
  abbrev pub GetterResult : Type 0
  GetterResult = Option (Outcome × Response site.encodings)

  abbrev shown_with : Option (Bytes × Response site.encodings) → GetterResult
  shown_with none = none
  shown_with (some (text, q)) = some (shown text, q)

  abbrev header_result : Bytes → Response site.encodings → Option (List Bytes) → GetterResult
  header_result name q none = some (no_header name, q)
  header_result name q (some values) = some (listed values, q)

  -- `cmdEncoding` with a word, which `Tcl_GetEncoding` looks up.
  unfoldable pub encoding_result :
      ℕ → Bytes → Response site.encodings → Option site.encodings.Encoding → GetterResult
  encoding_result r name q none = some (no_encoding name, q)
  encoding_result r name q (some e) =
      shown_with
        (get_encoding site.encodings (front.content_type r) (set_encoding site.encodings e q))

  -- The switch of `treq_RequestHandleCmd` but for "destroy".
  unfoldable pub getter :
      ℕ → HandleCommand → Option Bytes → Request → Response site.encodings → GetterResult
  unfolding encoding_result
  getter r cmd_text word q f = shown_with (get_text site.encodings (front.content_type r) f)
  getter r cmd_content word q f = some (shown (get_content site.encodings f), f)
  getter r cmd_error word q f = some (shown (get_error q.error q.state q.curl_error), f)
  getter r cmd_headers word q f = some (listed (get_headers (front.headers r)), f)
  getter r cmd_header (some name) q f = header_result name f (get_header (front.header_at r name))
  getter r cmd_header none q f = none
  getter r cmd_encoding none q f = shown_with (get_encoding site.encodings (front.content_type r) f)
  getter r cmd_encoding (some name) q f =
      encoding_result r name f (site.encodings.find_encoding name)
  getter r cmd_status_code word q f = some (shown (front.status_code r), f)
  getter r cmd_state word q f = some (shown (get_state q.state), f)
  getter r cmd_destroy word q f = none

  -- The fields of one request change.
  abbrev pub kept_by : ℕ → Shown → Memory → GetterResult → Option ((Outcome × Shown) × Memory)
  kept_by r s w none = none
  kept_by r s w (some (o, f)) = some ((o, λ x. if x == r then f else s x), w)

  unfoldable pub run_getter : ℕ → HandleCommand → Option Bytes → Shown → M (Outcome × Shown)
  unfolding getter
  run_getter r c word s = do
    q ← load_request r
    λ w. kept_by r s w (getter r c word q (record (s r) { content = q.content }))

  -- An outcome that leaves the fields alone.
  abbrev pub unshown : Shown → M Outcome → M (Outcome × Shown)
  unshown s m = do o ← m; return (o, s)

  unfoldable pub run_handle : ℕ → HandleAction → Shown → M (Outcome × Shown)
  unfolding run_getter
  run_handle r (run_command cmd_destroy word) s =
      unshown s (giving (λ _. nothing) (handle_delete r))
  run_handle r (run_command c word) s = run_getter r c word s
  run_handle r _ s = return (bad_words, s)

  unfoldable pub evaluate : Command → List Bytes → Shown → M (Outcome × Shown)
  unfolding run_action opened_with run_handle
  evaluate (of_package (request_proc m)) words s =
      unshown s
        (run_action fault (request_cmd front.find_method front.find_session_command m words))
  evaluate (of_package session_proc) words s = unshown s (opened_with (front.parse_session words))
  evaluate (of_package curl_version_proc) words s =
      return
        (told (curl_version_cmd site.world.platform front.dict_get front.version_info words), s)
  evaluate (of_session r) words s = unshown s (
      run_action (session_handle_delete r)
        (session_handle_cmd front.find_method front.find_session_command r words))
  evaluate (of_request r) words s =
      run_handle r (request_handle_cmd front.find_request_command words) s
