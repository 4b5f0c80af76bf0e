-- ===== src/Tests/Running.antt =====
-- The theorems on runs, on the creation of requests, and on whole histories.
use trequests.Base.{
  minus_one, true, false, [], ◌∷◌, ◌++◌, Option, none, some, Bytes, codes, ◌≡◌, refl, arith, subst,
  sym, ap, if◌then◌else◌, ◌==◌,
}
use trequests.History.Ordered.{Reach-ThreadInv, Reach-act}
use trequests.History.Served.{serve_times, serve_times-AllServed, AllServed}
use trequests.History.{
  Happening, create_request, create_session, act, empty_thread, Reach, nothing_yet, next,
}
use trequests.Launch.Made.{InLive}
use trequests.Launch.Ordered.{create_new_request-ThreadInv}
use trequests.Launch.Opened.{session_cmd-Answered, Answered}
use trequests.Launch.Sessions.{SessionArgs, session_cmd, no_list, no_object}
use trequests.Create.{session_settings}
use trequests.Options.Compatible.{validate_options}
use trequests.Options.Data.{validate_data}
use trequests.Options.Values.{
  validate_list_of_dicts, validate_object_list, validate_object, validate_auth, validate_boolean,
}
use trequests.Launch.Quiet.{create_new_request-IsSimple, IsSimple, Keeps}
use trequests.Launch.Simple.{Returns}
use trequests.Launch.{Site, Wanted, create_new_request}
use trequests.Options.Validate.{RawOptions}
use trequests.Options.Values.{absent}
use trequests.Request.Memory.{Request, update, created, SessionSettings, Memory, Leaves}
use trequests.Request.Settings.{post}
use trequests.Run.Body.Outcome.{Outcome, configure-Outcome}
use trequests.Run.Body.Asked.{asked}
use trequests.Run.Body.{configure, curl_headers}
use trequests.Run.Start.Ends.{OnlyRequest, IsOver, request_run-IsOver}
use trequests.Run.Start.{World, Transfer, request_run}
use trequests.Run.{Setting, Curl, curlu}
use trequests.Session.{session_init}
use trequests.Tests.Creation.{find_entry}
use trequests.Tests.Given.{raw}
use trequests.Tests.Shown.{encodings}
use trequests.Tests.Tcl.{tcl}
use trequests.Tests.Threads.{thread, waiting, request_with}
use trequests.Tests.Threads.Pools.{thread-PoolInv}
use trequests.Tests.Threads.Queues.{thread-QueueInv}
use trequests.Thread.{ThreadInv}

-- A libcurl that takes all settings but the URL.
abbrev refusal : Setting → Option Bytes
refusal curlu = some (codes "no")
refusal _ = none

abbrev curl : Curl
curl = record {
  setopt = λ made s. refusal s;
  slist_append = λ hs h. some (hs ++ h ∷ []);
  bearer_only = 2147483712;
}

abbrev willing : Curl
willing = record curl { setopt = λ made s. none }

abbrev transfer : Transfer
transfer = record { chunks = (true, codes "hi") ∷ []; is_ok = true; curl_error = [] }

abbrev world : World
world = record {
  curl = willing;
  platform = tcl;
  print_long = λ n. codes "0";
  inited = true;
  added = true;
  transfer = transfer;
}

-- A synchronous request.
abbrev plain : Request
plain = record (request_with none created false none) {
  settings = record (request_with none created false none).settings { async = false };
}

abbrev one_request : Memory
one_request = record empty_thread { requests = λ r. if r == 7 then some plain else none; fresh = 8 }

request_run-IsOver_example :
    Leaves
      (request_run world 7 one_request)
      (λ v. (q' : Request) × OnlyRequest one_request 7 q' v × IsOver q'.state)
request_run-IsOver_example = request_run-IsOver world one_request 7 plain refl refl

configure-Outcome_example :
    Outcome curl [] (asked 2147483712 tcl plain.settings []) (configure curl tcl plain.settings)
unfolding curl_headers
configure-Outcome_example = configure-Outcome curl tcl plain.settings [] refl

abbrev pub site : Site
site = record {
  world = world;
  encodings = encodings;
  find_exact = find_entry;
  has_handle = true;
  content_type = none;
}

abbrev pub session_defaults : SessionSettings
session_defaults = record {
  headers = none;
  auth = none;
  allow_redirects = minus_one;
  verbose = minus_one;
  callback = none;
  callback_debug = none;
  accept = none;
  content_type = none;
  timeout = minus_one;
  timeout_connect = minus_one;
  verify = minus_one;
  verify_host = minus_one;
  verify_peer = minus_one;
  verify_status = minus_one;
}

abbrev pub no_args : SessionArgs
no_args = record {
  headers = no_list;
  allow_redirects = no_object;
  verbose = no_object;
  callback = no_object;
  callback_debug = no_object;
  auth = no_object;
  auth_token = no_object;
  auth_scheme = no_object;
  auth_aws_sigv4 = no_object;
  accept = no_object;
  content_type = no_object;
  timeout = minus_one;
  timeout_connect = minus_one;
  verify = no_object;
  verify_host = no_object;
  verify_peer = no_object;
  verify_status = no_object;
}

session_cmd-Answered_example :
    Returns
      (session_cmd tcl find_entry true no_args empty_thread)
      (Answered tcl find_entry true empty_thread no_args)
session_cmd-Answered_example =
    session_cmd-Answered tcl find_entry true empty_thread no_args (Reach-ThreadInv nothing_yet)

-- A thread with a session at address 0.
abbrev with_session : Memory
with_session = record empty_thread {
  sessions =
      update empty_thread.sessions 0 (some (record { settings = session_defaults; requests = [] }));
  fresh = 1;
}

abbrev wanted : Wanted
wanted = record {
  method = post;
  url = codes "http://localhost";
  custom_method = none;
  session = some 0;
}

session_is_live : InLive with_session (some 0)
session_is_live s e = ground arith

with_session-Reach : Reach with_session
unfolding act session_cmd session_init validate_options validate_list_of_dicts validate_object_list
    validate_object validate_auth validate_data validate_boolean session_settings
with_session-Reach = next (create_session site true no_args) nothing_yet tt refl

abbrev creation : Happening
creation = create_request site wanted raw

Reach-act_example : (v : Memory) × (act creation with_session ≡ some (tt, v)) × Reach v
Reach-act_example = Reach-act with_session creation with_session-Reach (tt, session_is_live, refl)

abbrev memory_of : Option (Unit {0} × Memory) → Memory
memory_of none = empty_thread
memory_of (some (_, v)) = v

-- The memory after the request is made.
abbrev with_request : Memory
with_request = memory_of (act creation with_session)

with_request-Reach : Reach with_request
with_request-Reach =
    let (v, e, reach) =
      Reach-act with_session creation with_session-Reach (tt, session_is_live, refl) in
    subst Reach (sym (ap memory_of e)) reach

Reach-ThreadInv_example : ThreadInv with_request
Reach-ThreadInv_example = Reach-ThreadInv with_request-Reach

pub thread-ThreadInv : ThreadInv thread
thread-ThreadInv = record {
  books = thread-PoolInv;
  queue = thread-QueueInv;
  tidy = record { idle = λ r q e t. ground arith; unused = λ r le. ground arith };
  sessions = record {
    listed = λ r s e. absurd (ground arith);
    member = λ s ses r e c. absurd (ground arith);
    distinct = λ s ses e. absurd (ground arith);
    free = λ s le. refl;
  };
  active = record {
    ending = λ d. absurd (ground arith);
    active = λ p e off. absurd (ground arith);
  };
}

serve_times-AllServed_example : Leaves (serve_times 2 thread) (AllServed waiting thread)
serve_times-AllServed_example = serve_times-AllServed waiting thread thread-ThreadInv refl

create_new_request-ThreadInv_example :
    Leaves (create_new_request site wanted raw with_session) ThreadInv
create_new_request-ThreadInv_example =
    create_new_request-ThreadInv site tt with_session wanted raw
      (Reach-ThreadInv with_session-Reach) session_is_live refl

-- -simple -data_urlencode "a b"
abbrev simple : RawOptions
simple = record raw {
  callback_arg = record { presence = absent; value = none };
  async_flag = false;
  simple_flag = true;
}

create_new_request-IsSimple_example :
    Returns
      (create_new_request site wanted simple with_session)
      (λ a v. IsSimple a × Keeps with_session v)
create_new_request-IsSimple_example =
    create_new_request-IsSimple site tt with_session wanted (Reach-ThreadInv with_session-Reach)
      session_is_live simple refl
