-- ===== src/Tests/Scripts.antt =====
-- The theorems on scripts, for a script that asks for a page while two requests run, and for a callback
-- that fails.
use trequests.Base.{
  List, Bytes, ◌≡◌, true, [], ◌∷◌, none, some, codes, refl, arith, Option, Bool, false, inl, inr,
  str_eq,
}
use trequests.Options.Platform.{callback}
use trequests.Options.Values.{ObjectOption, present, validate_object_list}
use trequests.Request.Execute.{ReturnCode, tcl_error, Interp, execute_tcl_callback}
use trequests.Script.Callbacks.{RunsAs, execute_tcl_callback-RunsAs}
use trequests.Tests.Tcl.{tcl, words}
use trequests.Launch.Sessions.{init_request_options}
use trequests.Package.{request_proc}
use trequests.Request.Memory.{Leaves}
use trequests.Script.Safe.{evaluate-ThreadInv}
use trequests.Script.{
  Front, of_package, of_request, evaluate, new_shown, Outcome, shown, no_header, bad_words,
}
use trequests.Script.Words.{IsListed}
use trequests.Response.Headers.{HandleEntry, request_handle_cmd, get_header}
use trequests.Response.{get_text, get_encoding, has_encoding, update_encoding, update_content_type}
use trequests.Request.Callback.{get_state}
use trequests.Tests.Creation.{find_entry}
use trequests.Tests.Running.{site, no_args, thread-ThreadInv}
use trequests.Tests.Threads.{thread}
use trequests.Thread.{ThreadInv}
use trequests.Version.{VersionInfo}

abbrev version_info : VersionInfo
version_info = record {
  age = 0;
  value = λ f. none;
  protocol_list = codes "http";
  feature_list = [];
}

-- No option is given.
abbrev front : Front
front = record {
  parse_request = λ words. some init_request_options;
  parse_session = λ words. some no_args;
  find_method = find_entry;
  find_session_command = find_entry;
  find_request_command = find_entry;
  has_share = true;
  dict_get = λ d k. none;
  version_info = version_info;
  content_type = λ r. none;
  header_at = λ r name i. none;
  headers = λ r. [];
  status_code = λ r. codes "200";
}

find_entry-IsListed :
    (table : List (Bytes × HandleEntry)) (word : Bytes) (e : HandleEntry)
    → find_entry table word ≡ some e
    → IsListed e table
unfolding find_entry
find_entry-IsListed [] word e found = absurd (ground arith)
find_entry-IsListed ((name, x) ∷ es) word e found =
    go (str_eq name word) refl (find_entry-IsListed es word e)
  where
    go :
        (b : Bool)
        → str_eq name word ≡ b
        → (find_entry es word ≡ some e → IsListed e es)
        → IsListed e ((name, x) ∷ es)
    go true same rest = inl (ground arith)
    go false other rest = inr (rest (ground arith))

abbrev page_words : List Bytes
page_words = codes "::trequests::request" ∷ codes "GET" ∷ codes "http://localhost" ∷ []

evaluate-ThreadInv_example :
    Leaves
      (evaluate site front
        (of_package (request_proc none))
        page_words
        (new_shown site front)
        thread)
      ThreadInv
evaluate-ThreadInv_example =
    evaluate-ThreadInv site front tt thread thread-ThreadInv refl (λ r. tt) find_entry-IsListed
      (new_shown site front) (of_package (request_proc none)) page_words tt

-- What the handle of request 9 answers, which is done.
abbrev answer : List Bytes → Option Outcome
answer words =
    elim (evaluate site front (of_request 9) (codes "h" ∷ words) (new_shown site front) thread) [
      | none ↦ none
      | some ((o, s), w) ↦ some o
    ]

answers :
    (answer (codes "state" ∷ []) ≡ some (shown (codes "done")))
    × (answer (codes "header" ∷ codes "x" ∷ []) ≡ some (no_header (codes "x")))
    × (answer (codes "header" ∷ []) ≡ some bad_words)
    × (answer (codes "text" ∷ []) ≡ some (shown []))
    × (answer (codes "encoding" ∷ []) ≡ some (shown (codes "iso8859-1")))
unfolding evaluate find_entry str_eq request_handle_cmd get_text get_state get_header get_encoding
    has_encoding update_encoding update_content_type
answers = (refl, refl, refl, refl, refl)

abbrev before : Interp
before = record { state = codes "ok"; world = []; reported = [] }

abbrev failing : List Bytes → Interp → ReturnCode × Interp
failing words i = (tcl_error, record i { state = codes "error" })

abbrev given : ObjectOption
given = record { presence = present; value = some (codes "cb") }

execute_tcl_callback-RunsAs_example :
    RunsAs tcl failing (codes "cb") (codes "handle" ∷ []) true before (
      execute_tcl_callback tcl.list_elements failing (codes "cb") (codes "handle" ∷ []) true before)
execute_tcl_callback-RunsAs_example =
    execute_tcl_callback-RunsAs tcl failing callback given (codes "cb") (codes "handle" ∷ []) true
      before (unfold validate_object_list words in refl)
