-- ===== src/Tests/Creation.antt =====
-- The theorems on the creation of a request, and on its body, at concrete words and chunks.
use trequests.Base.{
  pos, List, [], ◌∷◌, Option, none, some, Bytes, codes, ◌≡◌, refl, arith, str_eq, if◌then◌else◌,
}
use trequests.Create.Commands.InSession.{session_handle_cmd-request_cmd, in_session}
use trequests.Create.Commands.{request_cmd, session_handle_cmd}
use trequests.Create.Defaults.{session_settings_lem, without_defaults}
use trequests.Create.{request_settings, session_settings}
use trequests.Request.Content.Whole.{receive-concat, IsSized}
use trequests.Request.Content.{int_size, Received, receive, bytes_of}
use trequests.Request.Memory.{created}
use trequests.Request.Settings.{get}
use trequests.Tests.Given.{checked}
use trequests.Tests.Tcl.{tcl}

unfoldable pub find_entry : {A : Type 0} → List (Bytes × A) → Bytes → Option A
unfolding str_eq
find_entry [] name = none
find_entry ((n, a) ∷ es) name =
    let rest = find_entry es name in if str_eq n name then some a else rest

session_handle_cmd-request_cmd_example :
    (session_handle_cmd find_entry find_entry 3
        (codes "s" ∷ codes "get" ∷ codes "u" ∷ codes "v" ∷ [])
      ≡ in_session 3
          (request_cmd find_entry find_entry (some get) (codes "c" ∷ codes "u" ∷ codes "v" ∷ [])))
    × (session_handle_cmd find_entry find_entry 3
          (codes "s" ∷ codes "request" ∷ codes "u" ∷ codes "v" ∷ [])
        ≡ request_cmd find_entry find_entry none (codes "c" ∷ codes "u" ∷ codes "v" ∷ []))
session_handle_cmd-request_cmd_example =
    session_handle_cmd-request_cmd find_entry find_entry 3 (codes "s") (codes "get")
      (codes "request") (codes "c") get (codes "u" ∷ codes "v" ∷ []) (unfold find_entry in refl)
      (unfold find_entry in refl)

session_settings_lem_example :
    request_settings tcl find_entry get
      (codes "u")
      none
      (without_defaults checked, none, none)
      (some (session_settings tcl find_entry (checked, some 1, none)))
    ≡ request_settings tcl find_entry get (codes "u") none (checked, some 1, none) none
session_settings_lem_example =
    session_settings_lem tcl find_entry get (codes "u") none checked (some 1) none refl

abbrev nothing_yet : Received
nothing_yet = record { content = none; content_size = pos 0; state = created; failure = none }

abbrev two_chunks : List Bytes
two_chunks = codes "ab" ∷ codes "c" ∷ []

receive-concat_example :
    (r : Received) × (receive int_size nothing_yet two_chunks ≡ some r)
    × (bytes_of r.content ≡ codes "abc")
    × IsSized r
    × (r.state ≡ created)
receive-concat_example = receive-concat int_size two_chunks nothing_yet refl (omega arith)
