-- ===== src/Create/Commands.antt =====
-- src/library.c: which call of `treq_CreateNewRequest` a command makes. A command gets its words, the
-- first of which is its own name.
pub mod InSession
use trequests.Base.{ℕ, List, [], ◌∷◌, Option, none, some, Bytes, codes}
use trequests.Request.Settings.{Method, head, get, post, put, patch, delete, custom}

-- The arguments of `treq_CreateNewRequest`: the method, the name of a custom one, the URL with the
-- options, and the session or NULL.
pub record Creation : Type 0 where
  pub method : Method
  pub custom_method : Option Bytes
  pub words : List Bytes
  pub session : Option ℕ

-- What a command does.
pub data Action : Type 0 where
  wrong_args unknown_command destroy : Action
  create : Creation → Action

-- `known_methods`
abbrev pub known_methods : List (Bytes × Method)
known_methods =
    (codes "HEAD", head)
    ∷ (codes "GET", get)
    ∷ (codes "POST", post)
    ∷ (codes "PUT", put)
    ∷ (codes "PATCH", patch)
    ∷ (codes "DELETE", delete)
    ∷ []

-- `commands` of `treq_SessionHandleCmd`, with the method of an entry.
pub data SessionCommand : Type 0 where
  cmd_request : Method → SessionCommand
  cmd_custom_request : Method → SessionCommand
  cmd_destroy : SessionCommand

abbrev pub commands : List (Bytes × SessionCommand)
commands =
    (codes "head", cmd_request head)
    ∷ (codes "get", cmd_request get)
    ∷ (codes "post", cmd_request post)
    ∷ (codes "put", cmd_request put)
    ∷ (codes "patch", cmd_request patch)
    ∷ (codes "delete", cmd_request delete)
    ∷ (codes "request", cmd_custom_request custom)
    ∷ (codes "destroy", cmd_destroy)
    ∷ []

-- `Tcl_GetIndexFromObjStruct` is a parameter: with TCL_EXACT on the known methods, and without on
-- the commands of a session. It gives the entry of the index.
module _ (find_method : List (Bytes × Method) → Bytes → Option Method)
    (find_command : List (Bytes × SessionCommand) → Bytes → Option SessionCommand) where
  -- A request whose method is named: a known one, or one of the name's own with the method of the
  -- caller.
  unfoldable pub named_request : Method → Bytes → List Bytes → Option ℕ → Creation
  named_request other name words session = elim (find_method known_methods name) [
    | some m ↦ record { method = m; custom_method = none; words = words; session = session }
    | none ↦ record { method = other; custom_method = some name; words = words; session = session }
  ]

  -- `treq_RequestCmd`; the client data is the method, or NULL for `none`.
  unfoldable pub request_cmd : Option Method → List Bytes → Action
  unfolding named_request
  request_cmd none (command ∷ name ∷ url ∷ options) =
      create (named_request custom name (url ∷ options) none)
  request_cmd none _ = wrong_args
  request_cmd (some m) (command ∷ url ∷ options) =
      create (record { method = m; custom_method = none; words = url ∷ options; session = none })
  request_cmd (some m) _ = wrong_args

  unfoldable pub session_command : ℕ → SessionCommand → List Bytes → Action
  unfolding named_request
  session_command s cmd_destroy [] = destroy
  session_command s cmd_destroy _ = wrong_args
  session_command s (cmd_custom_request m) (name ∷ url ∷ options) =
      create (named_request m name (url ∷ options) none)
  session_command s (cmd_custom_request m) _ = wrong_args
  session_command s (cmd_request m) (url ∷ options) =
      create (record { method = m; custom_method = none; words = url ∷ options; session = some s })
  session_command s (cmd_request m) _ = wrong_args

  -- `treq_SessionHandleCmd`
  unfoldable pub session_handle_cmd : ℕ → List Bytes → Action
  unfolding session_command
  session_handle_cmd s (handle ∷ word ∷ words) = elim (find_command commands word) [
    | none ↦ unknown_command
    | some c ↦ session_command s c words
  ]
  session_handle_cmd s _ = wrong_args
