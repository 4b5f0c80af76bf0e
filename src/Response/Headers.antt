-- ===== src/Response/Headers.antt =====
-- The headers of a response, as libcurl has them, and the command of a request.
pub mod Collected
use trequests.Base.{
  ℕ, zero, suc, ◌-◌, ◌+◌, Bool, true, false, ◌||◌, List, [], ◌∷◌, ◌++◌, Option, none, some, Bytes,
  codes, if◌then◌else◌, ltb, length,
}

-- A header of `curl_easy_header`: its value, and how many there are of its name.
pub record Header : Type 0 where
  pub value : Bytes
  pub amount : ℕ

-- The loop of `treq_RequestGetHeader`, over `n` indices from `i` on; an index that libcurl does
-- not have is passed over.
pub header_values : (ℕ → Option Header) → ℕ → ℕ → List Bytes
header_values header_at zero i = []
header_values header_at (suc n) i = elim (header_at i) [
  | none ↦ header_values header_at n (suc i)
  | some h ↦ h.value ∷ header_values header_at n (suc i)
]

-- `treq_RequestGetHeader`, on what `curl_easy_header` gives for the name and each index; `none` is
-- NULL.
unfoldable pub get_header : (ℕ → Option Header) → Option (List Bytes)
unfolding header_values
get_header header_at = elim (header_at 0) [
  | none ↦ none
  | some h ↦ some (h.value ∷ header_values header_at (h.amount - 1) 1)
]

-- `treq_RequestGetHeaders`, on the headers of `curl_easy_nextheader`.
unfoldable pub get_headers : List (Bytes × Bytes) → List Bytes
get_headers [] = []
get_headers ((name, value) ∷ hs) = name ∷ value ∷ get_headers hs

-- The commands of `treq_RequestHandleCmd`.
pub data HandleCommand : Type 0 where
  cmd_text cmd_content cmd_error cmd_headers cmd_header cmd_encoding : HandleCommand
  cmd_status_code cmd_state cmd_destroy : HandleCommand

-- An entry of `commands`, with the least and the greatest number of words.
pub record HandleEntry : Type 0 where
  pub command : HandleCommand
  pub arg_min : ℕ
  pub arg_max : ℕ

abbrev entry : HandleCommand → ℕ → ℕ → HandleEntry
entry c least most = record { command = c; arg_min = least; arg_max = most }

abbrev pub handle_commands : List (Bytes × HandleEntry)
handle_commands =
    (codes "text", entry cmd_text 2 2)
    ∷ (codes "content", entry cmd_content 2 2)
    ∷ (codes "error", entry cmd_error 2 2)
    ∷ (codes "headers", entry cmd_headers 2 2)
    ∷ (codes "header", entry cmd_header 3 3)
    ∷ (codes "encoding", entry cmd_encoding 2 3)
    ∷ (codes "status_code", entry cmd_status_code 2 2)
    ∷ (codes "state", entry cmd_state 2 2)
    ∷ (codes "destroy", entry cmd_destroy 2 2)
    ∷ []

-- What the command of a request does, with its argument, if it has one.
pub data HandleAction : Type 0 where
  wrong_args unknown_command : HandleAction
  run_command : HandleCommand → Option Bytes → HandleAction

unfoldable pub handle_argument : List Bytes → Option Bytes
handle_argument [] = none
handle_argument (x ∷ xs) = some x

-- `treq_RequestHandleCmd` up to its switch. The first word is the name of the command, and the
-- look-up of the second one is a parameter.
unfoldable pub request_handle_cmd :
    (List (Bytes × HandleEntry) → Bytes → Option HandleEntry) → List Bytes → HandleAction
unfolding handle_argument
request_handle_cmd find_command (handle ∷ word ∷ words) = elim (find_command handle_commands word) [
  | none ↦ unknown_command
  | some e ↦
      if ltb (2 + length words) e.arg_min || ltb e.arg_max (2 + length words)
      then wrong_args
      else run_command e.command (handle_argument words)
]
request_handle_cmd find_command _ = wrong_args
