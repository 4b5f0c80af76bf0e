-- ===== src/Script/Words.antt =====
-- The words of a command of a request: `treq_RequestHandleCmd` runs "header" only with its word.
use trequests.Base.{
  ℕ, Bool, true, false, leb, ltb, ◌+◌, ◌||◌, ◌&&◌, List, [], ◌∷◌, length, Option, none, some, Bytes,
  ◌≡◌, refl, arith, ◌⊎◌, inl, inr, if◌then◌else◌,
}
use trequests.Response.Headers
use trequests.Response.Headers.{
  HandleEntry, HandleCommand, cmd_header, cmd_text, cmd_content, cmd_error, cmd_headers,
  cmd_encoding, cmd_status_code, cmd_state, cmd_destroy, HandleAction, run_command, handle_commands,
  handle_argument, request_handle_cmd,
}

-- The entry is one of the table.
abbrev pub IsListed : HandleEntry → List (Bytes × HandleEntry) → Type 0
IsListed e [] = ⊥
IsListed e ((name, x) ∷ es) = (e ≡ x) ⊎ IsListed e es

-- The documented behaviour of `Tcl_GetIndexFromObjStruct`: what it finds is an entry of the table.
abbrev pub FindsListed : (List (Bytes × HandleEntry) → Bytes → Option HandleEntry) → Type 0
FindsListed find =
    (table : List (Bytes × HandleEntry)) (word : Bytes) (e : HandleEntry)
    → find table word ≡ some e
    → IsListed e table

-- A word for the command, if it needs one, is among at least `n` words.
abbrev suffices : HandleCommand → ℕ → Bool
suffices cmd_header n = leb 3 n
suffices _ n = true

abbrev all_suffice : List (Bytes × HandleEntry) → Bool
all_suffice [] = true
all_suffice ((name, e) ∷ es) = suffices e.command e.arg_min && all_suffice es

listed_suffices :
    (es : List (Bytes × HandleEntry)) (e : HandleEntry)
    → all_suffice es ≡ true
    → IsListed e es
    → suffices e.command e.arg_min ≡ true
listed_suffices [] e all l = absurd l
listed_suffices ((name, x) ∷ es) e all (inl same) = ground arith
listed_suffices ((name, x) ∷ es) e all (inr later) = listed_suffices es e (ground arith) later

-- The command has its word, if it needs one.
abbrev pub has_word : HandleCommand → Option Bytes → Bool
has_word cmd_header none = false
has_word _ _ = true

abbrev pub Worded : HandleAction → Type 0
Worded (run_command c word) = has_word c word ≡ true
Worded _ = Unit {0}

argument_lem :
    (c : HandleCommand) (least : ℕ) (words : List Bytes)
    → suffices c least ≡ true
    → ltb (2 + length words) least ≡ false
    → has_word c (handle_argument words) ≡ true
unfolding handle_argument
argument_lem cmd_header least [] enough fits = absurd (ground arith)
argument_lem cmd_header least (x ∷ xs) enough fits = refl
argument_lem cmd_text least words enough fits = refl
argument_lem cmd_content least words enough fits = refl
argument_lem cmd_error least words enough fits = refl
argument_lem cmd_headers least words enough fits = refl
argument_lem cmd_encoding least words enough fits = refl
argument_lem cmd_status_code least words enough fits = refl
argument_lem cmd_state least words enough fits = refl
argument_lem cmd_destroy least words enough fits = refl

-- Too few words, or too many, or the command with its word.
chosen-Worded :
    (e : HandleEntry) (words : List Bytes) (few many : Bool)
    → (few ≡ false → has_word e.command (handle_argument words) ≡ true)
    → Worded (
        if few || many
        then trequests.Response.Headers.wrong_args
        else run_command e.command (handle_argument words))
chosen-Worded e words true many fits = tt
chosen-Worded e words false true fits = tt
chosen-Worded e words false false fits = fits refl

module _ (find : List (Bytes × HandleEntry) → Bytes → Option HandleEntry)
    (listed : FindsListed find) where
  pub request_handle_cmd-Worded : (words : List Bytes) → Worded (request_handle_cmd find words)
  unfolding request_handle_cmd
  request_handle_cmd-Worded [] = tt
  request_handle_cmd-Worded (handle ∷ []) = tt
  request_handle_cmd-Worded (handle ∷ word ∷ words) = go (find handle_commands word) refl
    where
      go :
          (o : Option HandleEntry)
          → find handle_commands word ≡ o
          → Worded (elim o as (λ _. HandleAction) [
            | none ↦ trequests.Response.Headers.unknown_command
            | some e ↦
                if ltb (2 + length words) e.arg_min || ltb e.arg_max (2 + length words)
                then trequests.Response.Headers.wrong_args
                else run_command e.command (handle_argument words)
          ])
      go none found = tt
      go (some e) found =
          let enough =
            listed_suffices handle_commands e refl (listed handle_commands word e found) in
          chosen-Worded e words (ltb (2 + length words) e.arg_min)
            (ltb e.arg_max (2 + length words)) (argument_lem e.command e.arg_min words enough)
