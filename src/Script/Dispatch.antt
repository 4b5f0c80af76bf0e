-- ===== src/Script/Dispatch.antt =====
-- What the commands of the package and of a session may do.
use trequests.Base.{ℕ, true, List, [], ◌∷◌, Option, none, some, Bytes, ◌≡◌, refl, arith, is_some}
use trequests.Create.Commands.{
  Action, unknown_command, destroy, create, SessionCommand, cmd_request, cmd_custom_request,
  cmd_destroy, commands, named_request, request_cmd, session_command, session_handle_cmd,
}
use trequests.Request.Settings.{Method}

-- An action that the command of a session, or one of the package for `none`, may take: it destroys or
-- uses no session but its own, and a request has a URL.
abbrev pub Allowed : Option ℕ → Action → Type 0
Allowed own destroy = is_some own ≡ true
Allowed own (create c) =
    ((url : Bytes) × (options : List Bytes) × (c.words ≡ url ∷ options))
    × ((s : ℕ) → c.session ≡ some s → own ≡ some s)
Allowed own a = Unit {0}

module _ (find_method : List (Bytes × Method) → Bytes → Option Method)
    (find_command : List (Bytes × SessionCommand) → Bytes → Option SessionCommand) where
  named_request_lem :
      (m : Method) (name : Bytes) (words : List Bytes) (session : Option ℕ)
      → ((named_request find_method find_command m name words session).words ≡ words)
        × ((named_request find_method find_command m name words session).session ≡ session)
  unfolding named_request
  named_request_lem m name words session = ground arith

  named-Allowed :
      (own : Option ℕ) (m : Method) (name url : Bytes) (options : List Bytes)
      → Allowed own (create (named_request find_method find_command m name (url ∷ options) none))
  named-Allowed own m name url options =
      let (words, session) = named_request_lem m name (url ∷ options) none in
      ((url, options, words), λ s e. absurd (ground arith))

  pub request_cmd-Allowed :
      (m : Option Method) (words : List Bytes)
      → Allowed none (request_cmd find_method find_command m words)
  unfolding request_cmd
  request_cmd-Allowed none [] = tt
  request_cmd-Allowed none (c ∷ []) = tt
  request_cmd-Allowed none (c ∷ name ∷ []) = tt
  request_cmd-Allowed none (c ∷ name ∷ url ∷ options) = named-Allowed none _ name url options
  request_cmd-Allowed (some m) [] = tt
  request_cmd-Allowed (some m) (c ∷ []) = tt
  request_cmd-Allowed (some m) (c ∷ url ∷ options) =
      ((url, options, refl), λ s e. absurd (ground arith))

  session_command-Allowed :
      (s : ℕ) (c : SessionCommand) (words : List Bytes)
      → Allowed (some s) (session_command find_method find_command s c words)
  unfolding session_command
  session_command-Allowed s cmd_destroy [] = refl
  session_command-Allowed s cmd_destroy (x ∷ words) = tt
  session_command-Allowed s (cmd_custom_request m) [] = tt
  session_command-Allowed s (cmd_custom_request m) (name ∷ []) = tt
  session_command-Allowed s (cmd_custom_request m) (name ∷ url ∷ options) =
      named-Allowed (some s) m name url options
  session_command-Allowed s (cmd_request m) [] = tt
  session_command-Allowed s (cmd_request m) (url ∷ options) = ((url, options, refl), λ x e. e)

  pub session_handle_cmd-Allowed :
      (s : ℕ) (words : List Bytes)
      → Allowed (some s) (session_handle_cmd find_method find_command s words)
  unfolding session_handle_cmd
  session_handle_cmd-Allowed s [] = tt
  session_handle_cmd-Allowed s (h ∷ []) = tt
  session_handle_cmd-Allowed s (h ∷ word ∷ words) =
      elim (find_command commands word)
        as (λ o. Allowed (some s) (elim o as (λ _. Action) [
          | none ↦ unknown_command
          | some c ↦ session_command find_method find_command s c words
        ])) [ none ↦ tt | some c ↦ session_command-Allowed s c words ]
