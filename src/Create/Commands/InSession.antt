-- ===== src/Create/Commands/InSession.antt =====
-- The commands of a session beside those that make a request of its own.
use trequests.Base.{ℕ, List, [], ◌∷◌, Option, none, some, Bytes, ◌≡◌, arith}
use trequests.Create.Commands.{
  Action, create, SessionCommand, cmd_request, cmd_custom_request, commands, request_cmd,
  session_handle_cmd,
}
use trequests.Request.Settings.{Method, custom}

-- The command of a session that does what the command of a single method does, but in the session.
abbrev pub in_session : ℕ → Action → Action
in_session s (create c) = create (record c { session = some s })
in_session s a = a

module _ (find_method : List (Bytes × Method) → Bytes → Option Method)
    (find_command : List (Bytes × SessionCommand) → Bytes → Option SessionCommand) where
  -- The command of a session that is found for a method makes the request that the plain command
  -- of the method makes of the same words, but in the session. The one that is found for
  -- "request" makes just the request of the plain command "request", in no session.
  pub session_handle_cmd-request_cmd :
      (s : ℕ) (handle word named command : Bytes) (m : Method) (words : List Bytes)
      → find_command commands word ≡ some (cmd_request m)
      → find_command commands named ≡ some (cmd_custom_request custom)
      → (session_handle_cmd find_method find_command s (handle ∷ word ∷ words)
          ≡ in_session s (request_cmd find_method find_command (some m) (command ∷ words)))
        × (session_handle_cmd find_method find_command s (handle ∷ named ∷ words)
            ≡ request_cmd find_method find_command none (command ∷ words))
  unfolding session_handle_cmd request_cmd
  session_handle_cmd-request_cmd s handle word named command m [] e f = (ground arith, ground arith)
  session_handle_cmd-request_cmd s handle word named command m (x ∷ []) e f =
      (ground arith, ground arith)
  session_handle_cmd-request_cmd s handle word named command m (x ∷ y ∷ ws) e f =
      (ground arith, ground arith)
