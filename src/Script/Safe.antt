-- ===== src/Script/Safe.antt =====
-- A script cannot bring a thread out of order.
use trequests.Base.{
  ℕ, true, false, List, ◌∷◌, Option, none, some, Bytes, ◌≡◌, arith, is_some, refl, ap,
}
use trequests.Create.Commands.{
  Action, wrong_args, unknown_command, destroy, create, Creation, request_cmd, session_handle_cmd,
}
use trequests.Script.Dispatch.{Allowed, request_cmd-Allowed, session_handle_cmd-Allowed}
use trequests.Response.Headers
use trequests.Destroy.{handle_delete, session_free}
use trequests.Destroy.Safe.{IsQuiet}
use trequests.History.Ordered.{opened-ThreadInv, destroy-ThreadInv}
use trequests.Launch.Made.{InLive}
use trequests.Launch.Ordered.{create_new_request-ThreadInv}
use trequests.Launch.Replies.{IsReadable, Reads}
use trequests.Script.Getters.{run_getter-Leaves}
use trequests.Script.Words.{FindsListed, Worded, has_word, request_handle_cmd-Worded}
use trequests.Launch.Sessions.{SessionArgs, session_cmd, session_handle_delete}
use trequests.Launch.{Site, Wanted, create_new_request}
use trequests.Options.Validate.{RawOptions}
use trequests.Package.{request_proc, session_proc, curl_version_proc}
use trequests.Pool.Active.{deactivates}
use trequests.Request.Memory.{
  Request, Session, Memory, M, fault, Leaves, Leaves-weaken, Leaves-bind, ◌>>=◌, return,
}
use trequests.Response.Headers.{
  HandleCommand, cmd_destroy, cmd_text, cmd_content, cmd_error, cmd_headers, cmd_header,
  cmd_encoding, cmd_status_code, cmd_state, HandleAction, run_command, request_handle_cmd,
}
use trequests.Script.{
  Command, of_package, of_session, of_request, Outcome, nothing, made, opened, Front, Shown,
  run_getter, giving, created_with, create_with, run_action, opened_with, run_handle, evaluate,
}
use trequests.Thread.Sessions.{AllQuiet, session_free-SessionFreed}
use trequests.Thread.{ThreadInv}

giving-Leaves :
    {A : Type 0} (f : A → Outcome) (m : M A) (w : Memory) (P : Memory → Type 0)
    → Leaves (m w) P
    → Leaves (giving f m w) P
giving-Leaves {A} f m w P = go (m w)
  where
    go :
        (o : Option (A × Memory))
        → Leaves o P
        → Leaves
            (elim o as (λ _. Option (Outcome × Memory)) [
              | none ↦ none
              | some (a, v) ↦ some (f a, v)
            ])
            P
    go none h = absurd h
    go (some (a, v)) h = h

unshown-Leaves :
    {A : Type 0} (a : A) (m : M Outcome) (w : Memory) (P : Memory → Type 0)
    → Leaves (m w) P
    → Leaves {A = Outcome × A} ((do o ← m; return (o, a)) w) P
unshown-Leaves {A} a m w P l =
    Leaves-bind {B = Outcome × A} m (λ o. return (o, a)) w P l (λ o v p. p)

-- The handle of a command is live, and if its words destroy it, none of the requests that this destroys
-- runs in the pool with a callback.
abbrev pub IsReady : Front → Memory → Command → List Bytes → Type 0
IsReady front w (of_package p) words = Unit {0}
IsReady front w (of_session s) words =
    (ses : Session) × (w.sessions s ≡ some ses)
    × (session_handle_cmd front.find_method front.find_session_command s words ≡ destroy
        → AllQuiet w ses.requests)
IsReady front w (of_request r) words =
    (q : Request) × (w.requests r ≡ some q)
    × ((word : Option Bytes)
        → request_handle_cmd front.find_request_command words ≡ run_command cmd_destroy word
        → IsQuiet w q)

-- The parser gets through the Content-Type header of the response of every request.
abbrev pub AllReadable : Site → Front → Type 0
AllReadable site front = (r : ℕ) → Reads site.encodings (front.content_type r)

module _ (site : Site) (front : Front) (readable : IsReadable site) (w : Memory) (inv : ThreadInv w)
    (calm : deactivates w.queue ≡ false) where
  created_with-ThreadInv :
      (c : Creation) (url : Bytes) (given : Option RawOptions)
      → InLive w c.session
      → Leaves (created_with site front c url given w) ThreadInv
  unfolding created_with
  created_with-ThreadInv c url none live = inv
  created_with-ThreadInv c url (some raw) live =
      let t : Wanted = record {
        method = c.method;
        url = url;
        custom_method = c.custom_method;
        session = c.session;
      } in
      giving-Leaves made (create_new_request site t raw) w ThreadInv
        (create_new_request-ThreadInv site readable w t raw inv live (ground arith))

  run_action-ThreadInv :
      (own : Option ℕ) (destroyed : M (Unit {0})) (a : Action)
      → Allowed own a
      → InLive w own
      → (a ≡ destroy → is_some own ≡ true → Leaves (destroyed w) ThreadInv)
      → Leaves (run_action site front destroyed a w) ThreadInv
  unfolding run_action create_with
  run_action-ThreadInv own destroyed wrong_args ok live gone = inv
  run_action-ThreadInv own destroyed unknown_command ok live gone = inv
  run_action-ThreadInv own destroyed destroy ok live gone =
      giving-Leaves (λ _. nothing) destroyed w ThreadInv (gone refl ok)
  run_action-ThreadInv own destroyed (create c) ((url, options, words), same) live gone = rw words (
      created_with-ThreadInv c url (front.parse_request (url ∷ options)) (λ s e. live s (same s e)))

  opened_with-ThreadInv :
      (given : Option SessionArgs) → Leaves (opened_with site front given w) ThreadInv
  unfolding opened_with
  opened_with-ThreadInv none = inv
  opened_with-ThreadInv (some a) =
      giving-Leaves opened (session_cmd site.world.platform site.find_exact front.has_share a) w
        ThreadInv (opened-ThreadInv w site front.has_share a inv)

  module _ (shown_readable : AllReadable site front)
      (listed : FindsListed front.find_request_command) (s : Shown site front) where
    module _ (r : ℕ) (q : Request) (hq : w.requests r ≡ some q) where
      destroyed-ThreadInv :
          (word : Option Bytes)
          → IsQuiet w q
          → Leaves (run_handle site front r (run_command cmd_destroy word) s w) ThreadInv
      unfolding run_handle
      destroyed-ThreadInv word quiet =
          unshown-Leaves s (giving (λ _. nothing) (handle_delete r)) w ThreadInv (
            giving-Leaves (λ _. nothing) (handle_delete r) w ThreadInv
              (destroy-ThreadInv w r q inv hq quiet))

      shown-ThreadInv :
          (c : HandleCommand) (word : Option Bytes)
          → has_word c word ≡ true
          → (c ≡ cmd_destroy → ⊥)
          → Leaves (run_getter site front r c word s w) ThreadInv
      shown-ThreadInv c word worded other =
          run_getter-Leaves site front r (shown_readable r) c word s w q hq worded other ThreadInv
            inv

      command-ThreadInv :
          (c : HandleCommand) (word : Option Bytes)
          → has_word c word ≡ true
          → (c ≡ cmd_destroy → IsQuiet w q)
          → Leaves (run_handle site front r (run_command c word) s w) ThreadInv
      unfolding run_handle
      command-ThreadInv cmd_destroy word worded quiet = destroyed-ThreadInv word (quiet refl)
      command-ThreadInv cmd_text word worded quiet =
          shown-ThreadInv cmd_text word worded (λ e. ground arith)
      command-ThreadInv cmd_content word worded quiet =
          shown-ThreadInv cmd_content word worded (λ e. ground arith)
      command-ThreadInv cmd_error word worded quiet =
          shown-ThreadInv cmd_error word worded (λ e. ground arith)
      command-ThreadInv cmd_headers word worded quiet =
          shown-ThreadInv cmd_headers word worded (λ e. ground arith)
      command-ThreadInv cmd_header word worded quiet =
          shown-ThreadInv cmd_header word worded (λ e. ground arith)
      command-ThreadInv cmd_encoding word worded quiet =
          shown-ThreadInv cmd_encoding word worded (λ e. ground arith)
      command-ThreadInv cmd_status_code word worded quiet =
          shown-ThreadInv cmd_status_code word worded (λ e. ground arith)
      command-ThreadInv cmd_state word worded quiet =
          shown-ThreadInv cmd_state word worded (λ e. ground arith)

      run_handle-ThreadInv :
          (a : HandleAction)
          → Worded a
          → ((word : Option Bytes) → a ≡ run_command cmd_destroy word → IsQuiet w q)
          → Leaves (run_handle site front r a s w) ThreadInv
      unfolding run_handle
      run_handle-ThreadInv trequests.Response.Headers.wrong_args worded quiet = inv
      run_handle-ThreadInv trequests.Response.Headers.unknown_command worded quiet = inv
      run_handle-ThreadInv (run_command c word) worded quiet =
          command-ThreadInv c word worded (λ e. quiet word (ap (λ x. run_command x word) e))

    -- Whatever words a script gives to a command of the package, to the handle of a session or to that
    -- of a request, the command returns with no fault, and the thread is in order (ThreadInv), as it
    -- is before, if the handle is live and, where the words destroy it, none of the requests that
    -- this destroys runs in the pool with a callback (IsReady), no event that deactivates the pool
    -- waits, the parser gets through the Content-Type header of the response that a new request
    -- gets (IsReadable) and of those that the requests have (AllReadable), and the look-up of a
    -- request's command finds entries of its table only (FindsListed).
    pub evaluate-ThreadInv :
        (c : Command) (words : List Bytes)
        → IsReady front w c words
        → Leaves (evaluate site front c words s w) ThreadInv
    unfolding evaluate
    evaluate-ThreadInv (of_package (request_proc m)) words ready =
        let a = request_cmd front.find_method front.find_session_command m words in
        unshown-Leaves s (run_action site front fault a) w ThreadInv (
          run_action-ThreadInv none fault a
            (request_cmd-Allowed front.find_method front.find_session_command m words)
            (λ s e. absurd (ground arith)) (λ e o. absurd (ground arith)))
    evaluate-ThreadInv (of_package session_proc) words ready =
        unshown-Leaves s (opened_with site front (front.parse_session words)) w ThreadInv
          (opened_with-ThreadInv (front.parse_session words))
    evaluate-ThreadInv (of_package curl_version_proc) words ready = inv
    evaluate-ThreadInv (of_session x) words (ses, hs, quiet) =
        let a = session_handle_cmd front.find_method front.find_session_command x words in
        unshown-Leaves s (run_action site front (session_handle_delete x) a) w ThreadInv (
          run_action-ThreadInv (some x) (session_handle_delete x) a
            (session_handle_cmd-Allowed front.find_method front.find_session_command x words)
            (λ y e. ground arith)
            (λ e _.
              unfold session_handle_delete in
              Leaves-weaken (session_free x w) (session_free-SessionFreed w x ses inv hs (quiet e))
                λ v freed. freed.0))
    evaluate-ThreadInv (of_request r) words (q, hq, quiet) =
        run_handle-ThreadInv r q hq (request_handle_cmd front.find_request_command words)
          (request_handle_cmd-Worded front.find_request_command listed words) quiet
