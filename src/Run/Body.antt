-- ===== src/Run/Body.antt =====
-- The body of the request, and the settings as a whole.
pub mod Asked
pub mod Outcome
pub mod Sequence
use trequests.Base.{ℕ, Bool, true, false, List, [], ◌∷◌, Option, none, some, Bytes, length}
use trequests.Options.Dicts.{entries_of}
use trequests.Options.Platform.{Platform}
use trequests.Request.Settings.{Method, Settings}
use trequests.Run.Setup.{
  set_method, set_url, set_auth, set_flags, append_header, add_headers, set_headers, set_limits,
}
use trequests.Run.{Setting, Progress, going, Curl, safe_setopt, mimepost, postfieldsize, postfields}

module _ (c : Curl) (p : Platform) where
  -- Without a body, its size is set for POST and PUT.
  pub set_no_body : Method → Progress → Progress
  unfolding safe_setopt
  set_no_body Method.post g = safe_setopt c (postfieldsize 0) g
  set_no_body Method.put g = safe_setopt c (postfieldsize 0) g
  set_no_body _ g = g

  -- The form goes before the data.
  pub set_body : Option Bytes → Option Bytes → Method → Progress → Progress
  unfolding safe_setopt set_no_body
  set_body (some form) fields method g = safe_setopt c (mimepost (entries_of p form)) g
  set_body none (some fields) method g =
      safe_setopt c (postfields fields) (safe_setopt c (postfieldsize (length fields)) g)
  set_body none none method g = set_no_body method g

  -- The list of headers: those of -accept and -content_type, and those of -headers.
  unfoldable pub curl_headers : Settings → Option (List Bytes)
  unfolding append_header add_headers
  curl_headers q =
      let shortcuts = append_header c q.header_content_type (append_header c q.header_accept []) in
      elim q.headers [ none ↦ some shortcuts | some h ↦ add_headers c shortcuts (entries_of p h) ]

  -- `treq_RequestRun` up to `req->state = TREQ_REQUEST_INPROGRESS`.
  unfoldable pub configure : Settings → Progress
  unfolding set_method set_url set_auth set_body set_flags set_headers curl_headers set_limits
  configure q = set_limits c q (
      set_headers c (curl_headers q) (
        set_flags c q (
          set_body q.form q.postfields q.method
            (set_auth c q.auth (set_url c q (set_method c q.method q.custom_method (going [])))))))
