-- ===== src/Session.antt =====
-- src/treqSession.c: a session and the list of its requests.
pub mod Owned
use trequests.Base.{ℕ, suc, Bool, false, [], ◌∷◌, Option, none, some, if◌then◌else◌}
use trequests.Request.Memory.{
  Request, SessionSettings, created, Memory, M, ◌>>=◌, ◌>>◌, return, update, load_request,
  store_request, load_session, store_session, remove_item,
}
use trequests.Request.Settings.{Settings}

-- The memory that `treq_RequestInit` gives out, with every field zeroed but the state, and the
-- settings that the caller stores in it.
abbrev pub new_request : Settings → Option ℕ → Request
new_request s session = record {
  settings = s;
  state = created;
  error = none;
  curl_error = [];
  pool = false;
  session = session;
  callback_event = none;
  cmd_token = false;
  is_dead = false;
  content = none;
}

-- `treq_RequestInit`; `none` in the result is NULL, where libcurl gives no handle.
unfoldable pub request_init : Bool → Settings → Option ℕ → Memory → Option ℕ × Memory
request_init inited s session w =
    if inited
    then (
      some w.fresh,
      record w {
        requests = update w.requests w.fresh (some (new_request s session));
        fresh = suc w.fresh;
      },
    )
    else (none, w)

-- `treq_SessionInit`, with the settings that the caller stores in the session; `none` in the result
-- is NULL, where libcurl gives no share handle.
unfoldable pub session_init : Bool → SessionSettings → Memory → Option ℕ × Memory
session_init inited s w =
    if inited
    then (
      some w.fresh,
      record w {
        sessions = update w.sessions w.fresh (some (record { settings = s; requests = [] }));
        fresh = suc w.fresh;
      },
    )
    else (none, w)

-- `treq_LinkedListInsertNewItem(ses->requests, req)`
unfoldable pub link : ℕ → ℕ → M (Option ℕ)
link s r = do
  q ← load_session s
  store_session s (record q { requests = r ∷ q.requests })
  return (some r)

-- `treq_SessionRequestInit`
unfoldable pub session_request_init : Bool → Settings → ℕ → M (Option ℕ)
unfolding request_init link
session_request_init inited settings s w =
    let (request, w') = request_init inited settings (some s) w in
    elim request [ none ↦ some (none, w') | some r ↦ link s r w' ]

pub unlink : ℕ → Request → ℕ → M (Unit {0})
unlink r q s = do
  store_request r (record q { session = none })
  ses ← load_session s
  store_session s (record ses { requests = remove_item r ses.requests })

-- `treq_SessionRemoveRequest`. It reads through `req->session`.
unfoldable pub session_remove_request : ℕ → M (Unit {0})
unfolding remove_item unlink
session_remove_request r = do
  q ← load_request r
  λ w. elim q.session [ none ↦ none | some s ↦ unlink r q s w ]
