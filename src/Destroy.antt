-- ===== src/Destroy.antt =====
-- How requests, sessions and the pool are destroyed: `treq_RequestFree` and `treq_RequestHandleDelete`,
-- `treq_SessionFree` and `treq_PoolFree`. The releases of what one request alone owns (its Tcl
-- objects, its buffers and cURL handles) have no effect on the memory that is modelled.
pub mod Queue
pub mod Dangling
pub mod Safe
pub mod Serve
pub mod Schedule
pub mod Frame
use trequests.Base.{
  is_some, ℕ, suc, Bool, true, false, List, [], ◌∷◌, Option, none, some, if◌then◌else◌, ◌==◌, map,
}
use trequests.Pool.{remove_request}
use trequests.Request.Memory.{
  Request, Session, Event, request_event, deactivate_event, Memory, M, ◌>>=◌, ◌>>◌, return, skip,
  when◌then◌else◌, fault, update, load_request, store_request, load_session, store_session,
  load_pool, store_pool,
}
use trequests.Session.{session_remove_request}

-- `event->request = NULL` for the event at an address, where the queue still holds it.
unfoldable pub clear_event : ℕ → List Event → List Event
clear_event e [] = []
clear_event e (deactivate_event ∷ es) = deactivate_event ∷ clear_event e es
clear_event e (request_event a target ∷ es) =
    request_event a (if a == e then none else target) ∷ clear_event e es

unfoldable pub holds_event : ℕ → List Event → Bool
holds_event e [] = false
holds_event e (deactivate_event ∷ es) = holds_event e es
holds_event e (request_event a target ∷ es) = if a == e then true else holds_event e es

-- The write through `req->callback_event`; an event that has left the queue is freed.
pub clear_callback_event : Option ℕ → M (Unit {0})
unfolding clear_event holds_event
clear_callback_event event w = elim event [
  | none ↦ some (tt, w)
  | some e ↦
      if holds_event e w.queue then some (tt, record w { queue = clear_event e w.queue }) else none
]

-- `treq_RequestHandleDelete`, with what it calls to free a request.
unfoldable pub handle_delete_with : (ℕ → M (Unit {0})) → ℕ → M (Unit {0})
handle_delete_with free r = do
  q ← load_request r
  when q.is_dead then skip else do store_request r (record q { cmd_token = false }); free r

-- The end of `treq_RequestFree`: Tcl deletes the handle command and so calls `treq_RequestHandleDelete`,
-- which returns at once as `isDead` was set. Were it to free the request again, that is a fault.
pub delete_command : ℕ → M (Unit {0})
unfolding handle_delete_with
delete_command r = do
  q ← load_request r
  when q.cmd_token
      then (do store_request r (record q { is_dead = true }); handle_delete_with (λ _. fault) r)
      else skip

abbrev release_request : ℕ → M (Unit {0})
release_request r w = some (tt, record w { requests = update w.requests r none })

-- `treq_RequestFree`
unfoldable pub request_free : ℕ → M (Unit {0})
unfolding clear_callback_event session_remove_request remove_request delete_command
request_free r = do
  q ← load_request r
  clear_callback_event q.callback_event
  when is_some q.session then session_remove_request r else skip
  q' ← load_request r
  when q'.pool then remove_request r else skip
  delete_command r
  release_request r

-- `treq_RequestHandleDelete`: what Tcl calls when the handle command is deleted, by the command's
-- "destroy" among others.
unfoldable pub handle_delete : ℕ → M (Unit {0})
unfolding handle_delete_with request_free
handle_delete = handle_delete_with request_free

-- The loop of `treq_SessionFree` over the requests.
unfoldable pub free_requests : List ℕ → M (Unit {0})
unfolding request_free
free_requests [] = skip
free_requests (r ∷ rs) = do
  q ← load_request r
  store_request r (record q { session = none })
  request_free r
  free_requests rs

abbrev release_session : ℕ → M (Unit {0})
release_session s w = some (tt, record w { sessions = update w.sessions s none })

-- `treq_SessionFree`, of `treq_SessionHandleDelete`.
unfoldable pub session_free : ℕ → M (Unit {0})
unfolding free_requests
session_free s = do q ← load_session s; free_requests q.requests; release_session s

-- The loop of `treq_PoolFree`.
unfoldable pub remove_requests : List ℕ → M (Unit {0})
unfolding remove_request
remove_requests [] = skip
remove_requests (r ∷ rs) = do remove_request r; remove_requests rs

abbrev release_pool : M (Unit {0})
release_pool w = some (tt, record w { pool = none })

-- `treq_PoolFree`
pub pool_free : M (Unit {0})
unfolding remove_requests
pool_free = do
  p ← load_pool
  store_pool (record p { is_dead = true })
  remove_requests p.requests
  release_pool

-- `treq_PoolThreadExitProc`
unfoldable pub pool_thread_exit : M (Unit {0})
unfolding pool_free
pool_thread_exit w = elim w.pool [ none ↦ some (tt, w) | some p ↦ pool_free w ]
