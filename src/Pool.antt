-- ===== src/Pool.antt =====
-- src/treqPool.c: the pool of running asynchronous requests, driven by Tcl's event loop through an
-- event source. What libcurl answers is an argument of the operation that asks it.
pub mod Members
pub mod Remove
pub mod Add
pub mod Complete
pub mod Check
pub mod Timing
pub mod Frame
pub mod Active
pub mod Drained
use trequests.Base.{
  ℕ, ℤ, pos, negsuc, increment, decrement, int_eq, is_negative, int_below, ◌*◌, Bool, true, false,
  not, ◌&&◌, ◌||◌, ltb, ◌==◌, List, [], ◌∷◌, Option, none, some, codes, if◌then◌else◌,
}
use trequests.Request.Callback.{schedule_callback, set_error}
use trequests.Request.Memory.{
  Request, RequestState, created, inprogress, done, error, Pool, Event, deactivate_event, Memory, M,
  ◌>>=◌, ◌>>◌, return, skip, when◌then◌else◌, fault, load_request, store_request, load_pool,
  store_pool, remove_item,
}

-- `treq_PoolInit`, where `curl_multi_init` succeeds.
abbrev pub init : Pool
init = record {
  requests = [];
  is_dead = false;
  is_active = false;
  need_refresh = false;
  active_connection_count = pos 0;
}

-- `TCL_OK` and `TCL_ERROR`.
pub data Code : Type 0 where
  tcl_ok tcl_error : Code

-- The pool of the thread, which the first request makes; `none` if libcurl cannot.
pub get_or_init : Bool → Memory → Option Pool × Memory
get_or_init inited w = elim w.pool [
  | some p ↦ (some p, w)
  | none ↦ if inited then (some init, record w { pool = some init }) else (none, w)
]

-- From `curl_multi_add_handle` on.
pub add_handle : Bool → ℕ → Pool → M Code
add_handle added r p = when not added then return tcl_error else do
  q ← load_request r
  store_request r (record q { pool = true })
  store_pool (record p {
    requests = r ∷ p.requests;
    is_active = true;
    active_connection_count = increment p.active_connection_count;
    need_refresh = true;
  })
  return tcl_ok

-- `treq_PoolAddRequest`, with `treq_PoolActivate`.
unfoldable pub add_request : Bool → Bool → ℕ → M Code
unfolding get_or_init add_handle
add_request inited added r w =
    let (pool, w') = get_or_init inited w in
    elim pool [ none ↦ some (tcl_error, w') | some p ↦ add_handle added r p w' ]

abbrev interp_deleted : M Bool
interp_deleted w = some (w.interp_deleted, w)

-- The message of a request that leaves the pool while it runs.
abbrev pub removed_message : List ℕ
removed_message = codes "the request has been removed from async pool"

-- What `treq_PoolRemoveRequest` does with a request that still runs.
pub abort : ℕ → M (Unit {0})
unfolding set_error schedule_callback
abort r = do
  deleted ← interp_deleted
  when deleted then skip else do set_error r removed_message; schedule_callback r

abbrev pub is_inprogress : RequestState → Bool
is_inprogress inprogress = true
is_inprogress _ = false

-- `treq_PoolRemoveRequest`. It reads through `req->pool`.
unfoldable pub remove_request : ℕ → M (Unit {0})
unfolding remove_item abort
remove_request r = do
  q ← load_request r
  p ← when q.pool then load_pool else fault
  store_pool (record p {
    requests = if p.is_dead then p.requests else remove_item r p.requests;
    active_connection_count = decrement p.active_connection_count;
  })
  store_request r (record q { pool = false })
  when is_inprogress q.state then abort r else skip

-- `treq_PoolDeactivate`, of `treq_PoolDeactivateEventProc`.
unfoldable pub deactivate : M (Unit {0})
deactivate = do p ← load_pool; store_pool (record p { is_active = false })

-- A message of `curl_multi_info_read`, with the request that `CURLINFO_PRIVATE` gives.
pub record Message : Type 0 where
  pub is_done : Bool
  pub request : ℕ
  pub is_ok : Bool

-- The body of the loop over the messages.
unfoldable pub handle_message : Message → M (Unit {0})
unfolding remove_request schedule_callback
handle_message m = when not m.is_done then skip else do
  q ← load_request m.request
  store_request m.request (record q { state = if m.is_ok then done else error })
  remove_request m.request
  schedule_callback m.request

unfoldable pub handle_messages : List Message → M (Unit {0})
handle_messages [] = skip
handle_messages (m ∷ ms) = do handle_message m; handle_messages ms

-- `Tcl_QueueEvent` at the head of the queue.
abbrev pub queue_deactivate : M (Unit {0})
queue_deactivate w = some (tt, record w { queue = deactivate_event ∷ w.queue })

-- What `curl_multi_wait` and `curl_multi_perform` answer: whether they succeed, and the number
-- that they store in `numfds`.
pub record Answer : Type 0 where
  pub is_ok : Bool
  pub numfds : ℕ

-- From the label `perform` on.
unfoldable pub perform : Answer → List Message → M (Unit {0})
unfolding handle_messages
perform a ms = do
  p ← load_pool
  when not a.is_ok || int_eq (pos a.numfds) p.active_connection_count
      then skip
      else do handle_messages ms; when a.numfds == 0 then queue_deactivate else skip

-- `treq_PoolEventCheck`
unfoldable pub event_check : Bool → Answer → Answer → List Message → M (Unit {0})
unfolding perform
event_check file_events waited performed ms = do
  p ← load_pool
  when not file_events
      then skip
      else when p.need_refresh
      then (store_pool (record p { need_refresh = false }) >> perform performed ms)
      else when not waited.is_ok || waited.numfds == 0
      then skip
      else perform performed ms

-- The time that `treq_PoolEventSetup` sets, in microseconds, and whether the pool must be refreshed.
-- `none` is a failed `curl_multi_timeout`.
pub block_time : Option ℤ → ℕ × Bool
block_time none = (100 * 1000, false)
block_time (some (negsuc n)) = (100 * 1000, false)
block_time (some (pos t)) =
    if ltb t 2 then (0, true) else if ltb t 100 then (t * 1000, false) else (100 * 1000, false)

-- `treq_PoolEventSetup`: the time given to `Tcl_SetMaxBlockTime`, if it is called.
unfoldable pub event_setup : Bool → Option ℤ → Pool → Option ℕ × Pool
unfolding block_time
event_setup file_events curl_timeout p =
    if not file_events
    then (none, p)
    else if p.need_refresh
    then (some 0, p)
    else (let (time, refresh) = block_time curl_timeout in
        (some time, record p { need_refresh = if refresh then true else p.need_refresh }))
