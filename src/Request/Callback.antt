-- ===== src/Request/Callback.antt =====
-- src/treqRequest.c: the callback of an asynchronous request, from its event to its run, and the
-- functions that set and show the state.
use trequests.Base.{
  ℕ, suc, Bool, true, false, not, [], ◌∷◌, ◌++◌, Option, none, some, Bytes, codes, is_some,
  if◌then◌else◌,
}
use trequests.Request.Memory.{
  Request, RequestState, created, inprogress, done, error, request_event, M, ◌>>=◌, ◌>>◌, return,
  skip, when◌then◌else◌, load_request, store_request,
}

-- `Tcl_QueueEvent` at the tail of the queue, of a new event for the request.
abbrev queue_event : ℕ → M ℕ
queue_event r w = some (
  w.fresh,
  record w { fresh = suc w.fresh; queue = w.queue ++ request_event w.fresh (some r) ∷ [] },
)

abbrev interp_deleted : M Bool
interp_deleted w = some (w.interp_deleted, w)

-- What the function does if there is a callback.
pub queue_callback : ℕ → Request → M (Unit {0})
queue_callback r q = do
  deleted ← interp_deleted
  when deleted
      then skip
      else do e ← queue_event r; store_request r (record q { callback_event = some e })

-- `treq_RequestScheduleCallback`
unfoldable pub schedule_callback : ℕ → M (Unit {0})
unfolding queue_callback
schedule_callback r = do
  q ← load_request r
  when is_some q.callback then queue_callback r q else skip

abbrev run_callback : ℕ → M (Unit {0})
run_callback r w = some (tt, record w { ran = r ∷ w.ran })

-- The procedure on the request of its event.
pub event_request : ℕ → M Bool
event_request r = do
  q ← load_request r
  store_request r (record q { callback_event = none })
  run_callback r
  return true

-- `treq_RequestEventProc`. The result says whether Tcl is done with the event. The script that it
-- runs is the caller's; what it does are further steps.
unfoldable pub request_event_proc : Bool → Option ℕ → M Bool
unfolding event_request
request_event_proc file_events target w =
    if not file_events
    then some (false, w)
    else elim target [ none ↦ some (true, w) | some r ↦ event_request r w ]

-- `treq_RequestSetError`
unfoldable pub set_error : ℕ → Bytes → M (Unit {0})
set_error r message = do
  q ← load_request r
  store_request r (record q { error = some message; state = error })

-- `treq_RequestGetState`
unfoldable pub get_state : RequestState → Bytes
get_state created = codes "created"
get_state inprogress = codes "progress"
get_state done = codes "done"
get_state error = codes "error"

abbrev unknown_error : RequestState → Bytes
unknown_error error = codes "unknown error"
unknown_error _ = []

-- Without an error of its own, the request shows cURL's.
pub curl_message : RequestState → Bytes → Bytes
curl_message s [] = unknown_error s
curl_message s (c ∷ cs) = codes "cURL error: " ++ (c ∷ cs)

pub both_messages : Bytes → Bytes → Bytes
both_messages e [] = e
both_messages e (c ∷ cs) = e ++ (codes "(cURL error: " ++ ((c ∷ cs) ++ codes ")"))

-- `treq_RequestGetError`
unfoldable pub get_error : Option Bytes → RequestState → Bytes → Bytes
unfolding curl_message both_messages
get_error none s curl = curl_message s curl
get_error (some e) s curl = both_messages e curl
