-- ===== src/History.antt =====
-- What happens to a thread, as a sequence of actions: calls of the commands, events that Tcl serves,
-- and checks of the pool that libcurl answers.
pub mod Ordered
pub mod Served
use trequests.Base.{
  ℕ, Bool, true, false, ◌&&◌, List, [], ◌∷◌, Option, none, some, ◌≡◌, if◌then◌else◌,
}
use trequests.Destroy.Safe.{IsQuiet}
use trequests.Destroy.{handle_delete, session_free}
use trequests.Launch.Made.{InLive}
use trequests.Launch.Replies.{IsReadable}
use trequests.Launch.Sessions.{SessionArgs, session_cmd, session_handle_delete}
use trequests.Launch.{Site, Wanted, create_new_request}
use trequests.Options.Validate.{RawOptions}
use trequests.Pool.Complete.{Reports}
use trequests.Pool.Active.{deactivates}
use trequests.Pool.Drained.{AllReported}
use trequests.Pool.{Message, Answer, event_check, deactivate}
use trequests.Request.Callback.{request_event_proc}
use trequests.Request.Memory.{
  Request, Pool, Session, SessionSettings, Event, request_event, deactivate_event, Memory, M, ◌>>=◌,
  ◌>>◌, return, skip,
}
use trequests.Session.{session_init}
use trequests.Thread.Sessions.{AllQuiet}

pub data Happening : Type 1 where
  create_request : Site → Wanted → RawOptions → Happening
  create_session : Site → Bool → SessionArgs → Happening
  serve_event delete_interp : Happening
  check_pool : Bool → Answer → Answer → List Message → Happening
  destroy destroy_session : ℕ → Happening

abbrev drop_event : List Event → M (Unit {0})
drop_event es w = some (tt, record w { queue = es })

-- Tcl serves the event at the head of the queue, and drops it.
unfoldable pub serve : List Event → M (Unit {0})
serve [] = skip
serve (request_event e target ∷ es) = do _ ← request_event_proc true target; drop_event es
serve (deactivate_event ∷ es) = do deactivate; drop_event es

-- The result of a command.
abbrev pub forget : {A : Type 0} → Option (A × Memory) → Option (Unit {0} × Memory)
forget none = none
forget (some (a, w)) = some (tt, w)

unfoldable pub act : Happening → M (Unit {0})
unfolding serve
act (create_request site t raw) w = forget (create_new_request site t raw w)
act (create_session site inited a) w =
    forget (session_cmd site.world.platform site.find_exact inited a w)
act serve_event w = serve w.queue w
act delete_interp w = some (tt, record w { interp_deleted = true })
act (check_pool file_events waited performed ms) w = event_check file_events waited performed ms w
act (destroy r) w = handle_delete r w
act (destroy_session s) w = session_handle_delete s w

-- What may happen: a request is created in a live session or in none, where a Content-Type header is
-- one that the parser gets through, and, if it is asynchronous, not before an event that waits to
-- deactivate the pool is served; libcurl reports transfers of the pool, each once, and all of them if
-- it has no transfer left; a request is destroyed that does not run in the pool with a callback; and
-- a session is destroyed none of whose requests runs in the pool with a callback.
abbrev pub MayHappen : Memory → Happening → Type 0
MayHappen w (create_request site t raw) =
    IsReadable site × InLive w t.session × ((raw.async_flag && deactivates w.queue) ≡ false)
MayHappen w (create_session site inited a) = Unit {0}
MayHappen w serve_event = Unit {0}
MayHappen w delete_interp = Unit {0}
MayHappen w (check_pool file_events waited performed ms) =
    (p : Pool) × (w.pool ≡ some p)
    × Reports w.requests ms
    × (performed.numfds ≡ 0 → AllReported p ms)
MayHappen w (destroy r) = (q : Request) × (w.requests r ≡ some q) × IsQuiet w q
MayHappen w (destroy_session s) =
    (ses : Session) × (w.sessions s ≡ some ses) × AllQuiet w ses.requests

-- A thread in which nothing has happened.
abbrev pub empty_thread : Memory
empty_thread = record {
  requests = λ r. none;
  sessions = λ s. none;
  pool = none;
  queue = [];
  fresh = 0;
  interp_deleted = false;
  ran = [];
}

-- The memories that actions lead to.
pub data Reach : Memory → Type 1 where
  nothing_yet : Reach empty_thread
  next : {w v : Memory} (x : Happening) → Reach w → MayHappen w x → act x w ≡ some (tt, v) → Reach v
