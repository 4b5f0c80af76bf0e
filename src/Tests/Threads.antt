-- ===== src/Tests/Threads.antt =====
-- The theorems on the pool, the event queue and the destruction of requests, in a thread with two
-- running requests, 7 and 8, a finished one, 9, whose callback waits in the queue, and a request 10
-- that is not in the pool yet.
pub mod Pools
pub mod Queues
use trequests.Base.{
  ℕ, pos, minus_one, Bool, true, false, List, [], ◌∷◌, Option, none, some, Bytes, codes, ◌≡◌, refl,
  arith, if◌then◌else◌, ◌==◌,
}
use trequests.Pool.Remove.{PoolInv}
use trequests.Request.Memory.{
  Request, RequestState, inprogress, done, Pool, Session, Event, request_event, Memory,
}
use trequests.Request.Settings.{Settings, get}

abbrev settings_with : Option Bytes → Settings
settings_with callback = record {
  url = codes "http://localhost";
  headers = none;
  header_accept = none;
  header_content_type = none;
  form = none;
  method = get;
  custom_method = none;
  auth = none;
  postfields = none;
  querystring = none;
  allow_redirects = pos 1;
  verbose = pos 0;
  timeout = minus_one;
  timeout_connect = minus_one;
  verify_host = minus_one;
  verify_peer = minus_one;
  verify_status = minus_one;
  callback = callback;
  async = true;
  callback_debug = none;
}

abbrev pub request_with : Option Bytes → RequestState → Bool → Option ℕ → Request
request_with callback state pool event = record {
  settings = settings_with callback;
  state = state;
  error = none;
  curl_error = [];
  pool = pool;
  session = none;
  callback_event = event;
  cmd_token = true;
  is_dead = false;
  content = none;
}

abbrev pub running : Request
running = request_with (some (codes "cb")) inprogress true none

abbrev pub running_alone : Request
running_alone = request_with none inprogress true none

abbrev pub finished : Request
finished = request_with (some (codes "cb")) done false (some 50)

abbrev pub outside : Request
outside = request_with (some (codes "cb")) inprogress false none

abbrev pub requests_at : ℕ → Option Request
requests_at r =
    if r == 7
    then some running
    else if r == 8
    then some running_alone
    else if r == 9
    then some finished
    else if r == 10
    then some outside
    else none

abbrev pub busy_pool : Pool
busy_pool = record {
  requests = 7 ∷ 8 ∷ [];
  is_dead = false;
  is_active = true;
  need_refresh = true;
  active_connection_count = pos 2;
}

abbrev pub waiting : List Event
waiting = request_event 50 (some 9) ∷ request_event 51 none ∷ []

abbrev pub thread : Memory
thread = record {
  requests = requests_at;
  sessions = λ s. none;
  pool = some busy_pool;
  queue = waiting;
  fresh = 100;
  interp_deleted = false;
  ran = [];
}
