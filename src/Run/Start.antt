-- ===== src/Run/Start.antt =====
-- src/treqRequest.c, `treq_RequestRun` as a whole: the settings, and then the transfer, which is
-- made at once or by the pool.
pub mod Async
pub mod Ends
use trequests.Base.{
  ℤ, pos, ℕ, Bool, true, false, not, ◌&&◌, List, [], ◌∷◌, ◌++◌, Option, none, some, Bytes, codes,
  length, if◌then◌else◌,
}
use trequests.Options.Platform.{Platform}
use trequests.Pool.{Code, tcl_ok, tcl_error, add_request}
use trequests.Request.Callback.{set_error, schedule_callback}
use trequests.Request.Content.{
  wide_size, stray_write, Received, Written, wrote, write_error, write_callback, bytes_of,
}
use trequests.Request.Memory.{
  Request, RequestState, inprogress, done, error, Memory, M, ◌>>=◌, ◌>>◌, return, skip,
  when◌then◌else◌, load_request, store_request,
}
use trequests.Run.Body.{configure}
use trequests.Run.{Curl, Progress, going, stopped}

-- What `curl_easy_perform` does: the chunks of the body that it gives to `treq_write_callback`, each
-- with whether memory for it can be had, whether the transfer is a success but for these, and the
-- text in the error buffer.
pub record Transfer : Type 0 where
  pub chunks : List (Bool × Bytes)
  pub is_ok : Bool
  pub curl_error : Bytes

-- What the function meets: libcurl, Tcl, `%ld`, whether a pool can be made and takes the request, and
-- the transfer.
pub record World : Type 0 where
  pub curl : Curl
  pub platform : Platform
  pub print_long : ℤ → Bytes
  pub inited : Bool
  pub added : Bool
  pub transfer : Transfer

-- The chunks, until one is refused. The size of the buffer is as wide as a pointer, as with Tcl 9.
pub deliver : Received → List (Bool × Bytes) → Received × Bool
unfolding write_callback
deliver q [] = (q, true)
deliver q ((allocated, chunk) ∷ chunks) =
    let (q', written) = write_callback wide_size allocated q chunk 1 (length chunk) in
    elim written [
      | wrote n ↦ deliver q' chunks
      | write_error ↦ (q', false)
      | stray_write ↦ (q', false)
    ]

abbrev received : Request → Received
received q = record {
  content = q.content;
  content_size = pos (length (bytes_of q.content));
  state = inprogress;
  failure = none;
}

module _ (env : World) where
  -- The message of `treq_write_callback`, if it had no memory.
  pub failure_message : Option (ℕ × ℤ) → Option Bytes → Option Bytes
  failure_message none old = old
  failure_message (some (size, current)) old =
      let numbers =
        env.print_long (pos size)
        ++ (codes " additional bytes in the output buffer, current output buffer size is "
            ++ env.print_long current) in
      some (codes "failed to allocate " ++ numbers)

  -- What the transfer makes of a request, with the state that follows from its result.
  unfoldable pub transferred : Request → Request
  unfolding deliver failure_message
  transferred q =
      let (r, taken) = deliver (received q) env.transfer.chunks in
      record q {
        content = r.content;
        error = failure_message r.failure q.error;
        curl_error = env.transfer.curl_error;
        state = if env.transfer.is_ok && taken then done else error;
      }

  -- From the label `error` on.
  unfoldable pub fail_run : ℕ → M (Unit {0})
  unfolding schedule_callback
  fail_run r = do q ← load_request r; when q.async then schedule_callback r else skip

  -- A request that the pool does not take.
  unfoldable pub pool_result : ℕ → Code → M (Unit {0})
  unfolding set_error fail_run
  pool_result r tcl_ok = skip
  pool_result r tcl_error = do
    set_error r (codes "failed to add the request to the pool")
    fail_run r

  unfoldable pub start_async : ℕ → M (Unit {0})
  unfolding add_request pool_result
  start_async r = do code ← add_request env.inited env.added r; pool_result r code

  unfoldable pub start_sync : ℕ → M (Unit {0})
  unfolding transferred
  start_sync r = do q ← load_request r; store_request r (transferred q)

  -- From `req->state = TREQ_REQUEST_INPROGRESS` on.
  unfoldable pub start : ℕ → M (Unit {0})
  unfolding start_async start_sync
  start r = do
    q ← load_request r
    store_request r (record q { state = inprogress })
    when q.async then start_async r else start_sync r

  unfoldable pub follow : ℕ → Progress → M (Unit {0})
  unfolding start set_error fail_run
  follow r (going made) = start r
  follow r (stopped made message) = do set_error r message; fail_run r

  -- `treq_RequestRun`
  unfoldable pub request_run : ℕ → M (Unit {0})
  unfolding configure follow
  request_run r = do q ← load_request r; follow r (configure env.curl env.platform q.settings)
