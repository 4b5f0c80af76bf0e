-- ===== src/Run/Start/Async.antt =====
-- The start of an asynchronous request.
use trequests.Base.{
  ==_self, ℕ, true, false, ◌||◌, List, none, some, Bytes, codes, ◌≡◌, arith, is_some,
}
use trequests.Pool.Add.{Joined}
use trequests.Pool.{add_request, init}
use trequests.Request.Callback.{set_error}
use trequests.Request.Memory.{Request, inprogress, error, Memory, Leaves, update}
use trequests.Run.Start.{World, start, start_async, fail_run, follow, pool_result}
use trequests.Run.{going, stopped}

-- The request has failed with a message.
abbrev pub failed : Bytes → Request → Request
failed message q = record q { error = some message; state = error }

abbrev pub with_request : Memory → ℕ → Request → Memory
with_request w r q = record w { requests = update w.requests r (some q) }

abbrev pub not_taken : Bytes
not_taken = codes "failed to add the request to the pool"

module _ (env : World) where
  pub follow_going :
      (w : Memory) (r : ℕ) (q : Request) (made : List _)
      → w.requests r ≡ some q
      → q.async ≡ true
      → follow env r (going made) w
        ≡ start_async env r (with_request w r (record q { state = inprogress }))
  unfolding follow start
  follow_going w r q made hq async = ground arith

  pub follow_stopped :
      (w : Memory) (r : ℕ) (q : Request) (made : List _) (message : Bytes)
      → w.requests r ≡ some q
      → follow env r (stopped made message) w ≡ fail_run env r (with_request w r (failed message q))
  unfolding follow set_error
  follow_stopped w r q made message hq = ground arith

  pub start_async-Joined :
      (w : Memory) (r : ℕ) (q : Request)
      → w.requests r ≡ some q
      → env.added ≡ true
      → (env.inited || is_some w.pool) ≡ true
      → Leaves (start_async env r w) (Joined w r q)
  unfolding start_async add_request pool_result
  start_async-Joined w r q hq added can = ground (arith, ==_self r)

  -- The pool does not take the request, or there is none and none can be made.
  pub start_async-fail :
      (w : Memory) (r : ℕ) (q : Request)
      → w.requests r ≡ some q
      → (env.added ≡ false)
      → is_some w.pool ≡ true
      → start_async env r w ≡ fail_run env r (with_request w r (failed not_taken q))
  unfolding start_async add_request pool_result set_error
  start_async-fail w r q hq added has = ground arith

  pub start_async-fail_new :
      (w : Memory) (r : ℕ) (q : Request)
      → w.requests r ≡ some q
      → env.added ≡ false
      → env.inited ≡ true
      → w.pool ≡ none
      → start_async env r w
        ≡ fail_run env r (with_request (record w { pool = some init }) r (failed not_taken q))
  unfolding start_async add_request pool_result set_error
  start_async-fail_new w r q hq added inited hp = ground arith

  pub start_async-fail_none :
      (w : Memory) (r : ℕ) (q : Request)
      → w.requests r ≡ some q
      → env.inited ≡ false
      → w.pool ≡ none
      → start_async env r w ≡ fail_run env r (with_request w r (failed not_taken q))
  unfolding start_async add_request pool_result set_error
  start_async-fail_none w r q hq inited hp = ground arith
