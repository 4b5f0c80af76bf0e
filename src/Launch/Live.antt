-- ===== src/Launch/Live.antt =====
-- The request is live after its run.
use trequests.Base.{==_self, ℕ, true, some, ◌≡◌, arith, is_some}
use trequests.Pool.{add_request}
use trequests.Request.Callback.{set_error, schedule_callback}
use trequests.Request.Memory.{Request, Memory, Leaves}
use trequests.Run.Body.{configure}
use trequests.Run.Start.Ends.{request_run-follow}
use trequests.Run.Start.{
  World, request_run, follow, start, start_async, start_sync, fail_run, pool_result,
}
use trequests.Run.{Progress, going, stopped}

module _ (env : World) (w : Memory) (r : ℕ) (q : Request) (hq : w.requests r ≡ some q) where
  abbrev pub IsLive : Memory → Type 0
  IsLive v = is_some (v.requests r) ≡ true

  follow-IsLive : (g : Progress) → Leaves (follow env r g w) IsLive
  unfolding follow start start_async start_sync add_request pool_result set_error fail_run
      schedule_callback
  follow-IsLive (going made) = ground (arith, ==_self r)
  follow-IsLive (stopped made message) = ground (arith, ==_self r)

  pub request_run-IsLive : Leaves (request_run env r w) IsLive
  request_run-IsLive =
      rw (request_run-follow env w r q hq)
        (follow-IsLive (configure env.curl env.platform q.settings))
