-- ===== src/Run/Start/Ends.antt =====
-- The state in which a request is left.
use trequests.Base.{ℕ, false, some, if◌then◌else◌, ◌==◌, ==_self, ◌≡◌, refl, arith, ◌⊎◌, inr}
use trequests.Request.Memory.{
  Request, RequestState, inprogress, done, error, Memory, Leaves, Leaves-weaken,
}
use trequests.Run.Body.{configure}
use trequests.Run.Start.{World, request_run, follow, transferred}
use trequests.Run.{Progress, going, stopped}

-- Nothing but the request changes.
abbrev pub OnlyRequest : Memory → ℕ → Request → Memory → Type 0
OnlyRequest w r q v =
    ((x : ℕ) → v.requests x ≡ (if x == r then some q else w.requests x))
    × (v.queue ≡ w.queue)
    × (v.pool ≡ w.pool)
    × (v.fresh ≡ w.fresh)
    × (v.sessions ≡ w.sessions)

-- A transfer that has ended.
abbrev pub IsOver : RequestState → Type 0
IsOver s = (s ≡ done) ⊎ (s ≡ error)

module _ (env : World) where
  -- What becomes of a request that is not asynchronous.
  abbrev pub synchronous : Progress → Request → Request
  synchronous (going made) q = transferred env (record q { state = inprogress })
  synchronous (stopped made message) q = record q { error = some message; state = error }

  pub follow-OnlyRequest :
      (w : Memory) (r : ℕ) (q : Request) (g : Progress)
      → w.requests r ≡ some q
      → q.async ≡ false
      → Leaves (follow env r g w) (OnlyRequest w r (synchronous g q))
  unfolding follow transferred
  follow-OnlyRequest w r q (going made) hq sync = ground (arith, ==_self r)
  follow-OnlyRequest w r q (stopped made message) hq sync = ground (arith, ==_self r)

  pub synchronous-IsOver : (g : Progress) (q : Request) → IsOver (synchronous g q).state
  unfolding transferred
  synchronous-IsOver (going made) q = ground arith
  synchronous-IsOver (stopped made message) q = inr refl

  pub request_run-follow :
      (w : Memory) (r : ℕ) (q : Request)
      → w.requests r ≡ some q
      → request_run env r w ≡ follow env r (configure env.curl env.platform q.settings) w
  unfolding request_run
  request_run-follow w r q hq = ground arith

  -- A request that is not asynchronous is over when the function returns: it is done or has failed,
  -- whatever libcurl does; no other request changes, nor the queue, nor the pool.
  pub request_run-IsOver :
      (w : Memory) (r : ℕ) (q : Request)
      → w.requests r ≡ some q
      → q.async ≡ false
      → Leaves (request_run env r w) (λ v. (q' : Request) × OnlyRequest w r q' v × IsOver q'.state)
  request_run-IsOver w r q hq sync =
      let g = configure env.curl env.platform q.settings in
      rw (request_run-follow w r q hq) (
        Leaves-weaken (follow env r g w) (follow-OnlyRequest w r q g hq sync)
          λ v only. (synchronous g q, only, synchronous-IsOver g q))
