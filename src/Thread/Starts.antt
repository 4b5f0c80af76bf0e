-- ===== src/Thread/Starts.antt =====
-- Making and running a new request.
use trequests.Base.{
  ap, ==_self, ℕ, suc, true, false, ◌||◌, if◌then◌else◌, Option, none, some, Bytes, ◌==◌, ◌≡◌, refl,
  arith, is_some, Bool-cases, Option-cases, inl, inr,
}
use trequests.Destroy.Frame.{QueueInv-frame}
use trequests.Pool.Frame.{PoolInv-frame}
use trequests.Pool.{init}
use trequests.Request.Memory.{Request, inprogress, Memory, Leaves, Leaves-weaken, update}
use trequests.Request.Settings.{Settings}
use trequests.Run.Body.{configure}
use trequests.Run.Start.Async.{
  failed, with_request, not_taken, follow_going, follow_stopped, start_async-Joined,
  start_async-fail, start_async-fail_new, start_async-fail_none,
}
use trequests.Run.Start.Ends.{synchronous, follow-OnlyRequest, request_run-follow}
use trequests.Run.Start.{World, request_run, follow, start_async, fail_run, transferred}
use trequests.Run.{Progress, going, stopped}
use trequests.Session.{new_request}
use trequests.Thread.Runs.{
  OnlyRequest-ThreadInv, with_request-ThreadInv, new_pool-ThreadInv, fail_run-ThreadInv,
  Joined-ThreadInv,
}
use trequests.Pool.Active.{ActiveInv-frame, deactivates}
use trequests.Session.Owned.{SessionInv}
use trequests.Thread.{ThreadInv}

module _ (env : World) (r : ℕ) where
  -- The request fails before or in the pool.
  failed-ThreadInv :
      (w : Memory) (q : Request) (message : Bytes)
      → ThreadInv w
      → w.requests r ≡ some q
      → q.pool ≡ false
      → q.callback_event ≡ none
      → Leaves (fail_run env r (with_request w r (failed message q))) ThreadInv
  failed-ThreadInv w q message inv hq off idle =
      fail_run-ThreadInv (with_request w r (failed message q)) r (failed message q)
        (with_request-ThreadInv w r q (failed message q) inv hq off off refl refl)
        (ground (arith, ==_self r)) off idle env

  start_async-ThreadInv :
      (w : Memory) (q : Request)
      → ThreadInv w
      → w.requests r ≡ some q
      → q.pool ≡ false
      → q.callback_event ≡ none
      → q.state ≡ inprogress
      → deactivates w.queue ≡ false
      → Leaves (start_async env r w) ThreadInv
  start_async-ThreadInv w q inv hq off idle runs served = elim (Option-cases w.pool) [
    | inl fresh ↦ elim (Bool-cases env.inited) [
      | inl inited ↦ elim (Bool-cases env.added) [
        | inl added ↦ taken added (ground arith)
        | inr full ↦ rw (start_async-fail_new env w r q hq full inited fresh) (
            failed-ThreadInv (record w { pool = some init }) q not_taken
              (new_pool-ThreadInv w inv fresh) hq off idle)
      ]
      | inr broken ↦
          rw (start_async-fail_none env w r q hq broken fresh)
            (failed-ThreadInv w q not_taken inv hq off idle)
    ]
    | inr (p, hp) ↦ elim (Bool-cases env.added) [
      | inl added ↦ taken added (ground arith)
      | inr full ↦
          rw (start_async-fail env w r q hq full (ground arith))
            (failed-ThreadInv w q not_taken inv hq off idle)
    ]
  ]
    where
      taken :
          env.added ≡ true
          → (env.inited || is_some w.pool) ≡ true
          → Leaves (start_async env r w) ThreadInv
      taken added can =
          Leaves-weaken (start_async env r w) (start_async-Joined env w r q hq added can)
            λ v joined. Joined-ThreadInv w r q inv hq off idle runs served v joined

  module _ (w : Memory) (q : Request) (inv : ThreadInv w) (hq : w.requests r ≡ some q)
      (off : q.pool ≡ false) (idle : q.callback_event ≡ none) where
    follow_async-ThreadInv :
        (g : Progress)
        → q.async ≡ true
        → deactivates w.queue ≡ false
        → Leaves (follow env r g w) ThreadInv
    follow_async-ThreadInv (going made) async served = rw (follow_going env w r q made hq async) (
        start_async-ThreadInv (with_request w r (record q { state = inprogress }))
          (record q { state = inprogress })
          (with_request-ThreadInv w r q (record q { state = inprogress }) inv hq off off refl refl)
          (ground (arith, ==_self r)) off idle refl served)
    follow_async-ThreadInv (stopped made message) async served =
        rw (follow_stopped env w r q made message hq) (failed-ThreadInv w q message inv hq off idle)

    pub synchronous_kept :
        (g : Progress)
        → ((synchronous env g q).pool ≡ false)
          × ((synchronous env g q).callback_event ≡ q.callback_event)
          × ((synchronous env g q).session ≡ q.session)
    unfolding transferred
    synchronous_kept (going made) = (off, refl, refl)
    synchronous_kept (stopped made message) = (off, refl, refl)

    follow-ThreadInv :
        (g : Progress)
        → (q.async ≡ true → deactivates w.queue ≡ false)
        → Leaves (follow env r g w) ThreadInv
    follow-ThreadInv g served = elim (Bool-cases q.async) [
      | inl async ↦ follow_async-ThreadInv g async (served async)
      | inr sync ↦
          let (off', same_event, same_session) = synchronous_kept g in
          Leaves-weaken (follow env r g w) (follow-OnlyRequest env w r q g hq sync) λ v only.
            OnlyRequest-ThreadInv w v r q (synchronous env g q) inv hq off off' same_event
              same_session only
    ]

    pub request_run-ThreadInv :
        (q.async ≡ true → deactivates w.queue ≡ false) → Leaves (request_run env r w) ThreadInv
    request_run-ThreadInv served =
        rw (request_run-follow env w r q hq)
          (follow-ThreadInv (configure env.curl env.platform q.settings) served)

-- A new request is in the memory, which is as it was but for the sessions.
abbrev pub Added : Memory → Settings → Option ℕ → Memory → Type 0
Added w s session v =
    (v.requests ≡ update w.requests w.fresh (some (new_request s session)))
    × (v.queue ≡ w.queue)
    × (v.pool ≡ w.pool)
    × (v.fresh ≡ suc w.fresh)

pub added-ThreadInv :
    (w v : Memory) (s : Settings) (session : Option ℕ)
    → ThreadInv w
    → Added w s session v
    → SessionInv v
    → ThreadInv v
added-ThreadInv w v s session inv (requests, queue, pool, fresh) sessions = record {
  books = PoolInv-frame w v pool (λ x. ground (arith, at x, unused)) inv.books;
  queue = QueueInv-frame w v queue (ground arith) (λ x. ground (arith, at x, unused)) inv.queue;
  tidy = record {
    idle = λ x y e t. elim (Bool-cases (x == w.fresh)) [
      | inl same ↦ ground (arith, at x)
      | inr other ↦ inv.tidy.idle x y (ground (arith, at x)) t
    ];
    unused = λ x le. ground (arith, at x, inv.tidy.unused x);
  };
  sessions = sessions;
  active = ActiveInv-frame w v pool (ap deactivates queue) inv.active;
}
  where
    unused : w.requests w.fresh ≡ none
    unused = inv.tidy.unused w.fresh (omega arith)

    at :
        (x : ℕ)
        → v.requests x ≡ (if x == w.fresh then some (new_request s session) else w.requests x)
    at x = ap (λ f. f x) requests
