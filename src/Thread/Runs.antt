-- ===== src/Thread/Runs.antt =====
-- Running a request.
use trequests.Base.{
  ℕ, true, false, none, some, Bytes, if◌then◌else◌, ◌≡◌, refl, arith, is_some, Bool-cases,
  Option-cases, inl, inr, ap, ◌∙◌,
}
use trequests.Destroy.Frame.{QueueInv-frame}
use trequests.Destroy.Schedule.{Queued, schedule-Queued, Queued-QueueInv}
use trequests.Pool.Add.{Joined, Joined-PoolInv}
use trequests.Pool.Frame.{PoolInv-frame}
use trequests.Pool.{init}
use trequests.Request.Callback.{schedule_callback}
use trequests.Request.Memory.{Request, inprogress, Memory, Leaves, Leaves-weaken}
use trequests.Run.Start.Async.{with_request}
use trequests.Run.Start.Ends.{OnlyRequest}
use trequests.Run.Start.{World, fail_run}
use trequests.Pool.Active.{ActiveInv-frame, deactivates, deactivates-append}
use trequests.Session.Owned.{SessionInv-frame}
use trequests.Thread.{ThreadInv, IsTidy-change, MayBecome}

-- A request outside of the pool that changes neither its event nor its session.
pub OnlyRequest-ThreadInv :
    (w v : Memory) (r : ℕ) (q q' : Request)
    → ThreadInv w
    → w.requests r ≡ some q
    → q.pool ≡ false
    → q'.pool ≡ false
    → q'.callback_event ≡ q.callback_event
    → q'.session ≡ q.session
    → OnlyRequest w r q' v
    → ThreadInv v
OnlyRequest-ThreadInv w v r q q' inv hq off off' same_event same_session only = record {
  books = PoolInv-frame w v only.2 (λ x. ground (arith, only.0 x)) inv.books;
  queue =
      QueueInv-frame w v only.1 (ground (arith, only.3)) (λ x. ground (arith, only.0 x)) inv.queue;
  tidy = IsTidy-change w v r q (some q') inv.tidy hq may only.0 (ground (arith, only.3));
  sessions =
      SessionInv-frame w v (λ x. ap (λ f. f x) only.4) (λ x. ground (arith, only.0 x))
        (ground (arith, only.3)) inv.sessions;
  active = ActiveInv-frame w v only.2 (ap deactivates only.1) inv.active;
}
  where
    may : MayBecome (some q')
    may y e t = ground arith

pub with_request-ThreadInv :
    (w : Memory) (r : ℕ) (q q' : Request)
    → ThreadInv w
    → w.requests r ≡ some q
    → q.pool ≡ false
    → q'.pool ≡ false
    → q'.callback_event ≡ q.callback_event
    → q'.session ≡ q.session
    → ThreadInv (with_request w r q')
with_request-ThreadInv w r q q' inv hq off off' same_event same_session =
    OnlyRequest-ThreadInv w (with_request w r q') r q q' inv hq off off' same_event same_session
      ((λ x. refl), refl, refl, refl, refl)

-- A thread gets its pool.
pub new_pool-ThreadInv :
    (w : Memory) → ThreadInv w → w.pool ≡ none → ThreadInv (record w { pool = some init })
new_pool-ThreadInv w inv hp = record {
  books = record {
    member = λ r q e t. let (p, e', c) = inv.books.member r q e t in absurd (ground arith);
    listed = λ p r e c. absurd (ground arith);
    counted = λ p e. ground arith;
    distinct = λ p e. ground arith;
    alive = λ p e. ground arith;
  };
  queue = record {
    targets = inv.queue.targets;
    queued = inv.queue.queued;
    unique = inv.queue.unique;
    new = inv.queue.new;
  };
  tidy = record { idle = inv.tidy.idle; unused = inv.tidy.unused };
  sessions =
      SessionInv-frame w (record w { pool = some init }) (λ x. refl) (λ x. refl) (omega arith)
        inv.sessions;
  active = record {
    ending = λ d. let (p, e, _) = inv.active.ending d in absurd (ground arith);
    active = λ p e off. ground arith;
  };
}

module _ (w : Memory) (r : ℕ) (q : Request) (inv : ThreadInv w) (hq : w.requests r ≡ some q)
    (off : q.pool ≡ false) (idle : q.callback_event ≡ none) where
  Queued-ThreadInv :
      (v : Memory) (callback : Bytes) (has : q.callback ≡ some callback)
      (alive : w.interp_deleted ≡ false)
      → Queued w r q callback inv.queue hq has idle alive v
      → ThreadInv v
  Queued-ThreadInv v callback has alive s = record {
    books = PoolInv-frame w v s.3 (λ x. ground (arith, s.0 x)) inv.books;
    queue = Queued-QueueInv w r q callback inv.queue hq has idle alive v s;
    tidy =
        IsTidy-change w v r q (some (record q { callback_event = some w.fresh })) inv.tidy hq may
          s.0 (ground (arith, s.2));
    sessions =
        SessionInv-frame w v (λ x. ap (λ f. f x) s.4) (λ x. ground (arith, s.0 x))
          (ground (arith, s.3)) inv.sessions;
    active =
        ActiveInv-frame w v s.3 (ap deactivates s.1 ∙ deactivates-append w.queue w.fresh (some r))
          inv.active;
  }
    where
      may : MayBecome (some (record q { callback_event = some w.fresh }))
      may y e t = ground arith

  unscheduled : (is_some q.callback ≡ false) → schedule_callback r w ≡ some (tt, w)
  unfolding schedule_callback
  unscheduled silent = ground arith

  unscheduled_deleted : w.interp_deleted ≡ true → schedule_callback r w ≡ some (tt, w)
  unfolding schedule_callback
  unscheduled_deleted deleted = ground arith

  pub schedule_callback-ThreadInv : Leaves (schedule_callback r w) ThreadInv
  schedule_callback-ThreadInv = elim (Option-cases q.callback) [
    | inl silent ↦ rw (unscheduled (ground arith)) inv
    | inr (callback, has) ↦ elim (Bool-cases w.interp_deleted) [
      | inl deleted ↦ rw (unscheduled_deleted deleted) inv
      | inr alive ↦
          Leaves-weaken (schedule_callback r w)
            (schedule-Queued w r q callback inv.queue hq has idle alive)
            λ v s. Queued-ThreadInv v callback has alive s
    ]
  ]

  fail_run-eq :
      (env : World) → fail_run env r w ≡ (if q.async then schedule_callback r w else some (tt, w))
  unfolding fail_run
  fail_run-eq env = ground arith

  pub fail_run-ThreadInv : (env : World) → Leaves (fail_run env r w) ThreadInv
  fail_run-ThreadInv env = elim (Bool-cases q.async) [
    | inl async ↦ rw (fail_run-eq env, async) schedule_callback-ThreadInv
    | inr sync ↦ rw (fail_run-eq env, sync) inv
  ]

  pub Joined-ThreadInv :
      q.state ≡ inprogress
      → deactivates w.queue ≡ false
      → (v : Memory) → Joined w r q v
      → ThreadInv v
  Joined-ThreadInv runs served v joined = record {
    books = Joined-PoolInv w v r q inv.books hq off runs joined;
    queue =
        QueueInv-frame w v joined.2 (ground (arith, joined.3)) (λ x. ground (arith, joined.1 x))
          inv.queue;
    tidy =
        IsTidy-change w v r q (some (record q { pool = true })) inv.tidy hq may joined.1
          (ground (arith, joined.3));
    sessions =
        SessionInv-frame w v (λ x. ap (λ f. f x) joined.4) (λ x. ground (arith, joined.1 x))
          (ground (arith, joined.3)) inv.sessions;
    active = record {
      ending = λ d. absurd (ground (arith, joined.2, served));
      active = λ p e on. absurd (ground (arith, joined.0));
    };
  }
    where
      may : MayBecome (some (record q { pool = true }))
      may y e t = ground arith
