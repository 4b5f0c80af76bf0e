-- ===== src/Thread/Exit.antt =====
-- src/treqPool.c, `treq_PoolThreadExitProc`: the pool of a thread that exits is freed, and its requests
-- leave it.
use mathlib.Core.List.{append-nil}
use trequests.Base.{
  Bytes, decrement, subst, ==_self, ℕ, suc, Bool, true, false, not, ◌&&◌, List, [], ◌∷◌, ◌++◌,
  Option, none, some, if◌then◌else◌, ◌==◌, ◌≡◌, refl, arith, is_some, Bool-cases, Option-cases, inl,
  inr, ap,
}
use trequests.Destroy.Frame.{QueueInv-frame}
use trequests.Destroy.Queue.{QueueInv}
use trequests.Destroy.Schedule.{Queued-QueueInv}
use trequests.Destroy.{remove_requests, pool_thread_exit}
use trequests.Pool.Members.{contains, Distinct}
use trequests.Pool.Remove.{removed}
use trequests.Pool.{remove_request, removed_message}
use trequests.Request.Memory.{
  Request, inprogress, error, Pool, Event, request_event, Memory, M, ◌>>◌, Leaves, Leaves-weaken,
  Leaves-bind, update,
}
use trequests.Session.Owned.{SessionInv, SessionInv-frame}
use trequests.Thread.{ThreadInv, IsTidy, IsTidy-change, MayBecome}

-- The order of a thread but for its pool.
abbrev RestInv : Memory → Type 0
RestInv w = QueueInv w × IsTidy w × SessionInv w

-- The callback of a request that leaves the pool is queued.
abbrev asks : Memory → Request → Bool
asks w q = is_some q.callback && not w.interp_deleted

abbrev event_of : Memory → ℕ → Request → List Event
event_of w r q = if asks w q then request_event w.fresh (some r) ∷ [] else []

-- A request has left the dead pool.
abbrev Step : Memory → ℕ → Request → Pool → Memory → Type 0
Step w r q p v =
    ((x : ℕ) → v.requests x ≡ (if x == r then some (removed w q) else w.requests x))
    × (v.queue ≡ w.queue ++ event_of w r q)
    × (v.fresh ≡ (if asks w q then suc w.fresh else w.fresh))
    × (v.sessions ≡ w.sessions)
    × (v.interp_deleted ≡ w.interp_deleted)
    × (v.pool ≡ some (record p { active_connection_count = decrement p.active_connection_count }))

module _ (w : Memory) (r : ℕ) (q : Request) (hq : w.requests r ≡ some q) (on : q.pool ≡ true)
    (runs : q.state ≡ inprogress) (idle : q.callback_event ≡ none) where
  remove_request-Step :
      (p : Pool) → w.pool ≡ some p → p.is_dead ≡ true → Leaves (remove_request r w) (Step w r q p)
  unfolding remove_request
  remove_request-Step p hp dead = elim (Option-cases q.callback) [
    | inl silent ↦ elim (Bool-cases w.interp_deleted) [
      | inl deleted ↦ ground (arith, ==_self r, append-nil w.queue)
      | inr alive ↦ ground (arith, ==_self r, append-nil w.queue)
    ]
    | inr (c, has) ↦ elim (Bool-cases w.interp_deleted) [
      | inl deleted ↦ ground (arith, ==_self r, append-nil w.queue)
      | inr alive ↦ ground (arith, ==_self r)
    ]
  ]

  module _ (p : Pool) (v : Memory) (step : Step w r q p v) (inv : RestInv w) where
    -- The request as it is before its callback is queued.
    abbrev failed : Request
    failed = record q { pool = false; state = error; error = some removed_message }

    abbrev before : Memory
    before = record w { requests = update w.requests r (some failed); pool = v.pool }

    silent-QueueInv : asks w q ≡ false → QueueInv v
    silent-QueueInv silent =
        QueueInv-frame w v (ground (arith, step.1, append-nil w.queue)) (ground (arith, step.2))
          (λ x. ground (arith, step.0 x)) inv.0

    queued-QueueInv : (c : Bytes) → q.callback ≡ some c → w.interp_deleted ≡ false → QueueInv v
    queued-QueueInv c has alive =
        Queued-QueueInv before r failed c
          (QueueInv-frame w before refl (omega arith) (λ x. ground arith) inv.0)
          (ground (arith, ==_self r)) has idle alive v
          (
            (λ x. ground (arith, step.0 x)),
            ground (arith, step.1),
            ground (arith, step.2),
            refl,
            step.3,
          )

    Step-RestInv : RestInv v
    Step-RestInv = (
      elim (Option-cases q.callback) [
        | inl silent ↦ silent-QueueInv (ground arith)
        | inr (c, has) ↦ elim (Bool-cases w.interp_deleted) [
          | inl deleted ↦ silent-QueueInv (ground arith)
          | inr alive ↦ queued-QueueInv c has alive
        ]
      ],
      IsTidy-change w v r q (some (removed w q)) inv.1 hq may step.0 (ground (arith, step.2)),
      SessionInv-frame w v (λ x. ap (λ f. f x) step.3) (λ x. ground (arith, step.0 x))
          (ground (arith, step.2)) inv.2,
    )
      where
        may : MayBecome (some (removed w q))
        may y e t = absurd (ground arith)

-- The requests run, and wait for no event.
abbrev Running : Memory → List ℕ → Type 0
Running w [] = Unit {0}
Running w (r ∷ rs) =
    ((q : Request) × (w.requests r ≡ some q)
      × (q.pool ≡ true)
      × (q.state ≡ inprogress)
      × (q.callback_event ≡ none))
    × Running w rs

Running-frame :
    (w v : Memory) (r : ℕ) (o : Option Request) (rs : List ℕ)
    → ((x : ℕ) → v.requests x ≡ (if x == r then o else w.requests x))
    → contains r rs ≡ false
    → Running w rs
    → Running v rs
Running-frame w v r o [] frame out h = tt
Running-frame w v r o (x ∷ rs) frame out ((q, hq, on, runs, idle), rest) = (
  (q, ground (arith, frame x), on, runs, idle),
  Running-frame w v r o rs frame (ground arith) rest,
)

-- What becomes of a request when the pool is freed: one that ran in it (`true`) has failed and waits
-- for its callback, if it has one, but in a deleted interpreter it only leaves the pool.
abbrev pub Thrown : Bool → Request → Bool → Option Request → Type 0
Thrown deleted q false o = o ≡ some q
Thrown deleted q true o =
    (y : Request) × (o ≡ some y)
    × (y.pool ≡ false)
    × (y.state ≡ (if deleted then q.state else error))
    × (is_some y.callback_event ≡ (is_some q.callback && not deleted))
    × (y.session ≡ q.session)

abbrev pub Ended : Bool → Option Request → Option Request → Type 0
Ended deleted none o = o ≡ none
Ended deleted (some q) o = Thrown deleted q q.pool o

abbrev Drained : List ℕ → Memory → Memory → Type 0
Drained rs w v =
    RestInv v
    × ((x : ℕ) → contains x rs ≡ true → Ended w.interp_deleted (w.requests x) (v.requests x))
    × ((x : ℕ) → contains x rs ≡ false → v.requests x ≡ w.requests x)

removed-Ended :
    (w : Memory) (q : Request)
    → q.pool ≡ true
    → q.state ≡ inprogress
    → q.callback_event ≡ none
    → Ended w.interp_deleted (some q) (some (removed w q))
removed-Ended w q on runs idle =
    rw on (removed w q, refl, ground arith, ground arith, ground arith, ground arith)

remove_requests-Drained :
    (rs : List ℕ) (w : Memory) (p : Pool)
    → RestInv w
    → w.pool ≡ some p
    → p.is_dead ≡ true
    → Running w rs
    → Distinct rs
    → Leaves (remove_requests rs w) (Drained rs w)
unfolding remove_requests
remove_requests-Drained [] w p inv hp dead run d =
    (inv, (λ x c. absurd (ground arith)), λ x out. refl)
remove_requests-Drained (r ∷ rs) w p inv hp dead ((q, hq, on, runs, idle), run) (out, d) =
    Leaves-bind (remove_request r) (λ _. remove_requests rs) w (Drained (r ∷ rs) w)
      (remove_request-Step w r q hq on runs idle p hp dead)
      λ _ v step.
        let p' = record p { active_connection_count = decrement p.active_connection_count } in
        let inv' = Step-RestInv w r q hq on runs idle p v step inv in
        let run' = Running-frame w v r (some (removed w q)) rs step.0 out run in
        Leaves-weaken (remove_requests rs v)
          (remove_requests-Drained rs v p' inv' step.5 dead run' d)
          λ u drained. both v u step drained
  where
    both : (v u : Memory) → Step w r q p v → Drained rs v u → Drained (r ∷ rs) w u
    both v u step (inv', ended, kept) = (
      inv',
      (λ x c. elim (Bool-cases (x == r)) [
        | inl same ↦
            let here : u.requests x ≡ some (removed w q) = ground (arith, kept x, step.0 x) in
            let was : w.requests x ≡ some q = ground arith in
            rw (was, here) (removed-Ended w q on runs idle)
        | inr other ↦
            let before : v.requests x ≡ w.requests x = ground (arith, step.0 x) in
            let within : contains x rs ≡ true = ground arith in
            subst (λ d. Ended d (w.requests x) (u.requests x)) step.4
              (subst (λ o. Ended v.interp_deleted o (u.requests x)) before (ended x within))
      ]),
      (λ x apart. ground (arith, kept x, step.0 x)),
    )

-- What is left of a thread when its pool is freed.
abbrev pub Exited : Memory → Memory → Type 0
Exited w v =
    (v.pool ≡ none)
    × QueueInv v
    × IsTidy v
    × SessionInv v
    × ((x : ℕ) → Ended w.interp_deleted (w.requests x) (v.requests x))

module _ (w : Memory) (inv : ThreadInv w) where
  -- A request that is not in the pool stays as it is.
  outside-Ended :
      (x : ℕ)
      → ((q : Request) → w.requests x ≡ some q → q.pool ≡ false)
      → Ended w.interp_deleted (w.requests x) (w.requests x)
  outside-Ended x off = elim (Option-cases (w.requests x)) [
    | inl gone ↦ rw gone refl
    | inr (q, hq) ↦ rw (hq, off q hq) refl
  ]

  listed-Running :
      (p : Pool) (rs : List ℕ)
      → w.pool ≡ some p
      → ((r : ℕ) → contains r rs ≡ true → contains r p.requests ≡ true)
      → Running w rs
  listed-Running p [] hp sub = tt
  listed-Running p (r ∷ rs) hp sub =
      let (q, hq, on, runs) = inv.books.listed p r hp (sub r (ground (arith, ==_self r))) in
      (
        (q, hq, on, runs, inv.tidy.idle r q hq on),
        listed-Running p rs hp (λ x c. sub x (ground arith)),
      )

  abbrev dead : Pool → Memory
  dead p = record w { pool = some (record p { is_dead = true }) }

  dead-RestInv : (p : Pool) → RestInv (dead p)
  dead-RestInv p = (
    QueueInv-frame w (dead p) refl (omega arith) (λ x. refl) inv.queue,
    record { idle = inv.tidy.idle; unused = inv.tidy.unused },
    SessionInv-frame w (dead p) (λ x. refl) (λ x. refl) (omega arith) inv.sessions,
  )

  abbrev release : M (Unit {0})
  release v = some (tt, record v { pool = none })

  pool_thread_exit-eq :
      (p : Pool)
      → w.pool ≡ some p
      → pool_thread_exit w ≡ (remove_requests p.requests >> release) (dead p)
  unfolding pool_thread_exit
  pool_thread_exit-eq p hp = ground arith

  freed-Exited :
      (p : Pool) (v : Memory)
      → w.pool ≡ some p
      → Drained p.requests (dead p) v
      → Exited w (record v { pool = none })
  freed-Exited p v hp ((queue, tidy, sessions), ended, kept) =
      let u = record v { pool = none } in
      (
        refl,
        QueueInv-frame v u refl (omega arith) (λ x. refl) queue,
        record { idle = tidy.idle; unused = tidy.unused },
        SessionInv-frame v u (λ x. refl) (λ x. refl) (omega arith) sessions,
        λ x. elim (Bool-cases (contains x p.requests)) [
          | inl c ↦ ended x c
          | inr out ↦ rw (kept x out) (outside-Ended x (λ q hq. outside p x q hp out hq))
        ],
      )
    where
      outside :
          (p : Pool) (x : ℕ) (q : Request)
          → w.pool ≡ some p
          → contains x p.requests ≡ false
          → w.requests x ≡ some q
          → q.pool ≡ false
      outside p x q hp out hq = elim (Bool-cases q.pool) [
        | inl on ↦ let (p', hp', c) = inv.books.member x q hq on in absurd (ground arith)
        | inr off ↦ off
      ]

  no_pool-Exited : w.pool ≡ none → Exited w w
  no_pool-Exited hp = (
    hp,
    inv.queue,
    inv.tidy,
    inv.sessions,
    λ x. outside-Ended x (λ q hq. elim (Bool-cases q.pool) [
      | inl on ↦ let (p, hp', c) = inv.books.member x q hq on in absurd (ground arith)
      | inr off ↦ off
    ]),
  )

  pool_thread_exit-none : w.pool ≡ none → pool_thread_exit w ≡ some (tt, w)
  unfolding pool_thread_exit
  pool_thread_exit-none hp = ground arith

  -- When a thread that is in order (ThreadInv) exits, its pool is freed with no fault: each request
  -- that ran in the pool has left it, has failed and waits for its callback, if it has one, but in a
  -- deleted interpreter it only leaves the pool; all other requests stay as they were, and the queue, the requests and the sessions refer to each other as they
  -- should.
  pub pool_thread_exit-Exited : Leaves (pool_thread_exit w) (Exited w)
  pool_thread_exit-Exited = elim (Option-cases w.pool) [
    | inl hp ↦ rw (pool_thread_exit-none hp) (no_pool-Exited hp)
    | inr (p, hp) ↦ rw (pool_thread_exit-eq p hp) (
        Leaves-bind (remove_requests p.requests) (λ _. release) (dead p) (Exited w)
          (remove_requests-Drained p.requests (dead p) (record p { is_dead = true })
            (dead-RestInv p) refl refl (listed-Running p p.requests hp (λ r c. c))
            (inv.books.distinct p hp))
          λ _ v drained. freed-Exited p v hp drained)
  ]
