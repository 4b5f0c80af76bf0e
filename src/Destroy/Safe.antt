-- ===== src/Destroy/Safe.antt =====
-- Destroying a request whose callback need not be queued.
use trequests.Base.{
  decrement, Option, ==_self, ℕ, true, false, not, ◌&&◌, List, none, some, if◌then◌else◌, ◌==◌, ◌≡◌,
  arith, is_some, All, Bool-cases, Option-cases, inl, inr, ◌∙◌,
}
use trequests.Destroy.Queue.{
  QueueInv, refers, refers-holds_event, refers-single, refers-clear_event, Target, Unique,
  holds_event-clear_event, clear_event-Unique, clear_event-targets, targets-frame,
}
use trequests.Destroy.{request_free, clear_event, holds_event}
use trequests.Pool.{is_inprogress}
use trequests.Session.Owned.{sessions_without}
use trequests.Request.Memory.{
  remove_item, Request, Pool, Session, Event, Memory, Leaves, Leaves-weaken,
}

-- The queue without the reference of the request's event.
abbrev pub cleared : Memory → Request → List Event
cleared w q = elim q.callback_event [ none ↦ w.queue | some e ↦ clear_event e w.queue ]

-- The pool without the request.
abbrev pub pool_without : ℕ → Option Pool → Option Pool
pool_without r none = none
pool_without r (some p) = some (record p {
  requests = if p.is_dead then p.requests else remove_item r p.requests;
  active_connection_count = decrement p.active_connection_count;
})

abbrev pub Freed : Memory → ℕ → Request → Memory → Type 0
Freed w r q v =
    ((x : ℕ) → v.requests x ≡ (if x == r then none else w.requests x))
    × (v.queue ≡ cleared w q)
    × (v.fresh ≡ w.fresh)
    × (v.pool ≡ (if q.pool then pool_without r w.pool else w.pool))
    × (v.interp_deleted ≡ w.interp_deleted)
    × ((x : ℕ) → v.sessions x ≡ sessions_without r q.session w.sessions x)

-- The request is not one that runs in the pool and has a callback, in a live interpreter.
abbrev pub IsQuiet : Memory → Request → Type 0
IsQuiet w q =
    (q.pool && (is_inprogress q.state && (is_some q.callback && not w.interp_deleted))) ≡ false

module _ (w : Memory) (r : ℕ) (q : Request) (hq : w.requests r ≡ some q) (quiet : IsQuiet w q) where
  abbrev pub Holds : Type 0
  Holds = (e : ℕ) → q.callback_event ≡ some e → holds_event e w.queue ≡ true

  free_alone : q.session ≡ none → q.pool ≡ false → Holds → Leaves (request_free r w) (Freed w r q)
  unfolding request_free
  free_alone hs off hold = elim (Option-cases q.callback_event) [
    | inl c ↦ ground (arith, ==_self r)
    | inr (e, c) ↦ ground (arith, ==_self r, hold e c)
  ]

  free_pooled :
      (p : Pool)
      → q.session ≡ none
      → q.pool ≡ true
      → w.pool ≡ some p
      → Holds
      → Leaves (request_free r w) (Freed w r q)
  unfolding request_free
  free_pooled p hs on hp hold = elim (Option-cases q.callback_event) [
    | inl c ↦ ground (arith, ==_self r)
    | inr (e, c) ↦ ground (arith, ==_self r, hold e c)
  ]

  free_session :
      (s : ℕ) (ses : Session)
      → q.session ≡ some s
      → w.sessions s ≡ some ses
      → q.pool ≡ false
      → Holds
      → Leaves (request_free r w) (Freed w r q)
  unfolding request_free
  free_session s ses hs hses off hold = elim (Option-cases q.callback_event) [
    | inl c ↦ ground (arith, ==_self r)
    | inr (e, c) ↦ ground (arith, ==_self r, hold e c)
  ]

  free_both :
      (s : ℕ) (ses : Session) (p : Pool)
      → q.session ≡ some s
      → w.sessions s ≡ some ses
      → q.pool ≡ true
      → w.pool ≡ some p
      → Holds
      → Leaves (request_free r w) (Freed w r q)
  unfolding request_free
  free_both s ses p hs hses on hp hold = elim (Option-cases q.callback_event) [
    | inl c ↦ ground (arith, ==_self r)
    | inr (e, c) ↦ ground (arith, ==_self r, hold e c)
  ]

  pub free-Freed :
      ((s : ℕ) → q.session ≡ some s → (ses : Session) × (w.sessions s ≡ some ses))
      → (q.pool ≡ true → (p : Pool) × (w.pool ≡ some p))
      → Holds
      → Leaves (request_free r w) (Freed w r q)
  free-Freed in_session in_pool hold = elim (Option-cases q.session) [
    | inl hs ↦ elim (Bool-cases q.pool) [
      | inl on ↦ let (p, hp) = in_pool on in free_pooled p hs on hp hold
      | inr off ↦ free_alone hs off hold
    ]
    | inr (s, hs) ↦
        let (ses, hses) = in_session s hs in
        elim (Bool-cases q.pool) [
          | inl on ↦ let (p, hp) = in_pool on in free_both s ses p hs hses on hp hold
          | inr off ↦ free_session s ses hs hses off hold
        ]
  ]

module _ (w v : Memory) (r : ℕ) (q : Request) (inv : QueueInv w) (hq : w.requests r ≡ some q)
    (freed : Freed w r q v) where
  cleared-holds : (e : ℕ) → holds_event e v.queue ≡ holds_event e w.queue
  cleared-holds e = elim (Option-cases q.callback_event) [
    | inl c ↦ ground (arith, freed.1)
    | inr (a, c) ↦ ground (arith, freed.1, holds_event-clear_event e a w.queue)
  ]

  frame : (x : ℕ) → (x == r) ≡ false → v.requests x ≡ w.requests x
  frame x ne = ground (arith, freed.0 x)

  Freed-targets : All (Target v.requests) v.queue
  Freed-targets = elim (Option-cases q.callback_event) [
    | inl c ↦
        let same : v.queue ≡ w.queue = ground (arith, freed.1) in
        rw same (targets-frame w.requests v.requests r q hq frame w.queue c inv.targets)
    | inr (e, c) ↦
        let same : v.queue ≡ clear_event e w.queue = ground (arith, freed.1) in
        rw same (clear_event-targets w.requests v.requests r q hq frame e w.queue c inv.targets)
  ]

  Freed-Unique : Unique v.queue
  Freed-Unique = elim (Option-cases q.callback_event) [
    | inl c ↦ let same : v.queue ≡ w.queue = ground (arith, freed.1) in rw same inv.unique
    | inr (e, c) ↦
        let same : v.queue ≡ clear_event e w.queue = ground (arith, freed.1) in
        rw same (clear_event-Unique e w.queue inv.unique)
  ]

  Freed-queued :
      (x : ℕ) (y : Request) (e : ℕ)
      → v.requests x ≡ some y
      → y.callback_event ≡ some e
      → refers e x v.queue ≡ true
  Freed-queued x y e ey cy =
      let apart : (x == r) ≡ false = ground (arith, freed.0 x) in
      let old = inv.queued x y e (ground (arith, freed.0 x)) cy in
      elim (Option-cases q.callback_event) [
        | inl c ↦ ground (arith, freed.1)
        | inr (a, c) ↦
            let other : (e == a) ≡ false =
              ground (arith, refers-single e r x w.queue, inv.queued r q a hq c) in
            ground (arith, freed.1, refers-clear_event e x a w.queue other)
      ]

  pub Freed-QueueInv : QueueInv v
  Freed-QueueInv = record {
    targets = Freed-targets;
    queued = Freed-queued;
    unique = Freed-Unique;
    new = λ e le. cleared-holds e ∙ inv.new e (ground (arith, freed.2));
  }

-- While the events and the requests refer to each other as they should (QueueInv), a live
-- request that is quiet, and whose session and pool, if it has them, are live, is freed without
-- a fault; no event refers to it any more, and none to any other memory that is not live.
pub request_free-QueueInv :
    (w : Memory) (r : ℕ) (q : Request)
    → QueueInv w
    → w.requests r ≡ some q
    → ((s : ℕ) → q.session ≡ some s → (ses : Session) × (w.sessions s ≡ some ses))
    → (q.pool ≡ true → (p : Pool) × (w.pool ≡ some p))
    → IsQuiet w q
    → Leaves (request_free r w) (λ v. (v.requests r ≡ none) × QueueInv v)
request_free-QueueInv w r q inv hq in_session in_pool quiet =
    Leaves-weaken (request_free r w)
      (free-Freed w r q hq quiet in_session in_pool
        (λ e c. refers-holds_event e r w.queue (inv.queued r q e hq c)))
      λ v freed. (ground (arith, freed.0 r, ==_self r), Freed-QueueInv w v r q inv hq freed)
