-- ===== src/Destroy/Schedule.antt =====
-- `treq_RequestScheduleCallback` and the queue.
use trequests.Base.{
  ==_self, ℕ, suc, true, false, List, [], ◌∷◌, ◌++◌, Option, none, some, if◌then◌else◌, ◌==◌, ◌≡◌,
  refl, arith, All, Bool-cases, inl, inr, Bytes,
}
use trequests.Destroy.Queue.{QueueInv, refers, refers-holds_event, Target, Unique}
use trequests.Destroy.{holds_event}
use trequests.Request.Callback.{schedule_callback}
use trequests.Request.Memory.{
  Request, Event, request_event, deactivate_event, Memory, Leaves, Leaves-weaken,
}

-- The event at the tail of a queue.
holds_event-append :
    (a e r : ℕ) (es : List Event)
    → holds_event a (es ++ request_event e (some r) ∷ [])
      ≡ (if holds_event a es then true else e == a)
unfolding holds_event
holds_event-append a e r [] = ground arith
holds_event-append a e r (deactivate_event ∷ es) = holds_event-append a e r es
holds_event-append a e r (request_event b t ∷ es) = ground (arith, holds_event-append a e r es)

refers-append :
    (a x e r : ℕ) (es : List Event)
    → refers a x (es ++ request_event e (some r) ∷ [])
      ≡ (if holds_event a es then refers a x es else if e == a then r == x else false)
unfolding refers holds_event
refers-append a x e r [] = ground arith
refers-append a x e r (deactivate_event ∷ es) = refers-append a x e r es
refers-append a x e r (request_event b none ∷ es) = ground (arith, refers-append a x e r es)
refers-append a x e r (request_event b (some t) ∷ es) = ground (arith, refers-append a x e r es)

append-Unique :
    (e r : ℕ) (es : List Event)
    → holds_event e es ≡ false
    → Unique es
    → Unique (es ++ request_event e (some r) ∷ [])
unfolding holds_event
append-Unique e r [] h u = (refl, tt)
append-Unique e r (deactivate_event ∷ es) h u = append-Unique e r es h u
append-Unique e r (request_event b t ∷ es) h u =
    (ground (arith, holds_event-append b e r es), append-Unique e r es (ground arith) u.1)

module _ (f g : ℕ → Option Request) (r : ℕ) (q q' : Request) (e : ℕ) (hq : f r ≡ some q)
    (idle : q.callback_event ≡ none) (c : q'.callback_event ≡ some e)
    (frame : (x : ℕ) → g x ≡ (if x == r then some q' else f x)) where
  append-targets :
      (es : List Event) → All (Target f) es → All (Target g) (es ++ request_event e (some r) ∷ [])
  append-targets [] t = ((q', ground (arith, frame r, ==_self r), c), tt)
  append-targets (deactivate_event ∷ es) t = (tt, append-targets es t.1)
  append-targets (request_event b none ∷ es) t = (tt, append-targets es t.1)
  append-targets (request_event b (some x) ∷ es) ((y, ey, cy), t) =
      let apart : (x == r) ≡ false = ground arith in
      ((y, ground (arith, frame x), cy), append-targets es t)

module _ (w : Memory) (r : ℕ) (q : Request) (callback : Bytes) (inv : QueueInv w)
    (hq : w.requests r ≡ some q) (has : q.callback ≡ some callback) (idle : q.callback_event ≡ none)
    (alive : w.interp_deleted ≡ false) where
  abbrev pub Queued : Memory → Type 0
  Queued v =
      ((x : ℕ)
        → v.requests x
          ≡ (if x == r then some (record q { callback_event = some w.fresh }) else w.requests x))
      × (v.queue ≡ w.queue ++ request_event w.fresh (some r) ∷ [])
      × (v.fresh ≡ suc w.fresh)
      × (v.pool ≡ w.pool)
      × (v.sessions ≡ w.sessions)

  pub schedule-Queued : Leaves (schedule_callback r w) Queued
  unfolding schedule_callback
  schedule-Queued = ground (arith, ==_self r)

  unheld : holds_event w.fresh w.queue ≡ false
  unheld = inv.new w.fresh (omega arith)

  Queued-refers :
      (v : Memory) (x : ℕ) (y : Request) (a : ℕ)
      → Queued v
      → v.requests x ≡ some y
      → y.callback_event ≡ some a
      → refers a x v.queue ≡ true
  Queued-refers v x y a s ey ay = elim (Bool-cases (x == r)) [
    | inl same ↦ ground (arith, s.0 x, s.1, refers-append a x w.fresh r w.queue, unheld)
    | inr other ↦
        let old = inv.queued x y a (ground (arith, s.0 x)) ay in
        let held = refers-holds_event a x w.queue old in
        ground (arith, s.1, refers-append a x w.fresh r w.queue)
  ]

  pub Queued-QueueInv : (v : Memory) → Queued v → QueueInv v
  Queued-QueueInv v s = record {
    targets =
        rw s.1
          (append-targets w.requests v.requests r q _ w.fresh hq idle refl s.0 w.queue inv.targets);
    queued = λ x y a ey ay. Queued-refers v x y a s ey ay;
    unique = rw s.1 (append-Unique w.fresh r w.queue unheld inv.unique);
    new = λ a le.
        ground (
          arith,
          s.1,
          s.2,
          holds_event-append a w.fresh r w.queue,
          inv.new a (ground (arith, s.2)),
        );
  }

-- While QueueInv holds, a live request with a callback, for which no event is in the queue, gets
-- one at the tail of the queue in a live interpreter, and QueueInv still holds.
pub schedule_callback-QueueInv :
    (w : Memory) (r : ℕ) (q : Request) (callback : Bytes)
    → QueueInv w
    → w.requests r ≡ some q
    → q.callback ≡ some callback
    → q.callback_event ≡ none
    → w.interp_deleted ≡ false
    → Leaves
        (schedule_callback r w)
        (λ v. QueueInv v × (v.queue ≡ w.queue ++ request_event w.fresh (some r) ∷ []))
schedule_callback-QueueInv w r q callback inv hq has idle alive =
    Leaves-weaken (schedule_callback r w) (schedule-Queued w r q callback inv hq has idle alive)
      λ v s. (Queued-QueueInv w r q callback inv hq has idle alive v s, s.1)
