-- ===== src/Destroy/Serve.antt =====
-- Queueing a callback, and serving its event.
use trequests.Base.{
  ==_self, ℕ, true, false, List, [], ◌∷◌, Option, none, some, if◌then◌else◌, ◌==◌, ◌≡◌, refl, arith,
  All,
}
use trequests.Destroy.Queue.{QueueInv, refers, Target, Unique}
use trequests.Destroy.{holds_event}
use trequests.Request.Callback.{request_event_proc}
use trequests.Request.Memory.{
  Request, Event, request_event, deactivate_event, Memory, Leaves, Leaves-weaken,
}

-- The event loop drops the event at the head of the queue, with which it is done.
abbrev pub served : Memory → List Event → Memory
served w es = record w { queue = es }

module _ (f g : ℕ → Option Request) (r : ℕ) (q q' : Request) (e : ℕ) (fr : f r ≡ some q)
    (c : q.callback_event ≡ some e)
    (frame : (x : ℕ) → g x ≡ (if x == r then some q' else f x)) where
  -- An event that is not `e` refers to another request than `r`.
  targets_other :
      (es : List Event) → holds_event e es ≡ false → All (Target f) es → All (Target g) es
  unfolding holds_event
  targets_other [] h t = tt
  targets_other (deactivate_event ∷ es) h t = (tt, targets_other es h t.1)
  targets_other (request_event b none ∷ es) h t = (tt, targets_other es (ground arith) t.1)
  targets_other (request_event b (some x) ∷ es) h ((y, ey, cy), t) =
      let apart : (x == r) ≡ false = ground arith in
      ((y, ground (arith, frame x), cy), targets_other es (ground arith) t)

module _ (w : Memory) (e r : ℕ) (es : List Event) (q : Request) (inv : QueueInv w)
    (head : w.queue ≡ request_event e (some r) ∷ es) (hq : w.requests r ≡ some q)
    (c : q.callback_event ≡ some e) where
  abbrev pub Ran : Memory → Type 0
  Ran v =
      ((x : ℕ)
        → v.requests x
          ≡ (if x == r then some (record q { callback_event = none }) else w.requests x))
      × (v.ran ≡ r ∷ w.ran)
      × (v.fresh ≡ w.fresh)
      × (v.pool ≡ w.pool)
      × (v.sessions ≡ w.sessions)

  pub proc-Ran : Leaves (request_event_proc true (some r) w) Ran
  unfolding request_event_proc
  proc-Ran = ground (arith, ==_self r)

  parts :
      All (Target w.requests) (request_event e (some r) ∷ es)
      × Unique (request_event e (some r) ∷ es)
  parts = (rw head at inv.targets, rw head at inv.unique)

  Ran-queued :
      (v : Memory) (x : ℕ) (y : Request) (a : ℕ)
      → Ran v
      → v.requests x ≡ some y
      → y.callback_event ≡ some a
      → refers a x es ≡ true
  unfolding refers
  Ran-queued v x y a ran ey ay =
      let apart : (x == r) ≡ false = ground (arith, ran.0 x) in
      let old : w.requests x ≡ some y = ground (arith, ran.0 x) in
      ground (arith, inv.queued x y a old ay, head)

  pub Ran-QueueInv : (v : Memory) → Ran v → QueueInv (served v es)
  unfolding holds_event
  Ran-QueueInv v ran = record {
    targets = targets_other w.requests v.requests r q _ e hq c ran.0 es parts.1.0 parts.0.1;
    queued = λ x y a ey ay. Ran-queued v x y a ran ey ay;
    unique = parts.1.1;
    new = λ a le. ground (arith, ran.2, head, inv.new a (ground (arith, ran.2)));
  }

-- While the events and the requests refer to each other as they should (QueueInv), serving the
-- callback event at the head of the queue touches no memory that is not live: the callback of
-- the request that it refers to runs once, or nothing runs if the request is gone; and QueueInv
-- holds of the queue that is left.
pub request_event_proc-QueueInv :
    (w : Memory) (e : ℕ) (target : Option ℕ) (es : List Event)
    → QueueInv w
    → w.queue ≡ request_event e target ∷ es
    → Leaves
        (request_event_proc true target w)
        (λ v. QueueInv (served v es) × (v.ran ≡ elim target [ none ↦ w.ran | some r ↦ r ∷ w.ran ]))
request_event_proc-QueueInv w e none es inv head =
    unfold request_event_proc holds_event in
    (
      record {
        targets = (rw head at inv.targets).1;
        queued = λ x y a ey ay. unfold refers in ground (arith, inv.queued x y a ey ay);
        unique = (rw head at inv.unique).1;
        new = λ a le. ground (arith, inv.new a le);
      },
      refl,
    )
request_event_proc-QueueInv w e (some r) es inv head =
    let (q, hq, c) = (rw head at inv.targets).0 in
    Leaves-weaken (request_event_proc true (some r) w) (proc-Ran w e r es q inv head hq c)
      λ v ran. (Ran-QueueInv w e r es q inv head hq c v ran, ran.1)
