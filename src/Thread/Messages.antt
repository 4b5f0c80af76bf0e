-- ===== src/Thread/Messages.antt =====
-- Transfers that end.
use mathlib.Core.List.{append-nil}
use trequests.Base.{
  suc, true, false, not, ◌&&◌, List, [], ◌∷◌, ◌++◌, none, some, if◌then◌else◌, ==_self, ◌≡◌, refl,
  arith, is_some, Bool-cases, Option-cases, inl, inr, ap,
}
use trequests.Destroy.Frame.{QueueInv-frame}
use trequests.Destroy.Queue.{QueueInv}
use trequests.Destroy.Schedule.{Queued-QueueInv}
use trequests.Pool.Complete.{
  completed, callback_events, handle_message-Left, Reports, handle_message-Settles,
}
use trequests.Pool.Remove.{Left, Left-PoolInv}
use trequests.Pool.{Message, handle_message, handle_messages}
use trequests.Request.Memory.{
  Request, done, error, Pool, Memory, Leaves, Leaves-weaken, Leaves-bind, Leaves-both, update,
}
use trequests.Pool.Active.{ActiveInv-shrink, remove_item-empty, deactivates, deactivates-append}
use trequests.Session.Owned.{SessionInv-frame}
use trequests.Thread.{ThreadInv, IsTidy-change, MayBecome}

module _ (w v : Memory) (m : Message) (q : Request) (p : Pool) (inv : ThreadInv w)
    (hq : w.requests m.request ≡ some q) (on : q.pool ≡ true) (hp : w.pool ≡ some p)
    (left : Left w m.request (completed w m q) p v)
    (appended : v.queue ≡ w.queue ++ callback_events w m q)
    (later : v.fresh
      ≡ (if is_some q.callback && not w.interp_deleted then suc w.fresh else w.fresh))
    (same : v.sessions ≡ w.sessions) where
  idle : q.callback_event ≡ none
  idle = inv.tidy.idle m.request q hq on

  -- The request before its callback is scheduled.
  abbrev settled : Request
  settled = record q { state = if m.is_ok then done else error; pool = false }

  abbrev before : Memory
  before = record w {
    requests = update w.requests m.request (some settled);
    pool = v.pool;
    sessions = v.sessions;
  }

  before-QueueInv : QueueInv before
  before-QueueInv = QueueInv-frame w before refl (omega arith) (λ x. ground arith) inv.queue

  Message-QueueInv : QueueInv v
  Message-QueueInv = elim (Option-cases q.callback) [
    | inl silent ↦
        QueueInv-frame w v (ground (arith, appended, append-nil w.queue)) (ground arith)
          (λ x. ground (arith, left.1 x)) inv.queue
    | inr (callback, has) ↦ elim (Bool-cases w.interp_deleted) [
      | inl deleted ↦
          QueueInv-frame w v (ground (arith, appended, append-nil w.queue)) (ground arith)
            (λ x. ground (arith, left.1 x)) inv.queue
      | inr alive ↦
          Queued-QueueInv before m.request settled callback before-QueueInv
            (ground (arith, ==_self m.request)) has idle alive v
            ((λ x. ground (arith, left.1 x)), ground (arith, appended), ground arith, refl, refl)
    ]
  ]

  callbacks_only : deactivates v.queue ≡ deactivates w.queue
  callbacks_only =
      ground
        (arith, appended, append-nil w.queue, deactivates-append w.queue w.fresh (some m.request))

  Message-ThreadInv : ThreadInv v
  Message-ThreadInv = record {
    books = Left-PoolInv w v m.request q p inv.books hq on hp (completed w m q) refl left;
    queue = Message-QueueInv;
    tidy =
        IsTidy-change w v m.request q (some (completed w m q)) inv.tidy hq may left.1
          (ground arith);
    sessions =
        SessionInv-frame w v (λ x. ap (λ f. f x) same) (λ x. ground (arith, left.1 x))
          (ground (arith, appended)) inv.sessions;
    active =
        ActiveInv-shrink w v p _ hp left.0 refl (remove_item-empty m.request p.requests)
          callbacks_only inv.active;
  }
    where
      may : MayBecome (some (completed w m q))
      may y e t = ground arith

handle_message-ThreadInv :
    (w : Memory) (m : Message) (ms : List Message)
    → ThreadInv w
    → Reports w.requests (m ∷ ms)
    → Leaves
        (handle_message m w)
        (λ v. (ThreadInv v × (is_some v.pool ≡ true)) × Reports v.requests ms)
handle_message-ThreadInv w m ms inv h =
    let (is_done, (q, hq, on), _, _) = h in
    let (p, hp, _) = inv.books.member m.request q hq on in
    Leaves-both (handle_message m w) (λ v. ThreadInv v × (is_some v.pool ≡ true))
      (λ v. Reports v.requests ms)
      (Leaves-weaken (handle_message m w)
        (handle_message-Left w m q p is_done hq on hp (inv.books.alive p hp))
        λ v (left, appended, _, later, same).
          (Message-ThreadInv w v m q p inv hq on hp left appended later same, ap is_some left.0))
      (Leaves-weaken (handle_message m w) (handle_message-Settles w m ms inv.books h)
        λ v (_, _, _, rest). rest)

pub handle_messages-ThreadInv :
    (ms : List Message) (w : Memory)
    → ThreadInv w
    → is_some w.pool ≡ true
    → Reports w.requests ms
    → Leaves (handle_messages ms w) (λ v. ThreadInv v × (is_some v.pool ≡ true))
unfolding handle_messages
handle_messages-ThreadInv [] w inv has h = (inv, has)
handle_messages-ThreadInv (m ∷ ms) w inv has h =
    Leaves-bind (handle_message m) (λ _. handle_messages ms) w
      (λ v. ThreadInv v × (is_some v.pool ≡ true)) (handle_message-ThreadInv w m ms inv h)
      λ _ v ((inv', has'), rest). handle_messages-ThreadInv ms v inv' has' rest
