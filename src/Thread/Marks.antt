-- ===== src/Thread/Marks.antt =====
-- The marks of the pool, and the event that deactivates it.
use trequests.Base.{[], Bool, false, List, ◌∷◌, some, ◌≡◌, refl, arith, ap}
use trequests.Destroy.Queue.{refers}
use trequests.Destroy.Serve.{served}
use trequests.Destroy.{holds_event}
use trequests.Pool.{deactivate}
use trequests.Request.Memory.{Pool, Event, deactivate_event, Memory, Leaves}
use trequests.Pool.Active.{deactivates}
use trequests.Session.Owned.{SessionInv-frame}
use trequests.Pool.Frame.{PoolInv-frame}
use trequests.Thread.{ThreadInv}

-- A pool of which only the marks change.
abbrev pub marked : Memory → Pool → Bool → Bool → Memory
marked w p active refresh = record w {
  pool = some (record p { is_active = active; need_refresh = refresh });
}

pub marked-ThreadInv :
    (w : Memory) (p : Pool) (active refresh : Bool)
    → ThreadInv w
    → w.pool ≡ some p
    → (active ≡ false → p.requests ≡ [])
    → ThreadInv (marked w p active refresh)
marked-ThreadInv w p active refresh inv hp empty = record {
  books = record {
    member = λ r q e t. let (p', e', c) = inv.books.member r q e t in (_, refl, ground arith);
    listed = λ p' r e c. inv.books.listed p r hp (ground arith);
    counted = λ p' e. ground (arith, inv.books.counted p hp);
    distinct = λ p' e. ground (arith, inv.books.distinct p hp);
    alive = λ p' e. ground (arith, inv.books.alive p hp);
  };
  queue = record {
    targets = inv.queue.targets;
    queued = inv.queue.queued;
    unique = inv.queue.unique;
    new = inv.queue.new;
  };
  tidy = record { idle = inv.tidy.idle; unused = inv.tidy.unused };
  sessions =
      SessionInv-frame w (marked w p active refresh) (λ x. refl) (λ x. refl) (omega arith)
        inv.sessions;
  active = record {
    ending = λ d.
        let (p', e, none_left) = inv.active.ending d in
        (record p { is_active = active; need_refresh = refresh }, refl, ground arith);
    active = λ p' e off. ground (arith, empty);
  };
}

-- The queue with a deactivation put in front, or taken from there.
pub queued-ThreadInv :
    (w : Memory) (p : Pool)
    → ThreadInv w
    → w.pool ≡ some p
    → p.requests ≡ []
    → ThreadInv (record w { queue = deactivate_event ∷ w.queue })
unfolding refers holds_event
queued-ThreadInv w p inv hp none_left = record {
  books =
      PoolInv-frame w (record w { queue = deactivate_event ∷ w.queue }) refl (λ x. refl) inv.books;
  queue = record {
    targets = (tt, inv.queue.targets);
    queued = inv.queue.queued;
    unique = inv.queue.unique;
    new = inv.queue.new;
  };
  tidy = record { idle = inv.tidy.idle; unused = inv.tidy.unused };
  sessions =
      SessionInv-frame w (record w { queue = deactivate_event ∷ w.queue }) (λ x. refl) (λ x. refl)
        (omega arith) inv.sessions;
  active = record { ending = λ d. (p, hp, none_left); active = inv.active.active };
}

dropped-ThreadInv :
    (w : Memory) (es : List Event)
    → ThreadInv w
    → w.queue ≡ deactivate_event ∷ es
    → ThreadInv (record w { queue = es })
unfolding refers holds_event
dropped-ThreadInv w es inv head = record {
  books = PoolInv-frame w (record w { queue = es }) refl (λ x. refl) inv.books;
  queue = record {
    targets = (rw head at inv.queue.targets).1;
    queued = λ r q e hq c. ground (arith, inv.queue.queued r q e hq c);
    unique = rw head at inv.queue.unique;
    new = λ e le. ground (arith, inv.queue.new e le);
  };
  tidy = record { idle = inv.tidy.idle; unused = inv.tidy.unused };
  sessions =
      SessionInv-frame w (record w { queue = es }) (λ x. refl) (λ x. refl) (omega arith)
        inv.sessions;
  active = record {
    ending = λ d. inv.active.ending (ap deactivates head);
    active = inv.active.active;
  };
}

deactivate-eq :
    (w : Memory) (p : Pool)
    → w.pool ≡ some p
    → deactivate w ≡ some (tt, marked w p false p.need_refresh)
unfolding deactivate
deactivate-eq w p hp = ground arith

-- Serving the event that deactivates the pool.
pub deactivate-ThreadInv :
    (w : Memory) (es : List Event)
    → ThreadInv w
    → w.queue ≡ deactivate_event ∷ es
    → Leaves (deactivate w) (λ v. ThreadInv (served v es))
deactivate-ThreadInv w es inv head =
    let (p, hp, none_left) = inv.active.ending (ap deactivates head) in
    rw (deactivate-eq w p hp) (
      marked-ThreadInv (record w { queue = es }) p false p.need_refresh
        (dropped-ThreadInv w es inv head) hp (λ off. none_left))
