-- ===== src/Thread/Callbacks.antt =====
-- Serving the events of callbacks, and freeing requests.
use trequests.Base.{
  ℕ, true, false, List, ◌∷◌, Option, none, some, ==_self, ◌≡◌, refl, arith, sym, decrement,
  Option-cases, ◌∙◌, Bool-cases, inl, inr, ap,
}
use trequests.Destroy.Queue.{refers, refers-holds_event}
use trequests.Destroy.Safe.{IsQuiet, Freed, free-Freed, Freed-QueueInv}
use trequests.Destroy.Serve.{served, Ran, Ran-QueueInv, proc-Ran}
use trequests.Destroy.{clear_event, request_free, holds_event}
use trequests.Pool.Frame.{PoolInv-frame}
use trequests.Pool.Remove.{PoolInv, Left-PoolInv}
use trequests.Request.Callback.{request_event_proc}
use trequests.Request.Memory.{
  remove_item, Request, Session, Event, request_event, Memory, Leaves, Leaves-weaken, update,
}
use trequests.Pool.Active.{
  ActiveInv, ActiveInv-frame, ActiveInv-shrink, remove_item-empty, deactivates,
  deactivates-clear_event,
}
use trequests.Session.Owned.{SessionInv, SessionInv-frame, SessionInv-without}
use trequests.Thread.{in_order, CoreInv, core, ThreadInv, IsTidy, IsTidy-change, MayBecome}

module _ (w : Memory) (e r : ℕ) (es : List Event) (q : Request) (inv : ThreadInv w)
    (head : w.queue ≡ request_event e (some r) ∷ es) (hq : w.requests r ≡ some q)
    (c : q.callback_event ≡ some e) where
  Ran-PoolInv : (v : Memory) → Ran w e r es q inv.queue head hq c v → PoolInv (served v es)
  Ran-PoolInv v ran = PoolInv-frame w (served v es) ran.3 (λ x. ground (arith, ran.0 x)) inv.books

  Ran-IsTidy : (v : Memory) → Ran w e r es q inv.queue head hq c v → IsTidy (served v es)
  Ran-IsTidy v ran =
      IsTidy-change w (served v es) r q (some (record q { callback_event = none })) inv.tidy hq may
        ran.0 (ground (arith, ran.2))
    where
      may : MayBecome (some (record q { callback_event = none }))
      may y e t = ground arith

  Ran-SessionInv : (v : Memory) → Ran w e r es q inv.queue head hq c v → SessionInv (served v es)
  Ran-SessionInv v ran =
      SessionInv-frame w (served v es) (λ x. ap (λ f. f x) ran.4) (λ x. ground (arith, ran.0 x))
        (ground (arith, ran.2)) inv.sessions

-- Serving the callback event at the head of the queue.
pub request_event_proc-ThreadInv :
    (w : Memory) (e : ℕ) (target : Option ℕ) (es : List Event)
    → ThreadInv w
    → w.queue ≡ request_event e target ∷ es
    → Leaves (request_event_proc true target w) (λ v. ThreadInv (served v es))
request_event_proc-ThreadInv w e none es inv head =
    unfold request_event_proc refers holds_event in
    record {
      books = PoolInv-frame w (served w es) refl (λ x. refl) inv.books;
      queue = record {
        targets = (rw head at inv.queue.targets).1;
        queued = λ r q a hq c. ground (arith, inv.queue.queued r q a hq c);
        unique = (rw head at inv.queue.unique).1;
        new = λ a le. ground (arith, inv.queue.new a le);
      };
      tidy = record { idle = inv.tidy.idle; unused = inv.tidy.unused };
      sessions =
          SessionInv-frame w (served w es) (λ x. refl) (λ x. refl) (omega arith) inv.sessions;
      active = ActiveInv-frame w (served w es) refl (sym (ap deactivates head)) inv.active;
    }
request_event_proc-ThreadInv w e (some r) es inv head =
    let (q, hq, c) = (rw head at inv.queue.targets).0 in
    Leaves-weaken (request_event_proc true (some r) w) (proc-Ran w e r es q inv.queue head hq c)
      λ v ran. record {
        books = Ran-PoolInv w e r es q inv head hq c v ran;
        queue = Ran-QueueInv w e r es q inv.queue head hq c v ran;
        tidy = Ran-IsTidy w e r es q inv head hq c v ran;
        sessions = Ran-SessionInv w e r es q inv head hq c v ran;
        active = ActiveInv-frame w (served v es) ran.3 (sym (ap deactivates head)) inv.active;
      }

module _ (w v : Memory) (r : ℕ) (q : Request) (inv : CoreInv w) (hq : w.requests r ≡ some q)
    (freed : Freed w r q v) where
  -- The request as it is just before it is released.
  abbrev unlisted : Memory
  unlisted = record v { requests = update v.requests r (some (record q { pool = false })) }

  Freed-PoolInv : PoolInv v
  Freed-PoolInv = elim (Bool-cases q.pool) [
    | inl on ↦
        let (p, hp, _) = inv.0.member r q hq on in
        let alive = inv.0.alive p hp in
        PoolInv-frame unlisted v refl (λ x. ground (arith, freed.0 x, ==_self r))
          (Left-PoolInv w unlisted r q p inv.0 hq on hp (record q { pool = false }) refl
            (ground (arith, freed.3), λ x. ground (arith, freed.0 x)))
    | inr off ↦ PoolInv-frame w v (ground (arith, freed.3)) (λ x. ground (arith, freed.0 x)) inv.0
  ]

  Freed-IsTidy : IsTidy v
  Freed-IsTidy = IsTidy-change w v r q none inv.2 hq may freed.0 (ground (arith, freed.2))
    where
      may : MayBecome none
      may y e t = absurd (ground arith)

  same_events : deactivates v.queue ≡ deactivates w.queue
  same_events = elim (Option-cases q.callback_event) [
    | inl c ↦ let same : v.queue ≡ w.queue = ground (arith, freed.1) in ap deactivates same
    | inr (e, c) ↦
        let cleared : v.queue ≡ clear_event e w.queue = ground (arith, freed.1) in
        ap deactivates cleared ∙ deactivates-clear_event e w.queue
  ]

  Freed-ActiveInv : ActiveInv v
  Freed-ActiveInv = elim (Bool-cases q.pool) [
    | inl on ↦
        let (p, hp, _) = inv.0.member r q hq on in
        let alive = inv.0.alive p hp in
        let p' = record p {
          requests = remove_item r p.requests;
          active_connection_count = decrement p.active_connection_count;
        } in
        ActiveInv-shrink w v p p' hp (ground (arith, freed.3)) refl (remove_item-empty r p.requests)
          same_events inv.3
    | inr off ↦ ActiveInv-frame w v (ground (arith, freed.3)) same_events inv.3
  ]

  pub Freed-CoreInv : CoreInv v
  Freed-CoreInv =
      (Freed-PoolInv, Freed-QueueInv w v r q inv.1 hq freed, Freed-IsTidy, Freed-ActiveInv)

pub Freed-ThreadInv :
    (w v : Memory) (r : ℕ) (q : Request)
    → ThreadInv w
    → w.requests r ≡ some q
    → Freed w r q v
    → ThreadInv v × (v.requests r ≡ none)
Freed-ThreadInv w v r q inv hq freed = (
  in_order (Freed-CoreInv w v r q (core inv) hq freed)
      (SessionInv-without w v r q hq freed.0 freed.5 freed.2 inv.sessions),
  ground (arith, freed.0 r, ==_self r),
)

-- What freeing a quiet request changes.
pub request_free-Freed :
    (w : Memory) (r : ℕ) (q : Request)
    → CoreInv w
    → ((s : ℕ) → q.session ≡ some s → (ses : Session) × (w.sessions s ≡ some ses))
    → w.requests r ≡ some q
    → IsQuiet w q
    → Leaves (request_free r w) (Freed w r q)
request_free-Freed w r q inv live hq quiet =
    free-Freed w r q hq quiet live (λ on. let (p, hp, _) = inv.0.member r q hq on in (p, hp))
      (λ e c. refers-holds_event e r w.queue (inv.1.queued r q e hq c))

-- The session of a request is live.
pub live_session :
    (w : Memory) (r : ℕ) (q : Request)
    → ThreadInv w
    → w.requests r ≡ some q
    → (s : ℕ) → q.session ≡ some s
    → (ses : Session) × (w.sessions s ≡ some ses)
live_session w r q inv hq s own =
    let (ses, hs, _) = inv.sessions.listed r s (ground arith) in (ses, hs)

-- Freeing a quiet request.
pub request_free-ThreadInv :
    (w : Memory) (r : ℕ) (q : Request)
    → ThreadInv w
    → w.requests r ≡ some q
    → IsQuiet w q
    → Leaves (request_free r w) (λ v. ThreadInv v × (v.requests r ≡ none))
request_free-ThreadInv w r q inv hq quiet =
    Leaves-weaken (request_free r w)
      (request_free-Freed w r q (core inv) (live_session w r q inv hq) hq quiet)
      (λ v freed. Freed-ThreadInv w v r q inv hq freed)
