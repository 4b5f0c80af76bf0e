-- ===== src/Thread.antt =====
-- A thread as a whole: its requests, the pool and the event queue together.
pub mod Messages
pub mod Runs
pub mod Starts
pub mod Callbacks
pub mod Marks
pub mod Checks
pub mod Sessions
pub mod Exit
use trequests.Base.{
  ap, ℕ, Bool, true, false, Option, none, some, if◌then◌else◌, ◌==◌, ◌≡◌, refl, arith, ◌≤◌, is_some,
  Bool-cases, inl, inr, ◌∙◌, sym,
}
use trequests.Destroy.Queue.{QueueInv}
use trequests.Pool.Remove.{PoolInv}
use trequests.Destroy.Frame.{QueueInv-frame}
use trequests.Pool.Frame.{PoolInv-frame}
use trequests.Pool.Active.{ActiveInv, ActiveInv-frame, deactivates}
use trequests.Session.Owned.{SessionInv}
use trequests.Request.Memory.{Request, Memory}

-- A request of the pool has no callback event yet, and no request is live at an address that is still
-- to be given out.
pub record IsTidy (w : Memory) : Type 0 where
  pub idle : (r : ℕ) (q : Request) → w.requests r ≡ some q → q.pool ≡ true → q.callback_event ≡ none
  pub unused : (r : ℕ) → w.fresh ≤ r → w.requests r ≡ none

-- What holds of a thread between two events.
pub record ThreadInv (w : Memory) : Type 0 where
  pub books : PoolInv w
  pub queue : QueueInv w
  pub tidy : IsTidy w
  pub sessions : SessionInv w
  pub active : ActiveInv w

-- The order of a thread but for its sessions.
abbrev pub CoreInv : Memory → Type 0
CoreInv w = PoolInv w × QueueInv w × IsTidy w × ActiveInv w

abbrev pub core : {w : Memory} → ThreadInv w → CoreInv w
core inv = (inv.books, inv.queue, inv.tidy, inv.active)

-- What a live request may become, `none` if it is freed: it has no event in the pool.
abbrev pub MayBecome : Option Request → Type 0
MayBecome o = (y : Request) → o ≡ some y → y.pool ≡ true → y.callback_event ≡ none

-- One live request changes.
pub IsTidy-change :
    (w v : Memory) (r : ℕ) (q : Request) (o : Option Request)
    → IsTidy w
    → w.requests r ≡ some q
    → MayBecome o
    → ((x : ℕ) → v.requests x ≡ (if x == r then o else w.requests x))
    → w.fresh ≤ v.fresh
    → IsTidy v
IsTidy-change w v r q o inv hq may frame later = record {
  idle = λ x y e t. elim (Bool-cases (x == r)) [
    | inl same ↦ may y (ground (arith, frame x)) t
    | inr other ↦ inv.idle x y (ground (arith, frame x)) t
  ];
  unused = λ x le. elim (Bool-cases (x == r)) [
    | inl same ↦ absurd (ground (arith, inv.unused x))
    | inr other ↦ ground (arith, frame x, inv.unused x)
  ];
}

-- The requests, the pool and the queue stay as they were.
pub CoreInv-frame :
    (w v : Memory)
    → ((x : ℕ) → v.requests x ≡ w.requests x)
    → v.pool ≡ w.pool
    → v.queue ≡ w.queue
    → w.fresh ≤ v.fresh
    → CoreInv w
    → CoreInv v
CoreInv-frame w v same pool queue later (books, q, tidy, active) = (
  PoolInv-frame w v pool (λ x. ground (arith, same x)) books,
  QueueInv-frame w v queue later (λ x. ground (arith, same x)) q,
  record {
    idle = λ r y e t. tidy.idle r y (sym (same r) ∙ e) t;
    unused = λ r le. same r ∙ tidy.unused r (omega arith);
  },
  ActiveInv-frame w v pool (ap deactivates queue) active,
)

-- The order of a thread, from its parts.
abbrev pub in_order : {w : Memory} → CoreInv w → SessionInv w → ThreadInv w
in_order (books, queue, tidy, active) sessions = record {
  books = books;
  queue = queue;
  tidy = tidy;
  sessions = sessions;
  active = active;
}
