-- ===== src/Pool/Complete.antt =====
-- Completed transfers: the loop of `treq_PoolEventCheck` over libcurl's messages.
use mathlib.Core.List.{append-nil}
use trequests.Base.{
  suc, not, ◌&&◌, ==_self, ℕ, true, false, List, [], ◌∷◌, ◌++◌, Option, some, ◌≡◌, refl, arith,
  if◌then◌else◌, ◌==◌, is_some, ◌∙◌, All,
}
use trequests.Pool.Remove.{PoolInv, Left, Left-PoolInv}
use trequests.Pool.{Message, handle_message, handle_messages}
use trequests.Request.Memory.{
  Request, done, error, Pool, Event, request_event, Memory, Leaves, Leaves-weaken, Leaves-bind,
}

-- What becomes of the request of a message.
abbrev pub completed : Memory → Message → Request → Request
completed w m q = record q {
  state = if m.is_ok then done else error;
  pool = false;
  callback_event =
      if is_some q.callback
      then if w.interp_deleted then q.callback_event else some w.fresh
      else q.callback_event;
}

-- The event of its callback, if it has one.
abbrev pub callback_events : Memory → Message → Request → List Event
callback_events w m q =
    if is_some q.callback
    then if w.interp_deleted then [] else request_event w.fresh (some m.request) ∷ []
    else []

pub handle_message-Left :
    (w : Memory) (m : Message) (q : Request) (p : Pool)
    → m.is_done ≡ true
    → w.requests m.request ≡ some q
    → q.pool ≡ true
    → w.pool ≡ some p
    → p.is_dead ≡ false
    → Leaves (handle_message m w) (λ v.
      Left w m.request (completed w m q) p v
      × (v.queue ≡ w.queue ++ callback_events w m q)
      × (v.interp_deleted ≡ w.interp_deleted)
      × (v.fresh ≡ (if is_some q.callback && not w.interp_deleted then suc w.fresh else w.fresh))
      × (v.sessions ≡ w.sessions))
unfolding handle_message
handle_message-Left w m q p hm hq hpool hp hd =
    ground (arith, ==_self m.request, append-nil w.queue)

-- libcurl reports transfers that it was given, each once.
abbrev pub Reports : (ℕ → Option Request) → List Message → Type 0
Reports requests [] = Unit {0}
Reports requests (m ∷ ms) =
    (m.is_done ≡ true)
    × ((q : Request) × (requests m.request ≡ some q) × (q.pool ≡ true))
    × All (λ n. (n.request == m.request) ≡ false) ms
    × Reports requests ms

-- The request of the message is live, has the state that the message says, and has left the pool.
abbrev pub IsSettled : Memory → Message → Type 0
IsSettled v m =
    (q : Request) × (v.requests m.request ≡ some q)
    × (q.state ≡ (if m.is_ok then done else error))
    × (q.pool ≡ false)

-- Requests of other messages are as they were.
abbrev Same : (ℕ → Option Request) → (ℕ → Option Request) → List Message → Type 0
Same f g = All (λ n. f n.request ≡ g n.request)

Reports-Same :
    (f g : ℕ → Option Request) (ms : List Message) → Same f g ms → Reports f ms → Reports g ms
Reports-Same f g [] s h = tt
Reports-Same f g (m ∷ ms) s h =
    let (done_m, (q, e, t), apart, rest) = h in
    (done_m, (q, ground arith, t), apart, Reports-Same f g ms s.1 rest)

Left-Same :
    (w v : Memory) (r : ℕ) (q' : Request) (p : Pool) (ms : List Message)
    → Left w r q' p v
    → All (λ n. (n.request == r) ≡ false) ms
    → Same w.requests v.requests ms
Left-Same w v r q' p [] left h = tt
Left-Same w v r q' p (n ∷ ms) left h =
    (ground (arith, left.1 n.request), Left-Same w v r q' p ms left h.1)

-- What the loop leaves behind.
abbrev pub Settles : Memory → List Message → Memory → Type 0
Settles w ms v =
    PoolInv v
    × All (IsSettled v) ms
    × ((x : ℕ) → All (λ n. (n.request == x) ≡ false) ms → v.requests x ≡ w.requests x)

pub handle_message-Settles :
    (w : Memory) (m : Message) (ms : List Message)
    → PoolInv w
    → Reports w.requests (m ∷ ms)
    → Leaves (handle_message m w) (λ v.
      PoolInv v
      × IsSettled v m
      × ((x : ℕ) → (m.request == x) ≡ false → v.requests x ≡ w.requests x)
      × Reports v.requests ms)
handle_message-Settles w m ms inv (is_done, (q, hq, hpool), apart, rest) =
    let (p, hp, _) = inv.member m.request q hq hpool in
    Leaves-weaken (handle_message m w)
      (handle_message-Left w m q p is_done hq hpool hp (inv.alive p hp))
      λ v (left, _, _, _, _). (
        Left-PoolInv w v m.request q p inv hq hpool hp (completed w m q) refl left,
        (completed w m q, ground (arith, left.1 m.request, ==_self m.request), refl, refl),
        λ x ne. ground (arith, left.1 x),
        Reports-Same w.requests v.requests ms
            (Left-Same w v m.request (completed w m q) p ms left apart) rest,
      )

-- While the books of the pool are right (PoolInv), messages that each report the end of a
-- different request of the pool are handled without a fault: each such request is done or failed
-- as libcurl says and has left the pool, no other request changes, and the books are right
-- again.
pub handle_messages-Settles :
    (ms : List Message) (w : Memory)
    → PoolInv w
    → Reports w.requests ms
    → Leaves (handle_messages ms w) (Settles w ms)
unfolding handle_messages
handle_messages-Settles [] w inv h = (inv, tt, λ x _. refl)
handle_messages-Settles (m ∷ ms) w inv h =
    Leaves-bind (handle_message m) (λ _. handle_messages ms) w (Settles w (m ∷ ms))
      (handle_message-Settles w m ms inv h)
      λ _ v (inv', (q, e, s, t), frame, later).
        Leaves-weaken (handle_messages ms v) (handle_messages-Settles ms v inv' later)
          λ u (inv'', settled, frame'). (
            inv'',
            ((q, frame' m.request h.2 ∙ e, s, t), settled),
            λ x (ne, others). frame' x others ∙ frame x ne,
          )
