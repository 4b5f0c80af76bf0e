-- ===== src/Pool/Remove.antt =====
-- A request leaves the pool.
use trequests.Base.{
  ==_self, ℕ, pos, decrement, true, false, some, ◌≡◌, arith, if◌then◌else◌, ◌==◌, length, is_some,
  inl, inr, Bool-cases,
}
use trequests.Pool.Members.{
  contains, Distinct, length-remove_item, contains-remove_item, remove_item-Distinct,
}
use trequests.Pool.{remove_request, removed_message, is_inprogress}
use trequests.Request.Memory.{
  Request, inprogress, error, Pool, Memory, Leaves, Leaves-weaken, remove_item,
}

-- What becomes of a request that leaves the pool: if it runs, it fails, and its callback is queued.
abbrev aborted : Memory → Request → Request
aborted w q = if w.interp_deleted then record q { pool = false } else record q {
  pool = false;
  state = error;
  error = some removed_message;
  callback_event = if is_some q.callback then some w.fresh else q.callback_event;
}

abbrev pub removed : Memory → Request → Request
removed w q = if is_inprogress q.state then aborted w q else record q { pool = false }

-- The books of the pool: its list holds, once each, exactly the live requests that refer to it,
-- they are running, and their number is counted.
pub record PoolInv (w : Memory) : Type 0 where
  pub member :
      (r : ℕ) (q : Request)
      → w.requests r ≡ some q
      → q.pool ≡ true
      → (p : Pool) × (w.pool ≡ some p) × (contains r p.requests ≡ true)
  pub listed :
      (p : Pool) (r : ℕ)
      → w.pool ≡ some p
      → contains r p.requests ≡ true
      → (q : Request) × (w.requests r ≡ some q) × (q.pool ≡ true) × (q.state ≡ inprogress)
  pub counted : (p : Pool) → w.pool ≡ some p → p.active_connection_count ≡ pos (length p.requests)
  pub distinct : (p : Pool) → w.pool ≡ some p → Distinct p.requests
  pub alive : (p : Pool) → w.pool ≡ some p → p.is_dead ≡ false

-- The memory after a request has left the pool and has become `q'`.
abbrev pub Left : Memory → ℕ → Request → Pool → Memory → Type 0
Left w r q' p v =
    (v.pool
      ≡ some (record p {
        requests = remove_item r p.requests;
        active_connection_count = decrement p.active_connection_count;
      }))
    × ((x : ℕ) → v.requests x ≡ (if x == r then some q' else w.requests x))

pub remove_request-Left :
    (w : Memory) (r : ℕ) (q : Request) (p : Pool)
    → w.requests r ≡ some q
    → q.pool ≡ true
    → w.pool ≡ some p
    → p.is_dead ≡ false
    → Leaves (remove_request r w) (Left w r (removed w q) p)
unfolding remove_request
remove_request-Left w r q p hq hpool hp hd = ground (arith, ==_self r)

module _ (w v : Memory) (r : ℕ) (q : Request) (p : Pool) (inv : PoolInv w)
    (hq : w.requests r ≡ some q) (hpool : q.pool ≡ true) (hp : w.pool ≡ some p) (q' : Request)
    (off : q'.pool ≡ false) (left : Left w r q' p v) where
  in_list : contains r p.requests ≡ true
  in_list = let (p', e, c) = inv.member r q hq hpool in ground arith

  Left-member :
      (x : ℕ) (y : Request)
      → v.requests x ≡ some y
      → y.pool ≡ true
      → (p' : Pool) × (v.pool ≡ some p') × (contains x p'.requests ≡ true)
  Left-member x y e t = elim (Bool-cases (x == r)) [
    | inl same ↦ absurd (ground (arith, left.1 x, off))
    | inr other ↦
        let old : w.requests x ≡ some y = ground (arith, left.1 x) in
        let (p', e', c) = inv.member x y old t in
        (_, left.0, ground (arith, contains-remove_item x r p.requests (inv.distinct p hp)))
  ]

  Left-listed :
      (p' : Pool) (x : ℕ)
      → v.pool ≡ some p'
      → contains x p'.requests ≡ true
      → (y : Request) × (v.requests x ≡ some y) × (y.pool ≡ true) × (y.state ≡ inprogress)
  Left-listed p' x e c =
      let here = contains-remove_item x r p.requests (inv.distinct p hp) in
      let other : (x == r) ≡ false = ground (arith, left.0) in
      let old : contains x p.requests ≡ true = ground (arith, left.0) in
      let (y, ey, py, sy) = inv.listed p x hp old in (y, ground (arith, left.1 x), py, sy)

  Left-counted :
      (p' : Pool) → v.pool ≡ some p' → p'.active_connection_count ≡ pos (length p'.requests)
  unfolding decrement
  Left-counted p' e =
      ground (arith, left.0, inv.counted p hp, length-remove_item r p.requests in_list)

  pub Left-PoolInv : PoolInv v
  Left-PoolInv = record {
    member = Left-member;
    listed = Left-listed;
    counted = Left-counted;
    distinct =
        λ p' e. ground (arith, left.0, remove_item-Distinct r p.requests (inv.distinct p hp));
    alive = λ p' e. ground (arith, left.0, inv.alive p hp);
  }

removed_pool : (w : Memory) (q : Request) → (removed w q).pool ≡ false
removed_pool w q = ground arith

-- While the books of the pool are right (PoolInv), a live request that refers to the pool leaves
-- it without a fault, and the books are right again: the pool's list holds exactly the requests
-- that refer to it, and their number is counted.
pub remove_request-PoolInv :
    (w : Memory) (r : ℕ) (q : Request)
    → PoolInv w
    → w.requests r ≡ some q
    → q.pool ≡ true
    → Leaves (remove_request r w) PoolInv
remove_request-PoolInv w r q inv hq hpool =
    let (p, hp, _) = inv.member r q hq hpool in
    Leaves-weaken (remove_request r w) (remove_request-Left w r q p hq hpool hp (inv.alive p hp))
      (λ v left. Left-PoolInv w v r q p inv hq hpool hp (removed w q) (removed_pool w q) left)
