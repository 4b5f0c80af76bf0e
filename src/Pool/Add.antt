-- ===== src/Pool/Add.antt =====
-- A request enters the pool.
use trequests.Base.{
  ==_self, ℕ, pos, increment, true, false, ◌∷◌, none, some, ◌≡◌, refl, arith, if◌then◌else◌, ◌==◌,
  length, Option-cases, inl, inr, Bool-cases,
}
use trequests.Pool.Members.{contains, Distinct}
use trequests.Pool.Remove.{PoolInv}
use trequests.Pool.{add_request, init}
use trequests.Request.Memory.{Request, inprogress, Pool, Memory, Leaves-weaken, Leaves}

-- The pool that the request is added to.
abbrev pub current : Memory → Pool
current w = elim w.pool [ none ↦ init | some p ↦ p ]

abbrev pub Joined : Memory → ℕ → Request → Memory → Type 0
Joined w r q v =
    (v.pool
      ≡ some (record (current w) {
        requests = r ∷ (current w).requests;
        is_active = true;
        active_connection_count = increment (current w).active_connection_count;
        need_refresh = true;
      }))
    × ((x : ℕ) → v.requests x ≡ (if x == r then some (record q { pool = true }) else w.requests x))
    × (v.queue ≡ w.queue)
    × (v.fresh ≡ w.fresh)
    × (v.sessions ≡ w.sessions)
    × (v.interp_deleted ≡ w.interp_deleted)

pub add_request-Joined :
    (w : Memory) (r : ℕ) (q : Request)
    → w.requests r ≡ some q
    → Leaves (add_request true true r w) (Joined w r q)
unfolding add_request
add_request-Joined w r q hq = ground (arith, ==_self r)

module _ (w v : Memory) (r : ℕ) (q : Request) (inv : PoolInv w) (hq : w.requests r ≡ some q)
    (off : q.pool ≡ false) (runs : q.state ≡ inprogress) (joined : Joined w r q v) where
  listed_before :
      (x : ℕ)
      → contains x (current w).requests ≡ true
      → (y : Request) × (w.requests x ≡ some y) × (y.pool ≡ true) × (y.state ≡ inprogress)
  listed_before x c = elim (Option-cases w.pool) [
    | inl e ↦ absurd (ground arith)
    | inr (p, e) ↦ inv.listed p x e (ground arith)
  ]

  not_listed : contains r (current w).requests ≡ false
  not_listed = elim (Bool-cases (contains r (current w).requests)) [
    | inl c ↦ let (y, e, t, _) = listed_before r c in absurd (ground arith)
    | inr c ↦ c
  ]

  Joined-member :
      (x : ℕ) (y : Request)
      → v.requests x ≡ some y
      → y.pool ≡ true
      → (p' : Pool) × (v.pool ≡ some p') × (contains x p'.requests ≡ true)
  Joined-member x y e t = elim (Bool-cases (x == r)) [
    | inl same ↦ (_, joined.0, ground arith)
    | inr other ↦
        let old : w.requests x ≡ some y = ground (arith, joined.1 x) in
        let (p', e', c) = inv.member x y old t in (_, joined.0, ground arith)
  ]

  Joined-listed :
      (p' : Pool) (x : ℕ)
      → v.pool ≡ some p'
      → contains x p'.requests ≡ true
      → (y : Request) × (v.requests x ≡ some y) × (y.pool ≡ true) × (y.state ≡ inprogress)
  Joined-listed p' x e c = elim (Bool-cases (x == r)) [
    | inl same ↦ (record q { pool = true }, ground (arith, joined.1 x), refl, runs)
    | inr other ↦
        let (y, ey, py, sy) = listed_before x (ground (arith, joined.0)) in
        (y, ground (arith, joined.1 x), py, sy)
  ]

  Joined-counted :
      (p' : Pool) → v.pool ≡ some p' → p'.active_connection_count ≡ pos (length p'.requests)
  unfolding increment
  Joined-counted p' e = elim (Option-cases w.pool) [
    | inl none_yet ↦ ground (arith, joined.0)
    | inr (p, e') ↦ ground (arith, joined.0, inv.counted p e')
  ]

  Joined-Distinct : (p' : Pool) → v.pool ≡ some p' → Distinct p'.requests
  Joined-Distinct p' e = elim (Option-cases w.pool) [
    | inl none_yet ↦ ground (arith, joined.0, not_listed)
    | inr (p, e') ↦ ground (arith, joined.0, not_listed, inv.distinct p e')
  ]

  Joined-alive : (p' : Pool) → v.pool ≡ some p' → p'.is_dead ≡ false
  Joined-alive p' e = elim (Option-cases w.pool) [
    | inl none_yet ↦ ground (arith, joined.0)
    | inr (p, e') ↦ ground (arith, joined.0, inv.alive p e')
  ]

  pub Joined-PoolInv : PoolInv v
  Joined-PoolInv = record {
    member = Joined-member;
    listed = Joined-listed;
    counted = Joined-counted;
    distinct = Joined-Distinct;
    alive = Joined-alive;
  }

-- While the books of the pool are right (PoolInv), a live running request that is in no pool is
-- added without a fault, to the thread's pool or to the one made for it, where libcurl makes the
-- pool and takes the request; the books are right again, and the pool is active and asks for a
-- refresh.
pub add_request-PoolInv :
    (w : Memory) (r : ℕ) (q : Request)
    → PoolInv w
    → w.requests r ≡ some q
    → q.pool ≡ false
    → q.state ≡ inprogress
    → Leaves (add_request true true r w) (λ v.
      PoolInv v × (p : Pool) × (v.pool ≡ some p) × (p.is_active ≡ true) × (p.need_refresh ≡ true))
add_request-PoolInv w r q inv hq off runs =
    Leaves-weaken (add_request true true r w) (add_request-Joined w r q hq)
      (λ v joined. (Joined-PoolInv w v r q inv hq off runs joined, _, joined.0, refl, refl))
