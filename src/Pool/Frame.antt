-- ===== src/Pool/Frame.antt =====
-- What the books of the pool depend on.
use trequests.Base.{ℕ, true, Option, none, some, if◌then◌else◌, ◌≡◌, refl, sym, ◌∙◌, arith}
use trequests.Pool.Remove.{PoolInv}
use trequests.Request.Memory.{Request, RequestState, Memory}

-- The state of a request that refers to the pool.
abbrev pub in_pool : Option Request → Option RequestState
in_pool none = none
in_pool (some q) = if q.pool then some q.state else none

in_pool-some :
    (o : Option Request) (s : RequestState)
    → in_pool o ≡ some s
    → (q : Request) × (o ≡ some q) × (q.pool ≡ true) × (q.state ≡ s)
in_pool-some none s e = absurd (ground arith)
in_pool-some (some q) s e = (q, refl, ground arith, ground arith)

in_pool-on :
    (o : Option Request) (q : Request) → o ≡ some q → q.pool ≡ true → in_pool o ≡ some q.state
in_pool-on o q e t = ground arith

-- The books stay right where the pool and the requests that refer to it are as they were.
pub PoolInv-frame :
    (w v : Memory)
    → v.pool ≡ w.pool
    → ((x : ℕ) → in_pool (v.requests x) ≡ in_pool (w.requests x))
    → PoolInv w
    → PoolInv v
PoolInv-frame w v same view inv = record {
  member = λ r q e t.
      let (q', e', t', _) =
        in_pool-some (w.requests r) q.state (sym (view r) ∙ in_pool-on _ q e t) in
      let (p, hp, c) = inv.member r q' e' t' in (p, same ∙ hp, c);
  listed = λ p r e c.
      let (q, eq, t, s) = inv.listed p r (sym same ∙ e) c in
      let (q', e', t', s') = in_pool-some (v.requests r) q.state (view r ∙ in_pool-on _ q eq t) in
      (q', e', t', s' ∙ s);
  counted = λ p e. inv.counted p (sym same ∙ e);
  distinct = λ p e. inv.distinct p (sym same ∙ e);
  alive = λ p e. inv.alive p (sym same ∙ e);
}
