-- ===== src/Pool/Drained.antt =====
-- A pool all of whose transfers have ended.
use trequests.Base.{
  ℕ, true, false, Bool, List, [], ◌∷◌, some, ==_self, ◌≡◌, refl, arith, if◌then◌else◌, ◌==◌, ◌∙◌,
  sym, All, Bool-cases, inl, inr,
}
use trequests.Pool.Complete.{Settles, IsSettled}
use trequests.Pool.Members.{contains}
use trequests.Pool.Remove.{PoolInv}
use trequests.Pool.{Message}
use trequests.Request.Memory.{Request, Pool, Memory}

-- A message is about the request.
pub reported : ℕ → List Message → Bool
reported x [] = false
reported x (m ∷ ms) = if m.request == x then true else reported x ms

-- Every transfer of the pool is reported to have ended.
abbrev pub AllReported : Pool → List Message → Type 0
AllReported p ms = (x : ℕ) → contains x p.requests ≡ true → reported x ms ≡ true

settled_request :
    (v : Memory) (x : ℕ) (ms : List Message) (q : Request)
    → All (IsSettled v) ms
    → reported x ms ≡ true
    → v.requests x ≡ some q
    → q.pool ≡ false
unfolding reported
settled_request v x [] q all r e = absurd (ground arith)
settled_request v x (m ∷ ms) q ((y, ey, _, off), all) r e = elim (Bool-cases (m.request == x)) [
  | inl same ↦ ground arith
  | inr other ↦ settled_request v x ms q all (ground arith) e
]

unreported :
    (x : ℕ) (ms : List Message) → reported x ms ≡ false → All (λ n. (n.request == x) ≡ false) ms
unfolding reported
unreported x [] r = tt
unreported x (m ∷ ms) r = (ground arith, unreported x ms (ground arith))

empty_list : (xs : List ℕ) → ((x : ℕ) → contains x xs ≡ false) → xs ≡ []
empty_list [] h = refl
empty_list (x ∷ xs) h = absurd (ground (arith, h x, ==_self x))

-- When the messages on all the transfers of a pool are handled, the pool is empty.
pub Settles-empty :
    (w v : Memory) (p p' : Pool) (ms : List Message)
    → PoolInv w
    → w.pool ≡ some p
    → AllReported p ms
    → Settles w ms v
    → v.pool ≡ some p'
    → p'.requests ≡ []
Settles-empty w v p p' ms inv hp all (inv', settled, frame) hp' = empty_list p'.requests gone
  where
    listed : (x : ℕ) → contains x p'.requests ≡ true → contains x p'.requests ≡ false
    listed x c =
        let (q, e, on, _) = inv'.listed p' x hp' c in
        elim (Bool-cases (reported x ms)) [
          | inl told ↦ absurd (ground (arith, settled_request v x ms q settled told e))
          | inr silent ↦
              let old = sym (frame x (unreported x ms silent)) ∙ e in
              let (p'', hp'', c'') = inv.member x q old on in absurd (ground (arith, all x))
        ]

    gone : (x : ℕ) → contains x p'.requests ≡ false
    gone x = elim (Bool-cases (contains x p'.requests)) [ inl c ↦ listed x c | inr out ↦ out ]
