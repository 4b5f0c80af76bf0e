-- ===== src/Thread/Sessions.antt =====
-- Freeing a session with its requests.
use trequests.Base.{
  ==_self, ℕ, true, false, List, [], ◌∷◌, none, some, if◌then◌else◌, ◌==◌, ◌≡◌, refl, arith,
  Bool-cases, inl, inr, ◌∙◌,
}
use trequests.Destroy.Frame.{QueueInv-frame}
use trequests.Destroy.Safe.{IsQuiet}
use trequests.Destroy.{request_free, free_requests, session_free}
use trequests.Pool.Active.{ActiveInv-frame}
use trequests.Pool.Frame.{PoolInv-frame}
use trequests.Pool.Members.{contains, Distinct}
use trequests.Request.Memory.{
  Request, Session, Memory, M, ◌>>◌, Leaves, Leaves-weaken, Leaves-bind, update,
}
use trequests.Run.Start.Async.{with_request}
use trequests.Session.Owned.{SessionInv, session_of}
use trequests.Thread.Callbacks.{request_free-Freed, Freed-CoreInv}
use trequests.Thread.{ThreadInv, CoreInv, core, CoreInv-frame, in_order, IsTidy-change, MayBecome}

-- The requests are live and quiet.
abbrev pub AllQuiet : Memory → List ℕ → Type 0
AllQuiet w [] = Unit {0}
AllQuiet w (r ∷ rs) = ((q : Request) × (w.requests r ≡ some q) × IsQuiet w q) × AllQuiet w rs

-- The requests are gone, and nothing else changes but the books of the pool and the queue.
abbrev AllFreed : List ℕ → Memory → Memory → Type 0
AllFreed rs w v =
    CoreInv v
    × ((x : ℕ) → v.requests x ≡ (if contains x rs then none else w.requests x))
    × ((s : ℕ) → v.sessions s ≡ w.sessions s)
    × (v.fresh ≡ w.fresh)

abbrev out_of_session : Request → Request
out_of_session q = record q { session = none }

out_of_session-CoreInv :
    (w : Memory) (r : ℕ) (q : Request)
    → CoreInv w
    → w.requests r ≡ some q
    → CoreInv (with_request w r (out_of_session q))
out_of_session-CoreInv w r q (books, queue, tidy, active) hq =
    let v = with_request w r (out_of_session q) in
    (
      PoolInv-frame w v refl (λ x. ground arith) books,
      QueueInv-frame w v refl (omega arith) (λ x. ground arith) queue,
      IsTidy-change w v r q (some (out_of_session q)) tidy hq may (λ x. refl) (omega arith),
      ActiveInv-frame w v refl refl active,
    )
  where
    may : MayBecome (some (out_of_session q))
    may y e t = ground (arith, tidy.idle r q hq)

-- The other requests are as quiet as before.
AllQuiet-frame :
    (w v : Memory) (r : ℕ) (rs : List ℕ)
    → ((x : ℕ) → v.requests x ≡ (if x == r then none else w.requests x))
    → v.interp_deleted ≡ w.interp_deleted
    → contains r rs ≡ false
    → AllQuiet w rs
    → AllQuiet v rs
AllQuiet-frame w v r [] frame same apart h = tt
AllQuiet-frame w v r (x ∷ rs) frame same apart ((q, hq, quiet), rest) = (
  (q, ground (arith, frame x), ground (arith, same)),
  AllQuiet-frame w v r rs frame same (ground arith) rest,
)

abbrev OneFreed : ℕ → Memory → Memory → Type 0
OneFreed r w v =
    CoreInv v
    × ((x : ℕ) → v.requests x ≡ (if x == r then none else w.requests x))
    × (v.interp_deleted ≡ w.interp_deleted)
    × ((s : ℕ) → v.sessions s ≡ w.sessions s)
    × (v.fresh ≡ w.fresh)

free_requests-eq :
    (w : Memory) (r : ℕ) (rs : List ℕ) (q : Request)
    → w.requests r ≡ some q
    → free_requests (r ∷ rs) w
      ≡ (request_free r >> free_requests rs) (with_request w r (out_of_session q))
unfolding free_requests
free_requests-eq w r rs q hq = ground arith

free_one :
    (w : Memory) (r : ℕ) (q : Request)
    → CoreInv w
    → w.requests r ≡ some q
    → IsQuiet w q
    → Leaves (request_free r (with_request w r (out_of_session q))) (OneFreed r w)
free_one w r q inv hq quiet =
    let u = with_request w r (out_of_session q) in
    let inv' = out_of_session-CoreInv w r q inv hq in
    let at_r : u.requests r ≡ some (out_of_session q) = ground (arith, ==_self r) in
    Leaves-weaken (request_free r u)
      (request_free-Freed u r (out_of_session q) inv' (λ s own. absurd (ground arith)) at_r quiet)
      λ v freed. (
        Freed-CoreInv u v r (out_of_session q) inv' at_r freed,
        (λ x. ground (arith, freed.0 x)),
        freed.4,
        freed.5,
        freed.2,
      )

free_requests-AllFreed :
    (rs : List ℕ) (w : Memory)
    → CoreInv w
    → AllQuiet w rs
    → Distinct rs
    → Leaves (free_requests rs w) (AllFreed rs w)
unfolding free_requests
free_requests-AllFreed [] w inv h d = (inv, (λ x. refl), (λ s. refl), refl)
free_requests-AllFreed (r ∷ rs) w inv ((q, hq, quiet), rest) (out, apart) =
    rw (free_requests-eq w r rs q hq) (
      Leaves-bind (request_free r) (λ _. free_requests rs) (with_request w r (out_of_session q))
        (AllFreed (r ∷ rs) w) (free_one w r q inv hq quiet)
        λ _ v (inv', frame, same, sessions, later).
          Leaves-weaken (free_requests rs v)
            (free_requests-AllFreed rs v inv' (AllQuiet-frame w v r rs frame same out rest) apart)
            λ u (inv'', frame', sessions', later'). (
              inv'',
              (λ x. ground (arith, frame x, frame' x)),
              (λ s. sessions' s ∙ sessions s),
              later' ∙ later,
            ))

module _ (w v : Memory) (s : ℕ) (ses : Session) (inv : SessionInv w) (hs : w.sessions s ≡ some ses)
    (frame : (x : ℕ) → v.requests x ≡ (if contains x ses.requests then none else w.requests x))
    (gone : (z : ℕ) → v.sessions z ≡ (if z == s then none else w.sessions z))
    (later : v.fresh ≡ w.fresh) where
  gone-listed :
      (x z : ℕ)
      → session_of (v.requests x) ≡ some z
      → (t : Session) × (v.sessions z ≡ some t) × (contains x t.requests ≡ true)
  gone-listed x z e = elim (Bool-cases (contains x ses.requests)) [
    | inl freed ↦ absurd (ground (arith, frame x))
    | inr kept ↦
        let (t, ht, c) = inv.listed x z (ground (arith, frame x)) in (t, ground (arith, gone z), c)
  ]

  gone-member :
      (z : ℕ) (t : Session) (x : ℕ)
      → v.sessions z ≡ some t
      → contains x t.requests ≡ true
      → session_of (v.requests x) ≡ some z
  gone-member z t x ht c =
      let old = inv.member z t x (ground (arith, gone z)) c in
      elim (Bool-cases (contains x ses.requests)) [
        | inl freed ↦ let other = inv.member s ses x hs freed in absurd (ground (arith, gone z))
        | inr kept ↦ ground (arith, frame x)
      ]

  gone-SessionInv : SessionInv v
  gone-SessionInv = record {
    listed = gone-listed;
    member = gone-member;
    distinct = λ z t ht. inv.distinct z t (ground (arith, gone z));
    free = λ z le. ground (arith, gone z, inv.free z (omega arith));
  }

abbrev without_session : ℕ → Memory → Memory
without_session s w = record w { sessions = update w.sessions s none }

abbrev release : ℕ → M (Unit {0})
release s w = some (tt, without_session s w)

session_free-eq :
    (w : Memory) (s : ℕ) (ses : Session)
    → w.sessions s ≡ some ses
    → session_free s w ≡ (free_requests ses.requests >> release s) w
unfolding session_free
session_free-eq w s ses hs = ground arith

-- What is left of a thread when a session is freed.
abbrev pub SessionFreed : Memory → ℕ → Session → Memory → Type 0
SessionFreed w s ses v =
    ThreadInv v
    × ((z : ℕ) → v.sessions z ≡ (if z == s then none else w.sessions z))
    × ((x : ℕ) → v.requests x ≡ (if contains x ses.requests then none else w.requests x))

-- While the thread is in order (ThreadInv), freeing a live session none of whose requests runs in
-- the pool with a callback (AllQuiet) ends with no fault: the session and just the requests of its
-- list are gone, no other session or request changes, and the thread is in order.
pub session_free-SessionFreed :
    (w : Memory) (s : ℕ) (ses : Session)
    → ThreadInv w
    → w.sessions s ≡ some ses
    → AllQuiet w ses.requests
    → Leaves (session_free s w) (SessionFreed w s ses)
session_free-SessionFreed w s ses inv hs quiet = rw (session_free-eq w s ses hs) (
    Leaves-bind (free_requests ses.requests) (λ _. release s) w (SessionFreed w s ses)
      (free_requests-AllFreed ses.requests w (core inv) quiet (inv.sessions.distinct s ses hs))
      λ _ v (inv', frame, sessions, later).
        let gone = λ (z : ℕ). freed_at v z (sessions z) in
        let u = without_session s v in
        (
          in_order (CoreInv-frame v u (λ x. refl) refl refl (omega arith) inv')
              (gone-SessionInv w u s ses inv.sessions hs frame gone later),
          gone,
          frame,
        ))
  where
    freed_at :
        (v : Memory) (z : ℕ)
        → v.sessions z ≡ w.sessions z
        → (without_session s v).sessions z ≡ (if z == s then none else w.sessions z)
    freed_at v z same = ground (arith, same)
