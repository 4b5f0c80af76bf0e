-- ===== src/Launch/Simple.antt =====
-- Requests that are created with -simple.
use trequests.Base.{
  ap, ==_self, ℕ, true, false, Option, none, some, if◌then◌else◌, ◌==◌, ◌≡◌, refl, arith, inl, inr,
  ◌∙◌,
}
use trequests.Destroy.{request_free}
use trequests.Launch.Replies.{IsReadable, state_reply-done, state_reply-error}
use trequests.Launch.{Site, Reply, text, error_text, state_reply, simple_reply, run_and_reply}
use trequests.Request.Memory.{Session, Request, Memory, M, ◌>>◌, return, Leaves, Leaves-both}
use trequests.Run.Body.{configure}
use trequests.Run.Start.Ends.{
  OnlyRequest, IsOver, synchronous, synchronous-IsOver, follow-OnlyRequest, request_run-follow,
}
use trequests.Run.Start.{request_run}
use trequests.Thread.Callbacks.{request_free-Freed, live_session, Freed-ThreadInv}
use trequests.Thread.Starts.{request_run-ThreadInv, synchronous_kept}
use trequests.Session.Owned.{sessions_without}
use trequests.Thread.{ThreadInv, core}

-- The call returns, with no fault, and `P` holds of its result and of the memory that it leaves.
abbrev pub Returns : {A : Type 0} → Option (A × Memory) → (A → Memory → Type 0) → Type 0
Returns none P = ⊥
Returns (some (a, w)) P = P a w

pub Returns-weaken :
    {A : Type 0} (o : Option (A × Memory)) {P Q : A → Memory → Type 0}
    → Returns o P
    → ((a : A) (v : Memory) → P a v → Q a v)
    → Returns o Q
Returns-weaken none h f = absurd h
Returns-weaken (some (a, v)) h f = f a v h

-- A call that gives `b` after another call.
pub Returns-after :
    {B : Type 0} (m : M (Unit {0})) (f : M B) (w : Memory) {P : Memory → Type 0}
    (Q : B → Memory → Type 0)
    → Leaves (m w) P
    → ((v : Memory) → P v → Returns (f v) Q)
    → Returns ((m >> f) w) Q
Returns-after {B} m f w {P} Q l k = go (m w) l
  where
    go :
        (o : Option (Unit {0} × Memory))
        → Leaves o P
        → Returns (elim o as (λ _. Option (B × Memory)) [ none ↦ none | some (a, v) ↦ f v ]) Q
    go none h = absurd h
    go (some (a, v)) h = k v h

-- A text or the message of an error.
abbrev pub IsShown : Reply → Type 0
IsShown (text b) = Unit {0}
IsShown (error_text b) = Unit {0}
IsShown _ = ⊥

-- The request is gone, from the list of its session, too, and the memory is what it was but for that.
abbrev pub Gone : Memory → ℕ → Option ℕ → Memory → Type 0
Gone w r session v =
    ((x : ℕ) → v.requests x ≡ (if x == r then none else w.requests x))
    × (v.queue ≡ w.queue)
    × (v.pool ≡ w.pool)
    × (v.fresh ≡ w.fresh)
    × ((x : ℕ) → v.sessions x ≡ sessions_without r session w.sessions x)

module _ (site : Site) (readable : IsReadable site) where
  state_reply-IsShown :
      (w : Memory) (q : Request)
      → IsOver q.state
      → (a : Reply) × (state_reply site q w ≡ some (a, w)) × IsShown a
  state_reply-IsShown w q (inl over) =
      let (b, e) = state_reply-done site w q readable over in (text b, e, tt)
  state_reply-IsShown w q (inr over) = (_, state_reply-error site w q over, tt)

  simple_reply-eq :
      (w : Memory) (r : ℕ) (q : Request) (a : Reply)
      → w.requests r ≡ some q
      → state_reply site q w ≡ some (a, w)
      → simple_reply site r w ≡ (request_free r >> return a) w
  unfolding simple_reply
  simple_reply-eq w r q a hq e = ground arith

  -- The request is over, out of the pool and without an event.
  simple_reply-Gone :
      (w : Memory) (r : ℕ) (q : Request)
      → ThreadInv w
      → w.requests r ≡ some q
      → q.pool ≡ false
      → q.callback_event ≡ none
      → IsOver q.state
      → Returns (simple_reply site r w) (λ a v. IsShown a × ThreadInv v × Gone w r q.session v)
  simple_reply-Gone w r q inv hq off idle over =
      let (a, e, shown) = state_reply-IsShown w q over in
      rw (simple_reply-eq w r q a hq e) (
        Returns-after (request_free r) (return a) w
          (λ a v. IsShown a × ThreadInv v × Gone w r q.session v)
          (request_free-Freed w r q (core inv) (live_session w r q inv hq) hq (ground arith))
          λ v freed. (
            shown,
            (Freed-ThreadInv w v r q inv hq freed).0,
            (
              freed.0,
              ground (arith, freed.1),
              ground (arith, freed.3),
              ground (arith, freed.2),
              freed.5,
            ),
          ))

  run_and_reply-simple :
      (r : ℕ) → run_and_reply site true r ≡ (request_run site.world r >> simple_reply site r)
  unfolding run_and_reply
  run_and_reply-simple r = refl

  -- The lists of the sessions are as they were before the run.
  same_lists :
      (f g h : ℕ → Option Session) (r : ℕ) (s s' : Option ℕ) (x : ℕ)
      → g ≡ f
      → h x ≡ sessions_without r s' g x
      → s' ≡ s
      → h x ≡ sessions_without r s f x
  same_lists f g h r s s' x same freed own =
      freed ∙ ap (λ o. sessions_without r o g x) own ∙ ap (λ k. sessions_without r s k x) same

  pub run_and_reply-Gone :
      (w : Memory) (r : ℕ) (q : Request)
      → ThreadInv w
      → w.requests r ≡ some q
      → q.async ≡ false
      → q.pool ≡ false
      → q.callback_event ≡ none
      → Returns
          (run_and_reply site true r w)
          (λ a v. IsShown a × ThreadInv v × Gone w r q.session v)
  run_and_reply-Gone w r q inv hq sync off idle =
      let env = site.world in
      let g = configure env.curl env.platform q.settings in
      let (off', same_event, same_session) = synchronous_kept env r w q inv hq off idle g in
      rw (run_and_reply-simple r) (
        Returns-after (request_run env r) (simple_reply site r) w
          (λ a v. IsShown a × ThreadInv v × Gone w r q.session v)
          (Leaves-both (request_run env r w) ThreadInv (OnlyRequest w r (synchronous env g q))
            (request_run-ThreadInv env r w q inv hq off idle (λ async. absurd (ground arith)))
            (rw (request_run-follow env w r q hq) (follow-OnlyRequest env w r q g hq sync)))
          λ v (inv', only).
            Returns-weaken (simple_reply site r v)
              (simple_reply-Gone v r (synchronous env g q) inv'
                (ground (arith, only.0 r, ==_self r)) off' (same_event ∙ idle)
                (synchronous-IsOver env g q))
              λ a u (shown, inv'', gone). (
                shown,
                inv'',
                (
                  (λ x. ground (arith, gone.0 x, only.0 x)),
                  gone.1 ∙ only.1,
                  gone.2 ∙ only.2,
                  gone.3 ∙ only.3,
                  λ x.
                      same_lists w.sessions v.sessions u.sessions r q.session
                        (synchronous env g q).session x only.4 (gone.4 x) same_session,
                ),
              ))
