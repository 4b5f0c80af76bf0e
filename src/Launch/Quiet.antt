-- ===== src/Launch/Quiet.antt =====
-- A simple request leaves nothing behind.
use trequests.Base.{==_self, ℕ, true, false, Option, Bytes, ◌≡◌, refl, arith, inl, inr, ◌∙◌}
use trequests.Options.Compatible.{validate_options}
use trequests.Options.Platform.{Checked, ok, failed}
use trequests.Options.Validate.{RawOptions, Options}
use trequests.Launch.Flags.{accepted_simple}
use trequests.Launch.Made.{InLive}
use trequests.Launch.Ordered.{Launched, create_validated_cases}
use trequests.Launch.Replies.{IsReadable}
use trequests.Launch.Simple.{Returns, Returns-weaken, IsShown, run_and_reply-Gone}
use trequests.Launch.{
  Site, Reply, Wanted, refused, not_allocated, wrong_state, text, error_text, handle, run_and_reply,
  create_validated, create_new_request, when_checked,
}
use trequests.Request.Memory.{Memory}
use trequests.Session.{new_request}
use trequests.Thread.{ThreadInv}

-- The answer to a simple request: never a handle, nor that the request is in the wrong state.
abbrev pub IsSimple : Reply → Type 0
IsSimple (handle r) = ⊥
IsSimple wrong_state = ⊥
IsSimple _ = Unit {0}

-- No request, event or pool is added or lost, and the sessions with their lists are as they were.
abbrev pub Keeps : Memory → Memory → Type 0
Keeps w v =
    ((x : ℕ) → v.requests x ≡ w.requests x)
    × (v.queue ≡ w.queue)
    × (v.pool ≡ w.pool)
    × ((x : ℕ) → v.sessions x ≡ w.sessions x)

IsShown-IsSimple : (a : Reply) → IsShown a → IsSimple a
IsShown-IsSimple (text b) s = tt
IsShown-IsSimple (error_text b) s = tt
IsShown-IsSimple (refused e) s = tt
IsShown-IsSimple not_allocated s = tt
IsShown-IsSimple wrong_state s = s
IsShown-IsSimple (handle r) s = s

module _ (site : Site) (readable : IsReadable site) (w : Memory) (t : Wanted) (inv : ThreadInv w)
    (live : InLive w t.session) where
  validated-simple :
      (given : Options × Option ℕ × Option Bytes)
      → given.0.simple ≡ true
      → given.0.async ≡ false
      → Returns (create_validated site t given w) (λ a v. IsSimple a × Keeps w v)
  unfolding Launched
  validated-simple given simple sync =
      elim (create_validated_cases site readable w t given inv live) [
        | inl e ↦ rw e (tt, ((λ x. refl), refl, refl, λ x. refl))
        | inr (settings, v, made, async, e) ↦
            rw (e, simple)
              (Returns-weaken (run_and_reply site true w.fresh v)
                (run_and_reply-Gone site readable v w.fresh (new_request settings t.session) made.0
                  (ground (arith, made.1, ==_self w.fresh)) (async ∙ sync) refl refl)
                λ a u (shown, _, gone). (
                  IsShown-IsSimple a shown,
                  (
                    λ x. ground (arith, gone.0 x, made.1, inv.tidy.unused w.fresh (omega arith)),
                    gone.1 ∙ made.2,
                    gone.2 ∙ made.3,
                    λ x. gone.4 x ∙ made.4 x,
                  ),
                ))
      ]

  when_checked-simple :
      (c : Checked (Options × Option ℕ × Option Bytes))
      → ((given : Options × Option ℕ × Option Bytes)
          → c ≡ ok given
          → (given.0.simple ≡ true) × (given.0.async ≡ false))
      → Returns (when_checked site t c w) (λ a v. IsSimple a × Keeps w v)
  unfolding when_checked
  when_checked-simple (failed e) h = (tt, ((λ x. refl), refl, refl, λ x. refl))
  when_checked-simple (ok given) h =
      let (simple, sync) = h given refl in validated-simple given simple sync

  -- With -simple, the call returns the message of a failed check, that there is no handle, the text
  -- of the response or the error of the transfer, and never that the request is in the wrong state;
  -- the requests, the sessions with their lists of requests, the queue and the pool are what they
  -- were. The thread is in order before (ThreadInv), the session is live, and the parser gets
  -- through the Content-Type header of a response (IsReadable).
  pub create_new_request-IsSimple :
      (raw : RawOptions)
      → raw.simple_flag ≡ true
      → Returns (create_new_request site t raw w) (λ a v. IsSimple a × Keeps w v)
  unfolding create_new_request
  create_new_request-IsSimple raw simple =
      when_checked-simple (validate_options site.world.platform t.method raw)
        λ (o, s, a) e. accepted_simple site.world.platform t.method raw o s a simple e
