-- ===== src/Launch/Ordered.antt =====
-- The thread is in order after `treq_CreateNewRequest`.
use trequests.Base.{
  ==_self, ℕ, Bool, true, false, ◌&&◌, Option, none, some, Bytes, ◌≡◌, refl, arith, Bool-cases, inl,
  inr, ◌⊎◌, ◌∙◌, ap, sym,
}
use trequests.Create.{request_settings}
use trequests.Launch.Flags.{accepted_flags}
use trequests.Launch.Live.{request_run-IsLive, IsLive}
use trequests.Launch.Made.{InLive, Made, allocate-Made, allocate-none, defaults_lem}
use trequests.Launch.Replies.{IsReadable, create_handle-ThreadInv}
use trequests.Launch.Simple.{Returns, run_and_reply-Gone}
use trequests.Launch.{
  Site, Wanted, not_allocated, run_and_reply, create_handle, launch, create_validated,
  create_new_request, when_checked, allocate, defaults,
}
use trequests.Options.Compatible.Consistent.{IsConsistent, validate_options-IsConsistent}
use trequests.Options.Compatible.{validate_options}
use trequests.Options.Platform.{Checked, ok, failed}
use trequests.Options.Validate.{RawOptions, Options}
use trequests.Request.Memory.{
  SessionSettings, Request, Memory, Leaves, Leaves-both, Leaves-bind, bind-some,
}
use trequests.Request.Settings.{Settings}
use trequests.Pool.Active.{deactivates}
use trequests.Run.Start.{request_run}
use trequests.Session.{new_request}
use trequests.Thread.Starts.{request_run-ThreadInv}
use trequests.Thread.{ThreadInv}

pub Returns-Leaves :
    {A : Type 0} (o : Option (A × Memory)) {P : A → Memory → Type 0} {Q : Memory → Type 0}
    → Returns o P
    → ((a : A) (v : Memory) → P a v → Q v)
    → Leaves o Q
Returns-Leaves none h f = absurd h
Returns-Leaves (some (a, v)) h f = f a v h

module _ (site : Site) (readable : IsReadable site) where
  module _ (w : Memory) (r : ℕ) (q : Request) (inv : ThreadInv w) (hq : w.requests r ≡ some q)
      (off : q.pool ≡ false) (idle : q.callback_event ≡ none) where
    handle-ThreadInv :
        (q.async ≡ true → deactivates w.queue ≡ false)
        → Leaves (run_and_reply site false r w) ThreadInv
    unfolding run_and_reply
    handle-ThreadInv served =
        Leaves-bind (request_run site.world r) (λ _. create_handle site r) w ThreadInv
          (Leaves-both (request_run site.world r w) ThreadInv (IsLive site.world w r q hq)
            (request_run-ThreadInv site.world r w q inv hq off idle served)
            (request_run-IsLive site.world w r q hq))
          λ _ v (inv', live). create_handle-ThreadInv site v r inv' live

    run_and_reply-ThreadInv :
        (simple : Bool)
        → (q.async && simple) ≡ false
        → (q.async ≡ true → deactivates w.queue ≡ false)
        → Leaves (run_and_reply site simple r w) ThreadInv
    run_and_reply-ThreadInv false apart served = handle-ThreadInv served
    run_and_reply-ThreadInv true apart served =
        Returns-Leaves (run_and_reply site true r w)
          (run_and_reply-Gone site readable w r q inv hq (ground arith) off idle)
          λ a v (_, inv', _). inv'

  module _ (w : Memory) (t : Wanted) (given : Options × Option ℕ × Option Bytes) where
    -- The settings of the new request, with the defaults of its session.
    abbrev settings_from : Option SessionSettings → Settings
    settings_from d =
        request_settings site.world.platform site.find_exact t.method t.url t.custom_method given d

    create_validated-none :
        (d : Option SessionSettings)
        → defaults site t.session w ≡ some (d, w)
        → allocate site (settings_from d) t.session w ≡ some (none, w)
        → create_validated site t given w ≡ some (not_allocated, w)
    unfolding create_validated launch
    create_validated-none d hd e =
        bind-some (defaults site t.session) _ w w d hd
        ∙ bind-some (allocate site (settings_from d) t.session) (launch site given.0.simple) w w
            none e

    create_validated-some :
        (d : Option SessionSettings) (r : ℕ) (v : Memory)
        → defaults site t.session w ≡ some (d, w)
        → allocate site (settings_from d) t.session w ≡ some (some r, v)
        → create_validated site t given w ≡ run_and_reply site given.0.simple r v
    unfolding create_validated launch
    create_validated-some d r v hd e =
        bind-some (defaults site t.session) _ w w d hd
        ∙ bind-some (allocate site (settings_from d) t.session) (launch site given.0.simple) w v
            (some r) e

    -- A request is made and run, or libcurl has no handle for it.
    unfoldable pub Launched : Type 0
    Launched =
        (settings : Settings) × (v : Memory) × Made w settings t.session v
        × (settings.async ≡ given.0.async)
        × (create_validated site t given w ≡ run_and_reply site given.0.simple w.fresh v)

    pub create_validated_cases :
        ThreadInv w
        → InLive w t.session
        → (create_validated site t given w ≡ some (not_allocated, w)) ⊎ Launched
    unfolding Launched request_settings
    create_validated_cases inv live =
        let (d, hd) = defaults_lem site w t.session live in
        elim (Bool-cases site.has_handle) [
          | inl has ↦
              let (v, e, made) = allocate-Made site w (settings_from d) t.session inv live has in
              inr (settings_from d, v, made, refl, create_validated-some d w.fresh v hd e)
          | inr lacks ↦
              inl (
                create_validated-none d hd (allocate-none site w (settings_from d) t.session lacks))
        ]

    validated-ThreadInv :
        ThreadInv w
        → InLive w t.session
        → (given.0.async && given.0.simple) ≡ false
        → (given.0.async ≡ true → deactivates w.queue ≡ false)
        → Leaves (create_validated site t given w) ThreadInv
    unfolding Launched
    validated-ThreadInv inv live apart served = elim (create_validated_cases inv live) [
      | inl e ↦ rw e inv
      | inr (settings, v, made, async, e) ↦ rw e (
          run_and_reply-ThreadInv v w.fresh (new_request settings t.session) made.0
            (ground (arith, made.1, ==_self w.fresh)) refl refl given.0.simple (rw async apart)
            (λ on. ap deactivates made.2 ∙ served (sym async ∙ on)))
    ]

  when_checked-ThreadInv :
      (w : Memory) (t : Wanted) (c : Checked (Options × Option ℕ × Option Bytes))
      → ThreadInv w
      → InLive w t.session
      → ((given : Options × Option ℕ × Option Bytes)
          → c ≡ ok given
          → ((given.0.async && given.0.simple) ≡ false)
            × (given.0.async ≡ true → deactivates w.queue ≡ false))
      → Leaves (when_checked site t c w) ThreadInv
  unfolding when_checked
  when_checked-ThreadInv w t (failed e) inv live apart = inv
  when_checked-ThreadInv w t (ok given) inv live apart =
      validated-ThreadInv w t given inv live (apart given refl).0 (apart given refl).1

  -- Whatever options are given and whatever libcurl answers, the call returns with no fault, if the
  -- thread is in order (ThreadInv), the session is live, the parser gets through the Content-Type
  -- header of a response (IsReadable) and, with -async, no event that deactivates the pool waits; and
  -- it leaves the thread in order.
  pub create_new_request-ThreadInv :
      (w : Memory) (t : Wanted) (raw : RawOptions)
      → ThreadInv w
      → InLive w t.session
      → (raw.async_flag && deactivates w.queue) ≡ false
      → Leaves (create_new_request site t raw w) ThreadInv
  unfolding create_new_request
  create_new_request-ThreadInv w t raw inv live served =
      when_checked-ThreadInv w t (validate_options site.world.platform t.method raw) inv live
        λ (o, s, a) e.
          let (_, consistent) =
            validate_options-IsConsistent site.world.platform t.method raw o s a e in
          let kept = accepted_flags site.world.platform t.method raw o s a e in
          (unfold IsConsistent in consistent.3, λ on. ground arith)
