-- ===== src/Launch/Made.antt =====
-- The allocation of a request.
use trequests.Base.{
  ==_self, Bool-cases, ◌==◌, ◌≤◌, ◌∷◌, suc, true, false, ℕ, Option, none, some, ◌≡◌, refl, arith,
  is_some, Option-cases, inl, inr,
}
use trequests.Launch.{Site, allocate, defaults}
use trequests.Request.Memory.{remove_item, Session, SessionSettings, Memory, update}
use trequests.Request.Settings.{Settings}
use trequests.Session.{new_request, session_request_init, request_init, link}
use trequests.Thread.Starts.{Added, added-ThreadInv}
use trequests.Pool.Members.{contains, Distinct}
use trequests.Session.Owned.{SessionInv, SessionInv-frame, sessions_without, session_of}
use trequests.Thread.{ThreadInv}

-- The session of a new request, if it has one, is live.
abbrev pub InLive : Memory → Option ℕ → Type 0
InLive w session = (s : ℕ) → session ≡ some s → is_some (w.sessions s) ≡ true

-- The new request is the head of the list of its session.
abbrev born : Memory → Settings → Option ℕ → Memory
born w s session = record w {
  requests = update w.requests w.fresh (some (new_request s session));
  fresh = suc w.fresh;
}

abbrev linked : Memory → ℕ → Session → ℕ → Memory
linked w s ses r = record w {
  sessions = update w.sessions s (some (record ses { requests = r ∷ ses.requests }));
}

module _ (w : Memory) (s : Settings) (inv : ThreadInv w) where
  unused : w.requests w.fresh ≡ none
  unused = inv.tidy.unused w.fresh (omega arith)

  born_alone-SessionInv : SessionInv (born w s none)
  born_alone-SessionInv =
      SessionInv-frame w (born w s none) (λ x. refl) (λ x. ground (arith, unused)) (omega arith)
        inv.sessions

  module _ (z : ℕ) (ses : Session) (hz : w.sessions z ≡ some ses) where
    abbrev joined : Memory
    joined = linked (born w s (some z)) z ses w.fresh

    unlisted : contains w.fresh ses.requests ≡ false
    unlisted = elim (Bool-cases (contains w.fresh ses.requests)) [
      | inl c ↦ absurd (ground (arith, inv.sessions.member z ses w.fresh hz c, unused))
      | inr out ↦ out
    ]

    linked-listed :
        (x y : ℕ)
        → session_of (joined.requests x) ≡ some y
        → (t : Session) × (joined.sessions y ≡ some t) × (contains x t.requests ≡ true)
    linked-listed x y e = elim (Bool-cases (x == w.fresh)) [
      | inl new ↦ (record ses { requests = w.fresh ∷ ses.requests }, ground arith, ground arith)
      | inr old ↦
          let (t, ht, c) = inv.sessions.listed x y (ground arith) in
          elim (Bool-cases (y == z)) [
            | inl here ↦
                (record ses { requests = w.fresh ∷ ses.requests }, ground arith, ground arith)
            | inr there ↦ (t, ground arith, c)
          ]
    ]

    linked-member :
        (y : ℕ) (t : Session) (x : ℕ)
        → joined.sessions y ≡ some t
        → contains x t.requests ≡ true
        → session_of (joined.requests x) ≡ some y
    linked-member y t x ht c = elim (Bool-cases (y == z)) [
      | inl here ↦ elim (Bool-cases (x == w.fresh)) [
        | inl new ↦ ground arith
        | inr old ↦ let kept = inv.sessions.member z ses x hz (ground arith) in ground arith
      ]
      | inr there ↦ let kept = inv.sessions.member y t x (ground arith) c in ground (arith, unused)
    ]

    linked-Distinct : (y : ℕ) (t : Session) → joined.sessions y ≡ some t → Distinct t.requests
    linked-Distinct y t ht = elim (Bool-cases (y == z)) [
      | inl here ↦
          let e : t ≡ record ses { requests = w.fresh ∷ ses.requests } = ground arith in
          rw e (unlisted, inv.sessions.distinct z ses hz)
      | inr there ↦ inv.sessions.distinct y t (ground arith)
    ]

    linked-free : (y : ℕ) → suc w.fresh ≤ y → joined.sessions y ≡ none
    linked-free y le = elim (Bool-cases (y == z)) [
      | inl here ↦ absurd (ground (arith, inv.sessions.free y (omega arith)))
      | inr there ↦ ground (arith, inv.sessions.free y (omega arith))
    ]

    linked-SessionInv : SessionInv joined
    linked-SessionInv = record {
      listed = linked-listed;
      member = linked-member;
      distinct = linked-Distinct;
      free = linked-free;
    }

-- The thread with a new request.
abbrev pub Made : Memory → Settings → Option ℕ → Memory → Type 0
Made w settings session v =
    ThreadInv v
    × (v.requests ≡ update w.requests w.fresh (some (new_request settings session)))
    × (v.queue ≡ w.queue)
    × (v.pool ≡ w.pool)
    × ((x : ℕ) → sessions_without w.fresh session v.sessions x ≡ w.sessions x)

module _ (site : Site) (w : Memory) where
  -- Without the new request, the list of its session is as it was.
  relisted :
      (s : ℕ) (ses : Session)
      → w.sessions s ≡ some ses
      → (x : ℕ)
      → sessions_without w.fresh
          (some s)
          (update w.sessions s (some (record ses { requests = w.fresh ∷ ses.requests })))
          x
        ≡ w.sessions x
  unfolding remove_item
  relisted s ses hs x = elim (Bool-cases (x == s)) [
    | inl same ↦ ground (arith, ==_self w.fresh)
    | inr other ↦ ground arith
  ]

  pub allocate-Made :
      (settings : Settings) (session : Option ℕ)
      → ThreadInv w
      → InLive w session
      → site.has_handle ≡ true
      → (v : Memory) × (allocate site settings session w ≡ some (some w.fresh, v))
        × Made w settings session v
  unfolding allocate request_init session_request_init link
  allocate-Made settings none inv live has =
      let v = born w settings none in
      let added : Added w settings none v = (refl, refl, refl, refl) in
      let sessions = born_alone-SessionInv w settings inv in
      (
        v,
        ground arith,
        (added-ThreadInv w v settings none inv added sessions, refl, refl, refl, λ x. refl),
      )
  allocate-Made settings (some s) inv live has = elim (Option-cases (w.sessions s)) [
    | inl gone ↦ absurd (ground (arith, live s refl))
    | inr (ses, hs) ↦
        let v = linked (born w settings (some s)) s ses w.fresh in
        let added : Added w settings (some s) v = (refl, refl, refl, refl) in
        let sessions = linked-SessionInv w settings inv s ses hs in
        (
          v,
          ground arith,
          (
            added-ThreadInv w v settings (some s) inv added sessions,
            refl,
            refl,
            refl,
            λ x. relisted s ses hs x,
          ),
        )
  ]

  pub allocate-none :
      (settings : Settings) (session : Option ℕ)
      → site.has_handle ≡ false
      → allocate site settings session w ≡ some (none, w)
  unfolding allocate request_init session_request_init
  allocate-none settings none has = ground arith
  allocate-none settings (some s) has = ground arith

  pub defaults_lem :
      (session : Option ℕ)
      → InLive w session
      → (d : Option SessionSettings) × (defaults site session w ≡ some (d, w))
  unfolding defaults
  defaults_lem none live = (none, refl)
  defaults_lem (some s) live = elim (Option-cases (w.sessions s)) [
    | inl gone ↦ absurd (ground (arith, live s refl))
    | inr (ses, hs) ↦ (some ses.settings, ground arith)
  ]
