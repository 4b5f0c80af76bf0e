-- ===== src/Session/Owned.antt =====
-- The lists of sessions and the sessions of requests.
use trequests.Base.{
  ℕ, true, false, Option, none, some, if◌then◌else◌, ◌==◌, ◌≡◌, ◌≤◌, refl, sym, ◌∙◌, arith,
  Bool-cases, inl, inr, Option-cases, subst,
}
use trequests.Pool.Members.{contains, Distinct, contains-remove_item, remove_item-Distinct}
use trequests.Request.Memory.{Request, Session, Memory, remove_item}

-- The session of a request, if it is live and has one.
abbrev pub session_of : Option Request → Option ℕ
session_of none = none
session_of (some q) = q.session

-- The list of a live session holds, once each, exactly the live requests that refer to it, the
-- session of a request is live, and no session is live at an address that is still to be given out.
pub record SessionInv (w : Memory) : Type 0 where
  pub listed :
      (r s : ℕ)
      → session_of (w.requests r) ≡ some s
      → (ses : Session) × (w.sessions s ≡ some ses) × (contains r ses.requests ≡ true)
  pub member :
      (s : ℕ) (ses : Session) (r : ℕ)
      → w.sessions s ≡ some ses
      → contains r ses.requests ≡ true
      → session_of (w.requests r) ≡ some s
  pub distinct : (s : ℕ) (ses : Session) → w.sessions s ≡ some ses → Distinct ses.requests
  pub free : (s : ℕ) → w.fresh ≤ s → w.sessions s ≡ none

-- The lists stay right where they and the sessions of the requests are as they were.
pub SessionInv-frame :
    (w v : Memory)
    → ((x : ℕ) → v.sessions x ≡ w.sessions x)
    → ((x : ℕ) → session_of (v.requests x) ≡ session_of (w.requests x))
    → w.fresh ≤ v.fresh
    → SessionInv w
    → SessionInv v
SessionInv-frame w v same view later inv = record {
  listed = λ r s e. let (ses, hs, c) = inv.listed r s (sym (view r) ∙ e) in (ses, same s ∙ hs, c);
  member = λ s ses r hs c. view r ∙ inv.member s ses r (sym (same s) ∙ hs) c;
  distinct = λ s ses hs. inv.distinct s ses (sym (same s) ∙ hs);
  free = λ s le. same s ∙ inv.free s (omega arith);
}

abbrev pub without_request : ℕ → Option Session → Option Session
without_request r none = none
without_request r (some ses) = some (record ses { requests = remove_item r ses.requests })

-- The sessions without a request, in the list of its session.
abbrev pub sessions_without : ℕ → Option ℕ → (ℕ → Option Session) → ℕ → Option Session
sessions_without r none f x = f x
sessions_without r (some s) f x = if x == s then without_request r (f x) else f x

without_request-some :
    (r : ℕ) (o : Option Session) (ses : Session)
    → without_request r o ≡ some ses
    → (old : Session) × (o ≡ some old) × (ses.requests ≡ remove_item r old.requests)
without_request-some r none ses e = absurd (ground arith)
without_request-some r (some old) ses e = (old, refl, ground arith)

module _ (w v : Memory) (r z : ℕ) (inv : SessionInv w)
    (frame : (x : ℕ) → v.requests x ≡ (if x == r then none else w.requests x))
    (at_z : (x : ℕ) → v.sessions x ≡ sessions_without r (some z) w.sessions x) where
  without-listed :
      (x s : ℕ)
      → session_of (v.requests x) ≡ some s
      → (ses : Session) × (v.sessions s ≡ some ses) × (contains x ses.requests ≡ true)
  without-listed x s e =
      let other : (x == r) ≡ false = ground (arith, frame x) in
      let (ses, hs, c) = inv.listed x s (ground (arith, frame x)) in
      let left = contains-remove_item x r ses.requests (inv.distinct s ses hs) in
      elim (Bool-cases (s == z)) [
        | inl here ↦ (
          record ses { requests = remove_item r ses.requests },
          ground (arith, at_z s),
          ground arith,
        )
        | inr there ↦ (ses, ground (arith, at_z s), c)
      ]

  without-member :
      (s : ℕ) (ses : Session) (x : ℕ)
      → v.sessions s ≡ some ses
      → contains x ses.requests ≡ true
      → session_of (w.requests r) ≡ some z
      → session_of (v.requests x) ≡ some s
  without-member s ses x hs c own = elim (Bool-cases (s == z)) [
    | inl here ↦
        let (old, ho, e) = without_request-some r (w.sessions s) ses (ground (arith, at_z s)) in
        let left = contains-remove_item x r old.requests (inv.distinct s old ho) in
        let within : contains x (remove_item r old.requests) ≡ true = rw e at c in
        let kept = inv.member s old x ho (ground arith) in ground (arith, frame x)
    | inr there ↦
        let kept = inv.member s ses x (ground (arith, at_z s)) c in ground (arith, frame x)
  ]

  without-Distinct : (s : ℕ) (ses : Session) → v.sessions s ≡ some ses → Distinct ses.requests
  without-Distinct s ses hs = elim (Bool-cases (s == z)) [
    | inl here ↦
        let (old, ho, e) = without_request-some r (w.sessions s) ses (ground (arith, at_z s)) in
        rw e (remove_item-Distinct r old.requests (inv.distinct s old ho))
    | inr there ↦ inv.distinct s ses (ground (arith, at_z s))
  ]

-- A request is gone from the memory and from its session.
pub SessionInv-without :
    (w v : Memory) (r : ℕ) (q : Request)
    → w.requests r ≡ some q
    → ((x : ℕ) → v.requests x ≡ (if x == r then none else w.requests x))
    → ((x : ℕ) → v.sessions x ≡ sessions_without r q.session w.sessions x)
    → v.fresh ≡ w.fresh
    → SessionInv w
    → SessionInv v
SessionInv-without w v r q hq frame same kept inv = elim (Option-cases q.session) [
  | inl alone ↦
      SessionInv-frame w v (λ x. ground (arith, same x)) (λ x. ground (arith, frame x))
        (omega arith) inv
  | inr (z, own) ↦
      let at_z =
        λ (x : ℕ). subst (λ o. v.sessions x ≡ sessions_without r o w.sessions x) own (same x) in
      record {
        listed = without-listed w v r z inv frame at_z;
        member = λ s ses x hs c. without-member w v r z inv frame at_z s ses x hs c (ground arith);
        distinct = without-Distinct w v r z inv frame at_z;
        free = λ s le. ground (arith, at_z s, inv.free s (omega arith));
      }
]
