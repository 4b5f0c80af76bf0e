-- ===== src/Request/Memory.antt =====
-- The memory of one thread: the live requests and sessions by address, the thread's pool, and
-- Tcl's event queue. A call that reads or writes what is not live is a fault, `none`.
use trequests.Auth.{RequestAuth}
use trequests.Base.{
  ℕ, ℤ, Bool, true, false, List, [], ◌∷◌, Option, none, some, Bytes, if◌then◌else◌, ◌==◌, ◌≡◌, ap,
}
use trequests.Request.Settings.{Settings}

pub data RequestState : Type 0 where
  created inprogress done error : RequestState

-- `treq_RequestType`. `pool` says that the field is not NULL: a thread has one pool. `cmd_token`
-- says that the handle command exists.
pub record Request : Type 0 where
  pub settings : Settings
  pub open settings use {callback, async}
  pub state : RequestState
  pub error : Option Bytes
  pub curl_error : Bytes
  pub pool : Bool
  pub session : Option ℕ
  pub callback_event : Option ℕ
  pub cmd_token : Bool
  pub is_dead : Bool
  pub content : Option Bytes

-- `treq_PoolType`, with its linked list as a list, newest first.
pub record Pool : Type 0 where
  pub requests : List ℕ
  pub is_dead : Bool
  pub is_active : Bool
  pub need_refresh : Bool
  pub active_connection_count : ℤ

-- The settings of `treq_SessionType`, the defaults of its requests; -1 says that an integer
-- is not set.
pub record SessionSettings : Type 0 where
  pub headers : Option Bytes
  pub auth : Option RequestAuth
  pub allow_redirects : ℤ
  pub verbose : ℤ
  pub callback : Option Bytes
  pub callback_debug : Option Bytes
  pub accept : Option Bytes
  pub content_type : Option Bytes
  pub timeout : ℤ
  pub timeout_connect : ℤ
  pub verify : ℤ
  pub verify_host : ℤ
  pub verify_peer : ℤ
  pub verify_status : ℤ

pub record Session : Type 0 where
  pub settings : SessionSettings
  pub requests : List ℕ

-- `treq_RequestEvent`, whose `request` is `none` when it is NULL, and `treq_PoolDeactivateEvent`.
pub data Event : Type 0 where
  request_event : ℕ → Option ℕ → Event
  deactivate_event : Event

-- `fresh` is the next address that is given out. `ran` holds the requests whose callback was
-- run, newest first.
pub record Memory : Type 0 where
  pub requests : ℕ → Option Request
  pub sessions : ℕ → Option Session
  pub pool : Option Pool
  pub queue : List Event
  pub fresh : ℕ
  pub interp_deleted : Bool
  pub ran : List ℕ

abbrev pub M : Type 0 → Type 0
M A = Memory → Option (A × Memory)

infixl 5 ◌>>=◌ ◌>>◌
abbrev pub ◌>>=◌ : {A B : Type 0} → M A → (A → M B) → M B
◌>>=◌ m f w = elim (m w) [ none ↦ none | some (a, w') ↦ f a w' ]

abbrev pub ◌>>◌ : {B : Type 0} → M (Unit {0}) → M B → M B
◌>>◌ m k = m >>= λ _. k

abbrev pub return : {A : Type 0} → A → M A
return a w = some (a, w)

abbrev pub skip : M (Unit {0})
skip = return tt

abbrev pub fault : {A : Type 0} → M A
fault w = none

abbrev pub update {ℓ} : {A : Type ℓ} → (ℕ → Option A) → ℕ → Option A → ℕ → Option A
update f a v b = if b == a then v else f b

-- The result of a read, with the memory as it was.
abbrev located : {A : Type 0} → Memory → Option A → Option (A × Memory)
located w none = none
located w (some a) = some (a, w)

-- A branch of a function that may change the memory.
infix 1 when◌then◌else◌
abbrev pub when◌then◌else◌ : {A : Type 0} → Bool → M A → M A → M A
when◌then◌else◌ b m k w = elim b [ true ↦ m w | false ↦ k w ]

abbrev pub load_request : ℕ → M Request
load_request r w = located w (w.requests r)

abbrev pub store_request : ℕ → Request → M (Unit {0})
store_request r q w = some (tt, record w { requests = update w.requests r (some q) })

abbrev pub load_session : ℕ → M Session
load_session s w = located w (w.sessions s)

abbrev pub store_session : ℕ → Session → M (Unit {0})
store_session s q w = some (tt, record w { sessions = update w.sessions s (some q) })

abbrev pub load_pool : M Pool
load_pool w = located w w.pool

abbrev pub store_pool : Pool → M (Unit {0})
store_pool p w = some (tt, record w { pool = some p })

-- `treq_LinkedListRemoveByItem`: the first node of the item goes.
unfoldable pub remove_item : ℕ → List ℕ → List ℕ
remove_item r [] = []
remove_item r (x ∷ xs) = if x == r then xs else x ∷ remove_item r xs

-- The call returns, with no fault, and the memory that it leaves satisfies `P`.
abbrev pub Leaves : {A : Type 0} → Option (A × Memory) → (Memory → Type 0) → Type 0
Leaves none P = ⊥
Leaves (some (_, w)) P = P w

-- `Leaves` follows from what holds of the memory that is left.
pub Leaves-weaken :
    {A : Type 0} (o : Option (A × Memory)) {P Q : Memory → Type 0}
    → Leaves o P
    → ((w : Memory) → P w → Q w)
    → Leaves o Q
Leaves-weaken none l f = absurd l
Leaves-weaken (some (a, w)) l f = f w l

-- Two facts about what one call leaves.
pub Leaves-both :
    {A : Type 0} (o : Option (A × Memory)) (P Q : Memory → Type 0)
    → Leaves o P
    → Leaves o Q
    → Leaves o (λ w. P w × Q w)
Leaves-both none P Q l k = l
Leaves-both (some (a, w)) P Q l k = (l, k)

-- The rule for a sequence of two calls.
pub Leaves-bind :
    {A B : Type 0} (m : M A) (f : A → M B) (w : Memory) {P : Memory → Type 0} (Q : Memory → Type 0)
    → Leaves (m w) P
    → ((a : A) (v : Memory) → P v → Leaves (f a v) Q)
    → Leaves ((m >>= f) w) Q
Leaves-bind {A} {B} m f w {P} Q l k = go (m w) l
  where
    go :
        (o : Option (A × Memory))
        → Leaves o P
        → Leaves (elim o as (λ _. Option (B × Memory)) [ none ↦ none | some (a, v) ↦ f a v ]) Q
    go none h = absurd h
    go (some (a, v)) h = k a v h

-- A sequence whose first call returns.
pub bind-some :
    {A B : Type 0} (m : M A) (f : A → M B) (w v : Memory) (a : A)
    → m w ≡ some (a, v)
    → (m >>= f) w ≡ f a v
bind-some {A} {B} m f w v a e =
    ap (λ o. elim o as (λ _. Option (B × Memory)) [ none ↦ none | some (b, u) ↦ f b u ]) e
