-- ===== src/Pool/Active.antt =====
-- When the event source of the pool is there.
use trequests.Base.{
  ℕ, Bool, true, false, List, [], ◌∷◌, ◌++◌, Option, some, ◌≡◌, refl, sym, ◌∙◌, arith,
}
use trequests.Destroy.{clear_event}
use trequests.Request.Memory.{Pool, Event, request_event, deactivate_event, Memory, remove_item}

-- An event of the queue is to deactivate the pool.
abbrev pub deactivates : List Event → Bool
deactivates [] = false
deactivates (deactivate_event ∷ es) = true
deactivates (request_event e target ∷ es) = deactivates es

pub deactivates-append :
    (es : List Event) (e : ℕ) (target : Option ℕ)
    → deactivates (es ++ request_event e target ∷ []) ≡ deactivates es
deactivates-append [] e target = refl
deactivates-append (deactivate_event ∷ es) e target = refl
deactivates-append (request_event a t ∷ es) e target = deactivates-append es e target

pub deactivates-clear_event :
    (e : ℕ) (es : List Event) → deactivates (clear_event e es) ≡ deactivates es
unfolding clear_event
deactivates-clear_event e [] = refl
deactivates-clear_event e (deactivate_event ∷ es) = refl
deactivates-clear_event e (request_event a t ∷ es) = deactivates-clear_event e es

-- A pool that has requests is active, and no event is to deactivate it. An event that deactivates the
-- pool finds it.
pub record ActiveInv (w : Memory) : Type 0 where
  pub ending : deactivates w.queue ≡ true → (p : Pool) × (w.pool ≡ some p) × (p.requests ≡ [])
  pub active : (p : Pool) → w.pool ≡ some p → p.is_active ≡ false → p.requests ≡ []

pub ActiveInv-frame :
    (w v : Memory)
    → v.pool ≡ w.pool
    → deactivates v.queue ≡ deactivates w.queue
    → ActiveInv w
    → ActiveInv v
ActiveInv-frame w v same queue inv = record {
  ending = λ d. let (p, hp, e) = inv.ending (sym queue ∙ d) in (p, same ∙ hp, e);
  active = λ p hp off. inv.active p (sym same ∙ hp) off;
}

-- A pool that is still empty if it was, and as active.
pub ActiveInv-shrink :
    (w v : Memory) (p p' : Pool)
    → w.pool ≡ some p
    → v.pool ≡ some p'
    → p'.is_active ≡ p.is_active
    → (p.requests ≡ [] → p'.requests ≡ [])
    → deactivates v.queue ≡ deactivates w.queue
    → ActiveInv w
    → ActiveInv v
ActiveInv-shrink w v p p' hp hp' same empty queue inv = record {
  ending = λ d. let (x, hx, e) = inv.ending (sym queue ∙ d) in (p', hp', empty (ground arith));
  active = λ x hx off. let none_left = empty (inv.active p hp (ground arith)) in ground arith;
}

pub remove_item-empty : (r : ℕ) (xs : List ℕ) → xs ≡ [] → remove_item r xs ≡ []
unfolding remove_item
remove_item-empty r [] e = refl
remove_item-empty r (x ∷ xs) e = absurd (ground arith)
