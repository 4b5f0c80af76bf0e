-- ===== src/Pool/Members.antt =====
-- The linked list of a pool: what `treq_LinkedListRemoveByItem` takes out.
use trequests.Base.{
  ℕ, suc, Bool, true, false, List, [], ◌∷◌, ◌≡◌, arith, if◌then◌else◌, ◌==◌, length,
}
use trequests.Request.Memory.{remove_item}

abbrev pub contains : ℕ → List ℕ → Bool
contains r [] = false
contains r (x ∷ xs) = if x == r then true else contains r xs

abbrev pub Distinct : List ℕ → Type 0
Distinct [] = Unit {0}
Distinct (x ∷ xs) = (contains x xs ≡ false) × Distinct xs

pub length-remove_item :
    (r : ℕ) (xs : List ℕ) → contains r xs ≡ true → suc (length (remove_item r xs)) ≡ length xs
unfolding remove_item
length-remove_item r [] h = absurd (ground arith)
length-remove_item r (x ∷ xs) h = ground (arith, length-remove_item r xs)

pub contains-remove_item :
    (y r : ℕ) (xs : List ℕ)
    → Distinct xs
    → contains y (remove_item r xs) ≡ (if y == r then false else contains y xs)
unfolding remove_item
contains-remove_item y r [] d = ground arith
contains-remove_item y r (x ∷ xs) d = ground (arith, contains-remove_item y r xs d.1)

pub remove_item-Distinct : (r : ℕ) (xs : List ℕ) → Distinct xs → Distinct (remove_item r xs)
unfolding remove_item
remove_item-Distinct r [] d = tt
remove_item-Distinct r (x ∷ xs) d =
    ground (arith, remove_item-Distinct r xs d.1, contains-remove_item x r xs d.1)
