-- ===== src/Response/Headers/Collected.antt =====
-- All values of a header are collected.
use trequests.Base.{
  ℕ, zero, suc, ◌+◌, ◌-◌, List, [], ◌∷◌, Option, none, some, Bytes, ◌≡◌, refl, arith, length, ap,
  ◌∙◌,
}
use trequests.Response.Headers.{Header, header_values, get_header}

-- The value at an index.
abbrev pub get_elem? : List Bytes → ℕ → Option Bytes
get_elem? [] i = none
get_elem? (v ∷ vs) zero = some v
get_elem? (v ∷ vs) (suc i) = get_elem? vs i

abbrev header_of : ℕ → Option Bytes → Option Header
header_of amount none = none
header_of amount (some v) = some (record { value = v; amount = amount })

-- What `curl_easy_header` gives for a name that the response has with the values `vs`.
abbrev pub headers_at : List Bytes → ℕ → Option Header
headers_at vs i = header_of (length vs) (get_elem? vs i)

add_suc : (i k : ℕ) → suc i + k ≡ i + suc k
add_suc i k = omega arith

one_add : (k : ℕ) → 1 + k ≡ suc k
one_add k = omega arith

header_values-rest :
    (all vs : List Bytes) (i : ℕ)
    → ((k : ℕ) → get_elem? all (i + k) ≡ get_elem? vs k)
    → header_values (headers_at all) (length vs) i ≡ vs
unfolding header_values
header_values-rest all [] i at_rest = refl
header_values-rest all (v ∷ vs) i at_rest =
    let here : get_elem? all i ≡ some v = ap (get_elem? all) (omega arith) ∙ at_rest 0 in
    let behind = λ (k : ℕ). ap (get_elem? all) (add_suc i k) ∙ at_rest (suc k) in
    ground (arith, here, header_values-rest all vs (suc i) behind)

-- For a name that the response has, all the values are returned, in their order; for any other
-- name there is no result.
pub get_header_lem :
    (v : Bytes) (vs : List Bytes)
    → (get_header (headers_at (v ∷ vs)) ≡ some (v ∷ vs)) × (get_header (headers_at []) ≡ none)
unfolding get_header
get_header_lem v vs =
    let count : suc (length vs) - 1 ≡ length vs = omega arith in
    let behind = λ (k : ℕ). ap (get_elem? (v ∷ vs)) (one_add k) in
    (rw count (ap (λ t. some (v ∷ t)) (header_values-rest (v ∷ vs) vs 1 behind)), refl)
