-- ===== src/Auth/Accepts.antt =====
-- Which lists -auth_scheme accepts, and the flags that they stand for.
use Prim.Native.Nat.{bit_or-bitwise}
use trequests.Base.{
  ℕ, suc, ◌<◌, bit_or, List, [], ◌∷◌, Option, none, some, Bytes, length, ◌≡◌, ◌≢◌, refl, arith,
  Option-cases, inl, inr,
}
use trequests.Auth.{
  AuthOption, any, anysafe, only, basic, digest, digest_ie, bearer, negotiate, ntlm, aws_sigv4,
  CurlAuth, Parsed, ok, failed, scheme_flag, parse_switch, parse_loop, parse_option,
}

-- The options that the words are.
abbrev pub OptionsOf : (Bytes → Option AuthOption) → List Bytes → List AuthOption → Type 0
OptionsOf get_index [] [] = Unit {0}
OptionsOf get_index (w ∷ ws) (o ∷ os) = (get_index w ≡ some o) × OptionsOf get_index ws os
OptionsOf get_index _ _ = ⊥

-- Nothing but schemes: the union of their flags.
abbrev pub union : CurlAuth → ℕ → List AuthOption → Option ℕ
union c flags [] = some flags
union c flags (o ∷ os) = elim (scheme_flag c o) [
  | none ↦ none
  | some f ↦ union c (bit_or flags f) os
]

abbrev one : CurlAuth → AuthOption → Option ℕ
one c any = some c.any_flag
one c anysafe = some c.anysafe_flag
one c o = union c 0 (o ∷ [])

-- "only" with one scheme, in either order.
abbrev two : CurlAuth → AuthOption → AuthOption → Option ℕ
two c only p = union c (bit_or 0 c.only_flag) (p ∷ [])
two c o only = elim (scheme_flag c o) [
  | none ↦ none
  | some f ↦ some (bit_or (bit_or 0 f) c.only_flag)
]
two c o p = union c 0 (o ∷ p ∷ [])

-- The rules: "any" or "anysafe" on its own; "only" with one scheme; or schemes.
abbrev pub accepted : CurlAuth → List AuthOption → Option ℕ
accepted c [] = none
accepted c (o ∷ []) = one c o
accepted c (o ∷ p ∷ []) = two c o p
accepted c (o ∷ p ∷ q ∷ os) = union c 0 (o ∷ p ∷ q ∷ os)

abbrev pub to_option : Parsed ℕ → Option ℕ
to_option (ok r) = some r
to_option (failed e) = none

-- No scheme on its own makes the set that "only" makes.
abbrev pub OnlyDiffers : CurlAuth → Type 0
OnlyDiffers c = (o : AuthOption) (f : ℕ) → scheme_flag c o ≡ some f → f ≢ c.only_flag

zero-bit_or : (a : ℕ) → bit_or 0 a ≡ a
zero-bit_or a = bit_or-bitwise 0 a

module _ (c : CurlAuth) (get_index : Bytes → Option AuthOption) where
  switch_scheme :
      (objc i r : ℕ) (o : AuthOption) (f : ℕ)
      → scheme_flag c o ≡ some f
      → parse_switch c objc i r o ≡ ok (bit_or r f)
  unfolding parse_switch scheme_flag
  switch_scheme objc i r any f e = cc
  switch_scheme objc i r _ f e = ground arith

  switch_many :
      (objc i r : ℕ) (o : AuthOption)
      → scheme_flag c o ≡ none
      → 2 < objc
      → to_option (parse_switch c objc i r o) ≡ none
  unfolding parse_switch scheme_flag
  switch_many objc i r any e h = ground arith
  switch_many objc i r _ e h = ground arith

  loop-union :
      (objc i r : ℕ) (words : List Bytes) (os : List AuthOption)
      → OptionsOf get_index words os
      → 2 < objc
      → to_option (parse_loop c get_index objc i r words) ≡ union c r os
  unfolding parse_loop
  loop-union objc i r [] [] k h = refl
  loop-union objc i r [] (o ∷ os) k h = absurd k
  loop-union objc i r (w ∷ ws) [] k h = absurd k
  loop-union objc i r (w ∷ ws) (o ∷ os) k h = elim (Option-cases (scheme_flag c o)) [
    | inl none_here ↦ ground (arith, switch_many objc i r o none_here h)
    | inr (f, e) ↦
        ground
          (arith, switch_scheme objc i r o f e, loop-union objc (suc i) (bit_or r f) ws os k.1 h)
  ]

  parse-one :
      (w : Bytes) (o : AuthOption)
      → get_index w ≡ some o
      → to_option (parse_option c get_index (w ∷ [])) ≡ accepted c (o ∷ [])
  unfolding parse_option scheme_flag
  parse-one w any k = rw k refl
  parse-one w _ k = rw k refl

  after_only :
      (w v : Bytes) (p : AuthOption)
      → get_index w ≡ some only
      → get_index v ≡ some p
      → to_option (parse_option c get_index (w ∷ v ∷ [])) ≡ accepted c (only ∷ p ∷ [])
  unfolding parse_option scheme_flag
  after_only w v any k l = ground arith
  after_only w v _ k l = ground (arith, zero-bit_or c.only_flag)

  before_only :
      (w v : Bytes) (o : AuthOption)
      → get_index w ≡ some o
      → get_index v ≡ some only
      → OnlyDiffers c
      → o ≢ only
      → to_option (parse_option c get_index (w ∷ v ∷ [])) ≡ accepted c (o ∷ only ∷ [])
  unfolding parse_option scheme_flag
  before_only w v any k l d ne = ground arith
  before_only w v anysafe k l d ne = ground arith
  before_only w v only k l d ne = absurd (ne refl)
  before_only w v basic k l d ne =
      ground (arith, zero-bit_or c.basic_flag, d basic c.basic_flag refl)
  before_only w v digest k l d ne =
      ground (arith, zero-bit_or c.digest_flag, d digest c.digest_flag refl)
  before_only w v digest_ie k l d ne =
      ground (arith, zero-bit_or c.digest_ie_flag, d digest_ie c.digest_ie_flag refl)
  before_only w v bearer k l d ne =
      ground (arith, zero-bit_or c.bearer_flag, d bearer c.bearer_flag refl)
  before_only w v negotiate k l d ne =
      ground (arith, zero-bit_or c.negotiate_flag, d negotiate c.negotiate_flag refl)
  before_only w v ntlm k l d ne = ground (arith, zero-bit_or c.ntlm_flag, d ntlm c.ntlm_flag refl)
  before_only w v aws_sigv4 k l d ne =
      ground (arith, zero-bit_or c.aws_sigv4_flag, d aws_sigv4 c.aws_sigv4_flag refl)

  parse-two :
      (w v : Bytes) (o p : AuthOption)
      → get_index w ≡ some o
      → get_index v ≡ some p
      → OnlyDiffers c
      → to_option (parse_option c get_index (w ∷ v ∷ [])) ≡ accepted c (o ∷ p ∷ [])
  unfolding parse_option scheme_flag
  parse-two w v any p k l d = ground arith
  parse-two w v anysafe p k l d = ground arith
  parse-two w v only p k l d = after_only w v p k l
  parse-two w v o any k l d = ground arith
  parse-two w v o anysafe k l d = ground arith
  parse-two w v o only k l d = before_only w v o k l d (ground arith)
  parse-two w v o p k l d = ground arith

-- -auth_scheme takes exactly the lists of the rules, of any length, and makes of them the flags
-- of the rules, for words that are all options and flags of which no scheme's is that of "only".
pub parse_option_lem :
    (c : CurlAuth) (get_index : Bytes → Option AuthOption) (words : List Bytes)
    (os : List AuthOption)
    → OptionsOf get_index words os
    → OnlyDiffers c
    → to_option (parse_option c get_index words) ≡ accepted c os
parse_option_lem c get_index [] [] k d = unfold parse_option in refl
parse_option_lem c get_index (w ∷ []) (o ∷ []) k d = parse-one c get_index w o k.0
parse_option_lem c get_index (w ∷ v ∷ []) (o ∷ p ∷ []) k d =
    parse-two c get_index w v o p k.0 k.1.0 d
parse_option_lem c get_index (w ∷ v ∷ u ∷ ws) (o ∷ p ∷ q ∷ os) k d =
    unfold parse_option in
    loop-union c get_index (length (w ∷ v ∷ u ∷ ws)) 0 0 (w ∷ v ∷ u ∷ ws) (o ∷ p ∷ q ∷ os) k
      (omega arith)
parse_option_lem c get_index [] (o ∷ os) k d = absurd k
parse_option_lem c get_index (w ∷ ws) [] k d = absurd k
parse_option_lem c get_index (w ∷ []) (o ∷ p ∷ os) k d = absurd k.1
parse_option_lem c get_index (w ∷ v ∷ ws) (o ∷ []) k d = absurd k.1
parse_option_lem c get_index (w ∷ v ∷ []) (o ∷ p ∷ q ∷ os) k d = absurd k.1.1
parse_option_lem c get_index (w ∷ v ∷ u ∷ ws) (o ∷ p ∷ []) k d = absurd k.1.1
