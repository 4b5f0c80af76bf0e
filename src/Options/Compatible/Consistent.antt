-- ===== src/Options/Compatible/Consistent.antt =====
-- What holds of options that pass the checks.
use trequests.Base.{
  ap, subst, ℕ, Bool, true, false, not, ◌&&◌, List, [], ◌∷◌, Option, none, Bytes, if◌then◌else◌,
  ◌≡◌, refl, arith, is_some, ◌+◌, ◌≤◌, ◌⊎◌,
}
use trequests.Options.Compatible.{
  post_options, find_given, find_other, allows_data, check_first, check_data, check_mode,
  check_scheme, check_aws, validate_options, below_minus_one,
}
use trequests.Options.Platform.{Platform, OptionName, Checked, ok, failed, ◌>>=◌}
use trequests.Options.Validate.{RawOptions, Options, validate_each}
use trequests.Request.Settings.{Method}

-- How many of the options are given.
abbrev pub given : List (OptionName × Bool) → ℕ
given [] = 0
given ((n, b) ∷ os) = (if b then 1 else 0) + given os

find_given-given : (os : List (OptionName × Bool)) → find_given os ≡ none → given os ≡ 0
unfolding find_given
find_given-given [] e = refl
find_given-given ((n, b) ∷ os) e = ground (arith, find_given-given os)

find_other-given : (os : List (OptionName × Bool)) → find_other os ≡ none → given os ≤ 1
unfolding find_other
find_other-given [] e = omega arith
find_other-given ((n, b) ∷ os) e = ground (arith, find_other-given os, find_given-given os)

check_first_sound :
    (method : Method) (os : List (OptionName × Bool))
    → check_first method (find_given os) (find_other os) ≡ ok tt
    → (given os ≤ 1) × ((allows_data method ≡ true) ⊎ (given os ≡ 0))
unfolding check_first
check_first_sound method os e = ground (arith, find_other-given os, find_given-given os)

-- What the checks promise of the options: at most one of them stands for the data, and only where
-- the method takes data; the query string is given in one way; a simple request is not
-- asynchronous, and a callback is given only to an asynchronous one; no timeout is below -1.
unfoldable pub IsConsistent : Method → Options → Type 0
IsConsistent method o =
    (given (post_options o) ≤ 1)
    × ((allows_data method ≡ true) ⊎ (given (post_options o) ≡ 0))
    × ((is_some o.params_value && is_some o.params_raw_value) ≡ false)
    × ((o.async && o.simple) ≡ false)
    × ((not o.async && is_some o.callback_value) ≡ false)
    × (below_minus_one o.timeout_value ≡ false)
    × (below_minus_one o.timeout_connect_value ≡ false)

check_data_sound :
    (method : Method) (o : Options)
    → check_data method o ≡ ok tt
    → (check_first method (find_given (post_options o)) (find_other (post_options o)) ≡ ok tt)
      × ((is_some o.params_value && is_some o.params_raw_value) ≡ false)
unfolding check_data
check_data_sound method o e = ground arith

check_mode_sound :
    (o : Options)
    → check_mode o ≡ ok tt
    → ((o.async && o.simple) ≡ false)
      × ((not o.async && is_some o.callback_value) ≡ false)
      × (below_minus_one o.timeout_value ≡ false)
      × (below_minus_one o.timeout_connect_value ≡ false)
unfolding check_mode
check_mode_sound o e = ground arith

pub some_result :
    {A B : Type 0} (m : Checked A) (f : A → Checked B) (b : B)
    → (m >>= f) ≡ ok b
    → (a : A) × (m ≡ ok a) × (f a ≡ ok b)
some_result (ok a) f b e = (a, refl, e)
some_result (failed x) f b e = ground arith

options_of : Checked (Options × Option ℕ × Option Bytes) → Options → Options
options_of (ok r) d = r.0
options_of (failed e) d = d

module _ (p : Platform) where
  -- Options that are accepted are consistent with each other and with the method, and they are the
  -- result of the checks of the single options.
  pub validate_options-IsConsistent :
      (method : Method) (raw : RawOptions) (o : Options) (s : Option ℕ) (a : Option Bytes)
      → validate_options p method raw ≡ ok (o, s, a)
      → (validate_each p raw ≡ ok o) × IsConsistent method o
  unfolding validate_options IsConsistent options_of
  validate_options-IsConsistent method raw o s a e =
      let (o1, each, e1) = some_result (validate_each p raw) _ (o, s, a) e in
      let (_, checked, e2) = some_result (check_data method o1) _ (o, s, a) e1 in
      let (_, _, e3) = some_result (check_scheme p o1.auth_scheme_raw) _ (o, s, a) e2 in
      let (_, _, e4) = some_result (check_aws p o1.auth_aws_sigv4_raw) _ (o, s, a) e3 in
      let (_, mode, e5) = some_result (check_mode o1) _ (o, s, a) e4 in
      let same = ap (λ r. options_of r o) e5 in
      let (first, params) = check_data_sound method o1 checked in
      let (simple, callback, t, c) = check_mode_sound o1 mode in
      let sound = check_first_sound method (post_options o1) first in
      subst (λ x. (validate_each p raw ≡ ok x) × IsConsistent method x) same
        (each, (sound.0, sound.1, params, simple, callback, t, c))
