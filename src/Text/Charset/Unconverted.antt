-- ===== src/Text/Charset/Unconverted.antt =====
-- The charset names that the code means to convert and leaves as they are.
use trequests.Base.{
  refl, not, ◌||◌, true, [], ◌∷◌, str_eq, ◌++◌, ◌≡◌, arith, Bytes, codes, starts_with,
}
use trequests.Text.Charset.{convert_charset_to_encoding}

-- No charset that begins with "shift" is converted, "shift_jis" and "shift-jis" included: the
-- branch tests for "jis" at the start of the name and not behind the "shift".
pub convert-shift :
    (rest : Bytes) → convert_charset_to_encoding (codes "shift" ++ rest) ≡ codes "shift" ++ rest
unfolding convert_charset_to_encoding starts_with str_eq
convert-shift rest = ground arith

pub not_both : (x : Bytes) → (not (str_eq x (codes "jp")) || not (str_eq x (codes "kr"))) ≡ true
unfolding str_eq
not_both [] = refl
not_both (c ∷ []) = ground arith
not_both (c ∷ d ∷ x) = ground arith

-- No charset "iso2022-X" or "iso-2022-X" is converted, X = "jp" and X = "kr" included: the
-- guard asks for both at once.
pub convert-iso_2022 :
    (x : Bytes)
    → (convert_charset_to_encoding (codes "iso2022-" ++ x) ≡ codes "iso2022-" ++ x)
      × (convert_charset_to_encoding (codes "iso-2022-" ++ x) ≡ codes "iso-2022-" ++ x)
unfolding convert_charset_to_encoding starts_with
convert-iso_2022 x = (rw (not_both x) refl, rw (not_both x) refl)
