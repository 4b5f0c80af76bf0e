-- ===== src/Text/Charset/Names.antt =====
-- The charset names that are converted, and to what.
use trequests.Base.{ℕ, true, [], ◌∷◌, ◌++◌, ◌≡◌, refl, arith, Bytes, codes, starts_with, is_digit}
use trequests.Text.Charset.{digit_at, check_digits, convert_charset_to_encoding}

-- What the loop really checks: its first byte.
pub check_digits_lem : (ptr tmp : Bytes) → digit_at ptr ≡ true → check_digits ptr tmp ≡ true
unfolding check_digits
check_digits_lem ptr [] h = refl
check_digits_lem ptr (t ∷ tmp) h = ground (arith, check_digits_lem ptr tmp h)

-- A number part that begins with a digit is kept as it is, whatever stands behind that digit:
-- "iso8859-N" and "iso-8859-N" become "iso8859-N", and "cpN", "cp-N", "windowsN" and
-- "windows-N" become "cpN".
pub convert-numbered :
    (d : ℕ) (rest : Bytes)
    → is_digit d ≡ true
    → (convert_charset_to_encoding (codes "iso-8859-" ++ (d ∷ rest))
        ≡ codes "iso8859-" ++ (d ∷ rest))
      × (convert_charset_to_encoding (codes "iso8859-" ++ (d ∷ rest))
          ≡ codes "iso8859-" ++ (d ∷ rest))
      × (convert_charset_to_encoding (codes "windows-" ++ (d ∷ rest)) ≡ codes "cp" ++ (d ∷ rest))
      × (convert_charset_to_encoding (codes "windows" ++ (d ∷ rest)) ≡ codes "cp" ++ (d ∷ rest))
      × (convert_charset_to_encoding (codes "cp-" ++ (d ∷ rest)) ≡ codes "cp" ++ (d ∷ rest))
      × (convert_charset_to_encoding (codes "cp" ++ (d ∷ rest)) ≡ codes "cp" ++ (d ∷ rest))
unfolding convert_charset_to_encoding starts_with digit_at is_digit
convert-numbered d rest h =
    let run = check_digits_lem (d ∷ rest) (d ∷ rest) h in
    (
      ground (arith, run),
      ground (arith, run),
      ground (arith, run),
      ground (arith, run),
      ground (arith, run),
      ground (arith, run),
    )
