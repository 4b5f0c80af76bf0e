-- ===== src/Text/Charset/Fixed.antt =====
-- The names that the conversion gives are names that it leaves alone.
use trequests.Base.{
  subst, ap, inl, inr, Option-cases, drop, none, some, Option, true, [], ◌∷◌, ◌++◌, ◌≡◌, refl,
  arith, Bytes, codes, str_eq, starts_with, is_digit,
}
use trequests.Text.Charset.Unconverted.{not_both}
use trequests.Text.Charset.{
  latin_encoding, latin_number, windows_number, numbered, convert_iso, convert_windows,
  convert_shift, convert_name, or_else, digit_at, check_digits, convert_charset_to_encoding,
  skip_char,
}

-- A name of the form that the code builds.
data IsEncoding : Bytes → Type 0 where
  iso : (p : Bytes) → check_digits p p ≡ true → IsEncoding (codes "iso8859-" ++ p)
  cp : (p : Bytes) → check_digits p p ≡ true → IsEncoding (codes "cp" ++ p)
  ascii : (s : Bytes) → s ≡ codes "ascii" → IsEncoding s

check_digits-skip : (p : Bytes) → check_digits p p ≡ true → skip_char b'-' p ≡ p
unfolding check_digits digit_at is_digit skip_char
check_digits-skip [] h = refl
check_digits-skip (c ∷ p) h = ground arith

IsEncoding-fixed : (s : Bytes) → IsEncoding s → convert_charset_to_encoding s ≡ s
unfolding convert_charset_to_encoding starts_with str_eq
IsEncoding-fixed s (iso p h) = ground (arith)
IsEncoding-fixed s (cp p h) = ground (arith, check_digits-skip p h)
IsEncoding-fixed s (ascii _ e) = rw e refl

nine_checks : check_digits (codes "9") (codes "9") ≡ true
unfolding check_digits digit_at is_digit
nine_checks = refl

one_checks : check_digits (codes "1") (codes "1") ≡ true
unfolding check_digits digit_at is_digit
one_checks = refl

data Builds : Option Bytes → Type 0 where
  kept : Builds none
  built : {r : Bytes} → IsEncoding r → Builds (some r)

Builds-some : {o : Option Bytes} {r : Bytes} → Builds o → o ≡ some r → IsEncoding r
Builds-some kept e = cc
Builds-some (built h) e = subst IsEncoding (ap (λ o. or_else o []) e) h

latin_encoding-Builds : (p : Bytes) → Builds (latin_encoding p)
unfolding latin_encoding
latin_encoding-Builds p = ground (
  arith,
  kept,
  built (iso (codes "9") nine_checks),
  built (iso (codes "1") one_checks),
  λ (h : check_digits p p ≡ true). built (iso p h),
)

iso_numbered-Builds : (p : Bytes) → Builds (numbered (codes "iso8859-") p)
unfolding numbered
iso_numbered-Builds p = ground (arith, kept, λ (h : check_digits p p ≡ true). built (iso p h))

convert_windows-Builds : (s : Bytes) → Builds (convert_windows s)
unfolding convert_windows numbered
convert_windows-Builds s =
    let p = windows_number s in
    ground (arith, kept, λ (h : check_digits p p ≡ true). built (cp p h))

convert_iso-Builds : (s : Bytes) → Builds (convert_iso s)
unfolding convert_iso
convert_iso-Builds s =
    rw (not_both (drop 5 s))
      (ground (arith, kept, iso_numbered-Builds (drop 5 s), latin_encoding-Builds (latin_number s)))

convert_shift-none : (s : Bytes) → starts_with s (codes "shift") ≡ true → convert_shift s ≡ none
unfolding convert_shift starts_with str_eq
convert_shift-none [] h = cc
convert_shift-none (c ∷ s) h = ground arith

convert_name-Builds : (s : Bytes) → Builds (convert_name s)
unfolding convert_name
convert_name-Builds s = ground (
  arith,
  kept,
  built (ascii (codes "ascii") refl),
  convert_iso-Builds (skip_char b'-' (drop 3 s)),
  convert_shift-none s,
  convert_windows-Builds s,
  latin_encoding-Builds (latin_number s),
)

-- Converting twice is converting once.
pub convert-idempotent :
    (s : Bytes)
    → convert_charset_to_encoding (convert_charset_to_encoding s) ≡ convert_charset_to_encoding s
convert-idempotent s = elim (Option-cases (convert_name s)) [
  | inl e ↦
      (let same : convert_charset_to_encoding s ≡ s = unfold convert_charset_to_encoding in rw e in
        rw same same)
  | inr (r, e) ↦
      (let same : convert_charset_to_encoding s ≡ r = unfold convert_charset_to_encoding in rw e in
        rw same (IsEncoding-fixed r (Builds-some (convert_name-Builds s) e)))
]
