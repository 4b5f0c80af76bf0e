-- ===== src/Tests/Texts.antt =====
-- The theorems on the texts of the protocol at concrete texts.
use trequests.Auth.Accepts.{parse_option_lem, accepted, to_option}
use trequests.Auth.{parse_option, basic, digest, scheme_flag, AuthOption}
use trequests.Base.{
  ℕ, ◌≤◌, [], ◌∷◌, none, some, Bytes, codes, ◌≡◌, ◌≢◌, refl, arith, take, map, to_lower, is_digit,
  is_space, length,
}
use trequests.Tests.Fixtures.{same_text, strnequal, percent, escape_percent, curl_flags, auth_index}
use trequests.Text.Charset.Fixed.{convert-idempotent}
use trequests.Text.Charset.Names.{convert-numbered}
use trequests.Text.Charset.Unconverted.{convert-shift, convert-iso_2022}
use trequests.Text.Charset.{convert_charset_to_encoding}
use trequests.Text.ContentType.Bounds.{parse_content_type_bounds}
use trequests.Text.ContentType.Overread.{parse-behind, parse-closed}
use trequests.Text.ContentType.Values.{parse-token, parse-quoted}
use trequests.Text.ContentType.{parse_content_type, read_type}
use trequests.Text.Urlencode.Chunks.{urlencode_lem}
use trequests.Text.Urlencode.{urlencode}

convert-idempotent_example :
    convert_charset_to_encoding (convert_charset_to_encoding (codes "windows-1252"))
    ≡ convert_charset_to_encoding (codes "windows-1252")
convert-idempotent_example = convert-idempotent (codes "windows-1252")

convert-numbered_example :
    (convert_charset_to_encoding (codes "iso-8859-15") ≡ codes "iso8859-15")
    × (convert_charset_to_encoding (codes "iso8859-15") ≡ codes "iso8859-15")
    × (convert_charset_to_encoding (codes "windows-15") ≡ codes "cp15")
    × (convert_charset_to_encoding (codes "windows15") ≡ codes "cp15")
    × (convert_charset_to_encoding (codes "cp-15") ≡ codes "cp15")
    × (convert_charset_to_encoding (codes "cp15") ≡ codes "cp15")
convert-numbered_example = convert-numbered b'1' (codes "5") (unfold is_digit in refl)

convert-shift_example : convert_charset_to_encoding (codes "shift_jis") ≡ codes "shift_jis"
convert-shift_example = convert-shift (codes "_jis")

convert-iso_2022_example :
    (convert_charset_to_encoding (codes "iso2022-jp") ≡ codes "iso2022-jp")
    × (convert_charset_to_encoding (codes "iso-2022-jp") ≡ codes "iso-2022-jp")
convert-iso_2022_example = convert-iso_2022 (codes "jp")

media_type : Bytes
media_type = (read_type [] (codes "text")).0

media_type-parse : parse_content_type strnequal (codes "text") ≡ some (media_type, [])
unfolding media_type
media_type-parse =
    (parse-closed strnequal (codes "text") b'q' [] (refl, (refl, (refl, (refl, tt)))) (refl, tt)
      (unfold is_space in refl) (unfold same_text in refl)).0

parse_content_type_bounds_example : (length media_type ≤ 128) × (length {A = ℕ} [] ≤ 32)
parse_content_type_bounds_example =
    parse_content_type_bounds strnequal (codes "text") media_type [] media_type-parse

parse-behind_example : parse_content_type strnequal (codes "text/html;q=1") ≡ none
parse-behind_example =
    parse-behind strnequal (codes "text/html") b'q' (codes "=1")
      (refl, (refl, (refl, (refl, (refl, (refl, (refl, (refl, (refl, tt)))))))))
      (refl, (refl, (refl, tt))) (unfold is_space in refl) (unfold same_text in refl)

parse-closed_example :
    (parse_content_type strnequal (codes "text") ≡ some ((read_type [] (codes "text")).0, []))
    × (parse_content_type strnequal (codes "text;q=1;")
        ≡ some ((read_type [] (codes "text;q=1;")).0, []))
parse-closed_example =
    parse-closed strnequal (codes "text") b'q' (codes "=1") (refl, (refl, (refl, (refl, tt))))
      (refl, (refl, (refl, tt))) (unfold is_space in refl) (unfold same_text in refl)

parse-token_example :
    parse_content_type strnequal (codes "A/b; charset=UTF8")
    ≡ some (take 128 (map to_lower (codes "A/b")), take 32 (map to_lower (codes "UTF8")))
parse-token_example =
    parse-token strnequal (codes "A/b") b'U' (codes "TF8")
      (unfold is_space in ((refl, refl), ((refl, refl), ((refl, refl), tt))))
      (unfold is_space in ((refl, refl), ((refl, refl), ((refl, refl), ((refl, refl), tt))))) refl
      (unfold same_text in refl)

parse-quoted_example :
    parse_content_type strnequal (codes "A/b; charset=\"U 8\";q")
    ≡ some (take 128 (map to_lower (codes "A/b")), take 32 (map to_lower (codes "U 8")))
parse-quoted_example =
    parse-quoted strnequal (codes "A/b") (codes "U 8") (codes ";q")
      (unfold is_space in ((refl, refl), ((refl, refl), ((refl, refl), tt))))
      (refl, (refl, (refl, tt))) (unfold same_text in refl)

urlencode_lem_example : urlencode escape_percent (codes "a b") ≡ some (codes "a%20b")
urlencode_lem_example = urlencode_lem escape_percent percent (codes "a b") (λ s pos le. refl)

flags_differ : (o : AuthOption) (f : ℕ) → scheme_flag curl_flags o ≡ some f → f ≢ 2147483648
unfolding scheme_flag
flags_differ o f e = ground arith

parse_option_lem_example :
    to_option (parse_option curl_flags auth_index (codes "basic" ∷ codes "digest" ∷ []))
    ≡ accepted curl_flags (basic ∷ digest ∷ [])
parse_option_lem_example =
    parse_option_lem curl_flags auth_index (codes "basic" ∷ codes "digest" ∷ [])
      (basic ∷ digest ∷ []) (unfold auth_index in (refl, (refl, tt))) flags_differ
