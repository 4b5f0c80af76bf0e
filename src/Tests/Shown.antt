-- ===== src/Tests/Shown.antt =====
-- The theorems on what a request shows of its response, and on the testing mode.
use trequests.Base.{
  ℕ, true, List, [], ◌∷◌, ◌++◌, Option, none, some, Bytes, codes, length, All, arith, map, take,
  to_lower, is_space, ◌≡◌, refl,
}
use trequests.Debug.Rows.{debug_dump_lem, all_shown}
use trequests.Debug.{Formats, Row, debug_dump, print_rows}
use trequests.Response.Decoded.{Shows, token_charset-Shows}
use trequests.Response.Headers.Collected.{headers_at, get_header_lem}
use trequests.Response.Headers.{get_header}
use trequests.Response.{Encodings, Response}
use trequests.Run.{timeout_ms, setting_name}
use trequests.Testing.Registered.{find_name, Registers, passed, register_easy_option-Registers}
use trequests.Testing.{register_easy_option}
use trequests.Tests.Fixtures.{same_text, strnequal}
use trequests.Tests.Tcl.{tcl, add_word}
use trequests.Text.Charset.{convert_charset_to_encoding}

abbrev name_of : Option Bytes → Bytes
name_of none = codes "system"
name_of (some n) = n

-- An encoding is its name, and each text is marked with it.
abbrev pub encodings : Encodings
encodings = record {
  Encoding = Bytes;
  find_encoding = λ n. some n;
  encoding_name = name_of;
  to_utf = λ e b. name_of e ++ b;
  strnequal = strnequal;
}

abbrev response : Response encodings
response = record {
  content = some (codes "hi");
  encoding = none;
  content_type = none;
  content_charset = none;
}

token_charset-Shows_example :
    Shows encodings
      (some (codes "A/b; charset=U8"))
      response
      (codes "hi")
      (some (convert_charset_to_encoding (take 32 (map to_lower (codes "U8")))))
token_charset-Shows_example =
    token_charset-Shows encodings (codes "A/b") b'U' (codes "8") (codes "hi") response
      (convert_charset_to_encoding (take 32 (map to_lower (codes "U8"))))
      (unfold is_space in ((refl, refl), ((refl, refl), ((refl, refl), tt))))
      (unfold is_space in ((refl, refl), ((refl, refl), tt))) refl (unfold same_text in refl) refl
      refl refl refl

get_header_lem_example :
    (get_header (headers_at (codes "a" ∷ codes "b" ∷ [])) ≡ some (codes "a" ∷ codes "b" ∷ []))
    × (get_header (headers_at []) ≡ none)
get_header_lem_example = get_header_lem (codes "a") (codes "b" ∷ [])

abbrev print : ℕ → Bytes
print n = n ∷ []

abbrev print_all : List Bytes → Bytes
print_all [] = []
print_all (w ∷ ws) = add_word w (print_all ws)

register_easy_option-Registers_example : Registers true (
    register_easy_option tcl find_name print print_all none
      (setting_name (timeout_ms 5))
      (passed (timeout_ms 5)))
register_easy_option-Registers_example =
    register_easy_option-Registers tcl find_name print print_all none (timeout_ms 5) (λ name. refl)

-- Formats that print three characters for a byte.
abbrev formats : Formats
formats = record {
  size_line = λ text n. text ++ n ∷ [];
  offset = λ i. i ∷ [];
  byte_hex = λ x. x ∷ x ∷ 32 ∷ [];
}

debug_dump_lem_example :
    (rs : List Row) × (debug_dump formats (codes "<= Recv data") (codes "hi")
      ≡ codes "<= Recv data" ++ 2 ∷ [] ++ print_rows formats rs)
    × (all_shown rs ≡ codes "hi")
    × All (λ r. length r.hex ≡ 48) rs
debug_dump_lem_example =
    debug_dump_lem formats (codes "<= Recv data") (codes "hi") (λ x lt. refl)
      (omega arith, (omega arith, tt))
