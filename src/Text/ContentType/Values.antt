-- ===== src/Text/ContentType/Values.antt =====
-- What is read from a well-formed header.
use mathlib.Core.List.{append-nil}
use trequests.Base.{
  ℕ, ◌-◌, zero, suc, Bool, true, false, [], ◌∷◌, ◌++◌, some, Bytes, codes, is_space, ◌==◌, ◌≡◌,
  arith, All, take, map, to_lower, length, sym,
}
use trequests.Text.ContentType.Bounds.{store-take}
use trequests.Text.ContentType.Overread.{read_type-rest, NoSemicolon}
use trequests.Text.ContentType.{read_type, store, read_value, read_charset, parse_content_type}

-- A byte of a token: neither a space nor a ';'.
abbrev pub IsTokenByte : ℕ → Type 0
IsTokenByte c = (is_space c ≡ false) × ((c == b';') ≡ false)

abbrev pub IsToken : Bytes → Type 0
IsToken = All IsTokenByte

IsToken-NoSemicolon : (t : Bytes) → IsToken t → NoSemicolon t
IsToken-NoSemicolon [] h = tt
IsToken-NoSemicolon (c ∷ t) h = (h.0.1, IsToken-NoSemicolon t h.1)

append-take_nil : (n : ℕ) (s : Bytes) → s ++ take n [] ≡ s
append-take_nil zero s = append-nil s
append-take_nil (suc k) s = append-nil s

read_type-token :
    (t rest buf : Bytes)
    → IsToken t
    → (read_type buf (t ++ (b';' ∷ rest))).0 ≡ buf ++ take (128 - length buf) (map to_lower t)
unfolding read_type is_space
read_type-token [] rest buf h = sym (append-take_nil (128 - length buf) buf)
read_type-token (c ∷ t) rest buf h =
    let step = read_type-token t rest (store 128 buf c) h.1 in
    ground (arith, step, store-take 128 buf c (map to_lower t))

read_value-token :
    (v buf : Bytes)
    → IsToken v
    → read_value false buf v ≡ buf ++ take (32 - length buf) (map to_lower v)
unfolding read_value
read_value-token [] buf h = sym (append-take_nil (32 - length buf) buf)
read_value-token (c ∷ v) buf h =
    ground (arith, read_value-token v (store 32 buf c) h.1, store-take 32 buf c (map to_lower v))

-- The bytes of a quoted value.
abbrev pub NoQuote : Bytes → Type 0
NoQuote = All (λ c. (c == b'"') ≡ false)

read_value-quoted :
    (v rest buf : Bytes)
    → NoQuote v
    → read_value true buf (v ++ (b'"' ∷ rest)) ≡ buf ++ take (32 - length buf) (map to_lower v)
unfolding read_value
read_value-quoted [] rest buf h = sym (append-take_nil (32 - length buf) buf)
read_value-quoted (c ∷ v) rest buf h =
    ground
      (arith, read_value-quoted v rest (store 32 buf c) h.1, store-take 32 buf c (map to_lower v))

module _ (curl_strnequal : Bytes → Bytes → ℕ → Bool) where
  -- A pair of a type that is a token and a charset that is a token with no quote in front is
  -- read back from the header "type; charset=value": both in lower case, and cut at 128 and 32
  -- bytes. The name of the section is found if `curl_strnequal` finds it there.
  pub parse-token :
      (t : Bytes) (c : ℕ) (v : Bytes)
      → IsToken t
      → IsToken (c ∷ v)
      → (c == b'"') ≡ false
      → curl_strnequal (codes "charset=" ++ (c ∷ v)) (codes "charset") 7 ≡ true
      → parse_content_type curl_strnequal (t ++ (codes "; charset=" ++ (c ∷ v)))
        ≡ some (take 128 (map to_lower t), take 32 (map to_lower (c ∷ v)))
  unfolding parse_content_type read_charset is_space
  parse-token t c v ht hv hq hn =
      let rest : Bytes = codes " charset=" ++ (c ∷ v) in
      ground (
        arith,
        read_type-rest t rest [] (IsToken-NoSemicolon t ht),
        read_type-token t rest [] ht,
        read_value-token (c ∷ v) [] hv,
      )

  -- The same for a quoted value: it may hold spaces and ';', and what stands behind its second
  -- quote is not read.
  pub parse-quoted :
      (t v tail : Bytes)
      → IsToken t
      → NoQuote v
      → curl_strnequal (codes "charset=" ++ (b'"' ∷ (v ++ (b'"' ∷ tail)))) (codes "charset") 7
        ≡ true
      → parse_content_type curl_strnequal
          (t ++ (codes "; charset=" ++ (b'"' ∷ (v ++ (b'"' ∷ tail)))))
        ≡ some (take 128 (map to_lower t), take 32 (map to_lower v))
  unfolding parse_content_type read_charset is_space
  parse-quoted t v tail ht hv hn =
      let rest : Bytes = codes " charset=" ++ (b'"' ∷ (v ++ (b'"' ∷ tail))) in
      ground (
        arith,
        read_type-rest t rest [] (IsToken-NoSemicolon t ht),
        read_type-token t rest [] ht,
        read_value-quoted v tail [] hv,
      )
