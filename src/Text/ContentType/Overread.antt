-- ===== src/Text/ContentType/Overread.antt =====
-- Where the second loop leaves the string.
use trequests.Base.{
  ℕ, Bool, false, [], ◌∷◌, ◌++◌, none, some, Bytes, codes, is_space, ◌==◌, ◌≡◌, refl, arith, All,
}
use trequests.Text.ContentType.{
  read_type, store, find_charset, skip_section, behind, parse_content_type,
}

-- The bytes of a section.
abbrev pub NoSemicolon : Bytes → Type 0
NoSemicolon = All (λ c. (c == b';') ≡ false)

pub read_type-rest :
    (t rest buf : Bytes) → NoSemicolon t → (read_type buf (t ++ (b';' ∷ rest))).1 ≡ rest
unfolding read_type is_space
read_type-rest [] rest buf h = refl
read_type-rest (c ∷ t) rest buf h =
    ground (arith, read_type-rest t rest buf h.1, read_type-rest t rest (store 128 buf c) h.1)

module _ (curl_strnequal : Bytes → Bytes → ℕ → Bool) where
  skip_section-behind : (s : Bytes) → NoSemicolon s → skip_section curl_strnequal s ≡ behind
  unfolding skip_section
  skip_section-behind [] h = refl
  skip_section-behind (c ∷ s) h = ground (arith, skip_section-behind s h.1)

  -- The pointer is moved behind the NUL, and read there, for every header with exactly one ';' behind
  -- which there is one section that is not empty, begins with no space, and is not named "charset".
  pub parse-behind :
      (t : Bytes) (c : ℕ) (s : Bytes)
      → NoSemicolon t
      → NoSemicolon (c ∷ s)
      → is_space c ≡ false
      → curl_strnequal (c ∷ s) (codes "charset") 7 ≡ false
      → parse_content_type curl_strnequal (t ++ (b';' ∷ c ∷ s)) ≡ none
  unfolding parse_content_type
  parse-behind t c s ht hs hc hn =
      ground (arith, read_type-rest t (c ∷ s) [] ht, skip_section-behind s hs.1)

  -- A section that a ';' closes is skipped with no fault, and a header that ends there has no
  -- charset.
  skip_section-closed :
      (s rest : Bytes)
      → NoSemicolon s
      → skip_section curl_strnequal (s ++ (b';' ∷ rest)) ≡ find_charset curl_strnequal rest
  unfolding skip_section
  skip_section-closed [] rest h = refl
  skip_section-closed (c ∷ s) rest h = ground (arith, skip_section-closed s rest h.1)

  read_type-all : (t buf : Bytes) → NoSemicolon t → (read_type buf t).1 ≡ []
  unfolding read_type
  read_type-all [] buf h = refl
  read_type-all (c ∷ t) buf h =
      ground (arith, read_type-all t buf h.1, read_type-all t (store 128 buf c) h.1)

  -- A header with no ';' is read without a fault, and so is one with one further section that is not
  -- empty, begins with no space, is not named "charset", and is closed by a ';' that ends the header:
  -- neither has a charset.
  pub parse-closed :
      (t : Bytes) (c : ℕ) (s : Bytes)
      → NoSemicolon t
      → NoSemicolon (c ∷ s)
      → is_space c ≡ false
      → curl_strnequal (c ∷ (s ++ codes ";")) (codes "charset") 7 ≡ false
      → (parse_content_type curl_strnequal t ≡ some ((read_type [] t).0, []))
        × (parse_content_type curl_strnequal (t ++ (b';' ∷ c ∷ (s ++ codes ";")))
            ≡ some ((read_type [] (t ++ (b';' ∷ c ∷ (s ++ codes ";")))).0, []))
  unfolding parse_content_type
  parse-closed t c s ht hs hc hn = (
    ground (arith, read_type-all t [] ht),
    ground (arith, read_type-rest t (c ∷ (s ++ codes ";")) [] ht, skip_section-closed s [] hs.1),
  )
