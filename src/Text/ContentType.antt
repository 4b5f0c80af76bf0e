-- ===== src/Text/ContentType.antt =====
-- src/common.c, `treq_ParseContentType`. A C string is the list of its bytes before the NUL; a
-- pointer is what is left to read, or stands behind the NUL. To read there is a fault: `none`.
-- `curl_strnequal` of libcurl is a parameter.
pub mod Bounds
pub mod Overread
pub mod Values
use trequests.Base.{
  ℕ, ◌+◌, Bool, true, false, ◌||◌, [], ◌∷◌, ◌++◌, Option, none, some, Bytes, codes, is_space,
  to_lower, drop, length, if◌then◌else◌, ◌==◌, not, ltb,
}

pub data Pointer : Type 0 where
  at : Bytes → Pointer
  behind : Pointer

-- `if (len < sizeof(buf)) buf[len++] = tolower(c);`
unfoldable pub store : ℕ → Bytes → ℕ → Bytes
store size buf c = if ltb (length buf) size then buf ++ to_lower c ∷ [] else buf

-- The first loop: the media type, and the pointer behind its ';'.
pub read_type : Bytes → Bytes → Bytes × Bytes
read_type buf [] = (buf, [])
read_type buf (c ∷ cs) =
    let skip = read_type buf cs in
    let keep = read_type (store 128 buf c) cs in
    if is_space c then skip else if c == b';' then (buf, cs) else keep

pub skip_spaces : Bytes → Bytes
skip_spaces [] = []
skip_spaces (c ∷ cs) = let next = skip_spaces cs in if is_space c then next else c ∷ cs

-- The last loop: the value, up to the quote, or to a ';' or a space.
pub read_value : Bool → Bytes → Bytes → Bytes
read_value quoted buf [] = buf
read_value quoted buf (c ∷ cs) =
    let next = read_value quoted (store 32 buf c) cs in
    if quoted
    then if c == b'"' then buf else next
    else if c == b';' || is_space c
    then buf
    else next

-- `is_quoted`, and the step over the quote.
pub read_quoted : Bytes → Bytes
unfolding read_value
read_quoted [] = read_value false [] []
read_quoted (c ∷ cs) = if c == b'"' then read_value true [] cs else read_value false [] (c ∷ cs)

-- From the '=' on.
pub read_charset_at : Bytes → Bytes
unfolding read_quoted skip_spaces
read_charset_at [] = []
read_charset_at (c ∷ cs) = if not (c == b'=') then [] else read_quoted (skip_spaces cs)

-- From "Skip spaces after the section name" on: `*ptr` is read at once.
pub read_charset : Pointer → Option Bytes
unfolding read_charset_at skip_spaces
read_charset (at cs) = some (read_charset_at (skip_spaces cs))
read_charset behind = none

module _ (curl_strnequal : Bytes → Bytes → ℕ → Bool) where
  mutual
    -- The second loop, and the inner loop that runs to the end of a section. Where the inner
    -- loop stops at the NUL, the `ptr++` of the outer one steps over it.
    pub find_charset : Bytes → Pointer
    find_charset [] = at []
    find_charset (c ∷ cs) =
        let next = find_charset cs in
        let section = skip_section cs in
        if is_space c || c == b';'
        then next
        else if curl_strnequal (c ∷ cs) (codes "charset") 7
        then at (drop 7 (c ∷ cs))
        else section

    pub skip_section : Bytes → Pointer
    skip_section [] = behind
    skip_section (c ∷ cs) =
        let next = find_charset cs in
        let section = skip_section cs in if c == b';' then next else section

  -- The media type and the charset.
  pub parse_content_type : Bytes → Option (Bytes × Bytes)
  unfolding read_type find_charset read_charset
  parse_content_type s =
      let (type, rest) = read_type [] s in
      elim (read_charset (find_charset rest)) [ none ↦ none | some charset ↦ some (type, charset) ]
