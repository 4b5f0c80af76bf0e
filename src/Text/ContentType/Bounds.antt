-- ===== src/Text/ContentType/Bounds.antt =====
-- The two buffers on the stack, `type_buf[128]` and `charset_buf[32]`: what is stored in them, and
-- that no write leaves them.
use mathlib.Core.List.{append_assoc}
use trequests.Base.{
  ℕ, suc, ◌-◌, ◌≤◌, Bool, true, false, [], ◌∷◌, ◌++◌, some, Bytes, to_lower, take, length, ◌≡◌,
  refl, arith, length-append, ltb, Bool-cases, inl, inr, ltb→lt,
}
use trequests.Text.ContentType.{
  store, read_type, read_value, read_quoted, read_charset_at, read_charset, find_charset, Pointer,
  at, behind, parse_content_type, skip_spaces,
}

length-store :
    (size : ℕ) (buf : Bytes) (c : ℕ) → length buf ≤ size → length (store size buf c) ≤ size
unfolding store
length-store size buf c h = ground (arith, length-append buf (to_lower c ∷ []))

read_type-length : (s buf : Bytes) → length buf ≤ 128 → length (read_type buf s).0 ≤ 128
unfolding read_type
read_type-length [] buf h = h
read_type-length (c ∷ cs) buf h = ground (
  arith,
  length-store 128 buf c h,
  read_type-length cs buf h,
  read_type-length cs (store 128 buf c),
)

read_value-length :
    (quoted : Bool) (s buf : Bytes) → length buf ≤ 32 → length (read_value quoted buf s) ≤ 32
unfolding read_value
read_value-length quoted [] buf h = h
read_value-length quoted (c ∷ cs) buf h =
    ground (arith, length-store 32 buf c h, read_value-length quoted cs (store 32 buf c))

read_quoted-length : (s : Bytes) → length (read_quoted s) ≤ 32
unfolding read_quoted
read_quoted-length [] = read_value-length false [] [] (omega arith)
read_quoted-length (c ∷ cs) = ground (
  arith,
  read_value-length true cs [] (omega arith),
  read_value-length false (c ∷ cs) [] (omega arith),
)

read_charset_at-length : (s : Bytes) → length (read_charset_at s) ≤ 32
unfolding read_charset_at
read_charset_at-length [] = omega arith
read_charset_at-length (c ∷ cs) = ground (arith, read_quoted-length (skip_spaces cs))

read_charset-length :
    (p : Pointer) (charset : Bytes) → read_charset p ≡ some charset → length charset ≤ 32
unfolding read_charset
read_charset-length (at s) charset e = ground (arith, read_charset_at-length (skip_spaces s))
read_charset-length behind charset e = cc

-- The media type never outgrows its buffer of 128 bytes, nor the charset its buffer of 32,
-- whatever the header holds and whatever `curl_strnequal` answers.
pub parse_content_type_bounds :
    (curl_strnequal : Bytes → Bytes → ℕ → Bool) (s type charset : Bytes)
    → parse_content_type curl_strnequal s ≡ some (type, charset)
    → (length type ≤ 128) × (length charset ≤ 32)
unfolding parse_content_type
parse_content_type_bounds eq s type charset e = ground (
  arith,
  read_type-length s [] (omega arith),
  read_charset-length (find_charset eq (read_type [] s).1) charset,
)

-- Storing a byte and then a string is storing the longer string.
pub store-take :
    (size : ℕ) (buf : Bytes) (c : ℕ) (s : Bytes)
    → store size buf c ++ take (size - length (store size buf c)) s
      ≡ buf ++ take (size - length buf) (to_lower c ∷ s)
unfolding store
store-take size buf c s = elim (Bool-cases (ltb (length buf) size)) [
  | inl h ↦ rw h (
      let room : size - length buf ≡ suc (size - length (buf ++ to_lower c ∷ [])) =
        omega (arith, ltb→lt _ _ h, length-append buf (to_lower c ∷ [])) in
      rw room (append_assoc buf (to_lower c ∷ []) _))
  | inr h ↦ rw h (let full : size - length buf ≡ 0 = ground arith in rw full refl)
]
