-- ===== src/Text/Charset.antt =====
-- src/common.c, `treq_ConvertCharsetToEncoding`: the name of the Tcl encoding for a charset of a
-- Content-Type header. `none` is the NULL result of the C code before its label `done`, where
-- the charset itself is returned. `ptr += n` is `drop n`; a prefix test guards each of them.
pub mod Names
pub mod Unconverted
pub mod Fixed
use trequests.Base.{
  Bool, true, false, ◌||◌, List, [], ◌∷◌, ◌++◌, Option, none, some, Bytes, codes, str_eq,
  starts_with, is_digit, drop, if◌then◌else◌, ◌==◌, not, ℕ,
}

-- `if (*ptr == c) ptr++`
pub skip_char : ℕ → Bytes → Bytes
skip_char c [] = []
skip_char c (x ∷ xs) = if x == c then xs else x ∷ xs

-- `isdigit(*ptr)`; the NUL is no digit.
pub digit_at : Bytes → Bool
digit_at [] = false
digit_at (x ∷ xs) = is_digit x

-- `for (tmp = ptr; *tmp != '\0'; tmp++) if (!isdigit(*ptr)) goto done;` The loop runs over `tmp`
-- and tests `*ptr`, as the code does.
pub check_digits : Bytes → Bytes → Bool
check_digits ptr [] = true
check_digits ptr (t ∷ tmp) = if not (digit_at ptr) then false else check_digits ptr tmp

-- Behind "lat": "in" and a dash are skipped.
pub latin_number : Bytes → Bytes
unfolding skip_char
latin_number s =
    let after = drop 3 s in
    skip_char b'-' (if starts_with after (codes "in") then drop 2 after else after)

-- What the label `latin` makes of the number.
pub latin_encoding : Bytes → Option Bytes
unfolding check_digits
latin_encoding ptr =
    if not (check_digits ptr ptr)
    then none
    else if str_eq ptr (codes "5")
    then some (codes "iso8859-9")
    else if str_eq ptr (codes "1") || (str_eq ptr (codes "2") || str_eq ptr (codes "3"))
    then some (codes "iso8859-" ++ ptr)
    else some (codes "iso8859-1")

-- From the label `latin` on.
pub convert_latin : Bytes → Option Bytes
unfolding latin_number latin_encoding
convert_latin s = latin_encoding (latin_number s)

-- "iso8859-" or "cp" in front of a number, if the check of its digits passes.
pub numbered : Bytes → Bytes → Option Bytes
unfolding check_digits
numbered name ptr = if check_digits ptr ptr then some (name ++ ptr) else none

-- The branch of the charsets that begin with "iso", on what follows the "iso" and the dash.
pub convert_iso : Bytes → Option Bytes
unfolding numbered convert_latin
convert_iso s =
    if starts_with s (codes "8859-")
    then (let ptr = drop 5 s in
        if check_digits ptr ptr then some (codes "iso8859-" ++ ptr) else none)
    else if starts_with s (codes "2022-")
    then (let ptr = drop 5 s in
        if not (str_eq ptr (codes "jp")) || not (str_eq ptr (codes "kr"))
        then none
        else some (codes "iso2022-" ++ ptr))
    else if starts_with s (codes "lat")
    then convert_latin s
    else none

-- `if (*ptr == '-' || *ptr == '_') ptr++`
pub skip_dash : Bytes → Bytes
skip_dash [] = []
skip_dash (x ∷ xs) = if x == b'-' || x == b'_' then xs else x ∷ xs

-- The branch "shift": `ptr` still stands at the "s".
pub convert_shift : Bytes → Option Bytes
unfolding skip_dash
convert_shift s =
    let ptr = skip_dash s in if str_eq ptr (codes "jis") then some (codes "shiftjis") else none

-- Behind "windows" or "cp": `ptr += (*ptr == 'w' ? 7 : 2)`, and a dash is skipped.
pub windows_number : Bytes → Bytes
unfolding skip_char
windows_number s = skip_char b'-' (if starts_with s (codes "w") then drop 7 s else drop 2 s)

pub convert_windows : Bytes → Option Bytes
unfolding windows_number numbered
convert_windows s = numbered (codes "cp") (windows_number s)

-- The ladder of branches, up to the label `done`.
pub convert_name : Bytes → Option Bytes
unfolding convert_iso convert_shift convert_windows convert_latin skip_char
convert_name s =
    if starts_with s (codes "iso")
    then convert_iso (skip_char b'-' (drop 3 s))
    else if starts_with s (codes "shift")
    then convert_shift s
    else if starts_with s (codes "windows") || starts_with s (codes "cp")
    then convert_windows s
    else if str_eq s (codes "us-ascii")
    then some (codes "ascii")
    else if starts_with s (codes "lat")
    then convert_latin s
    else none

abbrev pub or_else : Option Bytes → Bytes → Bytes
or_else none s = s
or_else (some r) s = r

unfoldable pub convert_charset_to_encoding : Bytes → Bytes
unfolding convert_name
convert_charset_to_encoding s = or_else (convert_name s) s
