-- ===== src/Debug/Rows.antt =====
-- The dump shows all the data, in rows of one width.
use trequests.Base.{
  ℕ, zero, suc, ◌+◌, ◌≤◌, List, [], ◌∷◌, ◌++◌, Bytes, length, length-append, length-drop, ◌<◌, drop,
  map, All, ◌*◌, ◌≡◌, refl, arith, ap, ◌∙◌,
}
use trequests.Debug.{
  Formats, Row, shown_byte, shown_cells, hex_cells, row, rows, width, debug_dump, print_rows,
}

-- The right sides of the rows.
abbrev pub all_shown : List Row → Bytes
all_shown [] = []
all_shown (r ∷ rs) = r.shown ++ all_shown rs

shown_cells-drop :
    (n : ℕ) (bytes : Bytes)
    → shown_cells n bytes ++ map shown_byte (drop n bytes) ≡ map shown_byte bytes
unfolding shown_cells
shown_cells-drop zero xs = refl
shown_cells-drop (suc n) [] = refl
shown_cells-drop (suc n) (x ∷ xs) = ap (λ t. shown_byte x ∷ t) (shown_cells-drop n xs)

module _ (f : Formats) where
  abbrev pub ThreeCells : Type 0
  ThreeCells = (x : ℕ) → x < 256 → length (f.byte_hex x) ≡ 3

  -- With the length of the bytes as fuel, or more, no byte is left out.
  rows-shown :
      (n i : ℕ) (bytes : Bytes)
      → length bytes ≤ n
      → all_shown (rows f n i bytes) ≡ map shown_byte bytes
  unfolding rows row
  rows-shown n i [] le = refl
  rows-shown zero i (x ∷ xs) le = absurd (omega arith)
  rows-shown (suc n) i (x ∷ xs) le =
      ap (λ t. shown_cells width (x ∷ xs) ++ t)
        (rows-shown n (i + width) (drop width (x ∷ xs)) (omega (arith, length-drop width (x ∷ xs))))
      ∙ shown_cells-drop width (x ∷ xs)

  length-hex_cells :
      (n : ℕ) (bytes : Bytes)
      → ThreeCells
      → All (λ x. x < 256) bytes
      → length (hex_cells f n bytes) ≡ 3 * n
  unfolding hex_cells
  length-hex_cells zero bytes three small = omega arith
  length-hex_cells (suc n) [] three small = omega (arith, length-hex_cells n [] three tt)
  length-hex_cells (suc n) (x ∷ xs) three (lt, small) = omega (
    arith,
    length-append (f.byte_hex x) (hex_cells f n xs),
    three x lt,
    length-hex_cells n xs three small,
  )

  drop-All : (n : ℕ) (bytes : Bytes) → All (λ x. x < 256) bytes → All (λ x. x < 256) (drop n bytes)
  drop-All zero xs h = h
  drop-All (suc n) [] h = tt
  drop-All (suc n) (x ∷ xs) h = drop-All n xs h.1

  rows-aligned :
      (n i : ℕ) (bytes : Bytes)
      → ThreeCells
      → All (λ x. x < 256) bytes
      → All (λ r. length r.hex ≡ 48) (rows f n i bytes)
  unfolding rows row
  rows-aligned n i [] three small = tt
  rows-aligned zero i (x ∷ xs) three small = tt
  rows-aligned (suc n) i (x ∷ xs) three small = (
    length-hex_cells width (x ∷ xs) three small,
    rows-aligned n (i + width) (drop width (x ∷ xs)) three (drop-All width (x ∷ xs) small),
  )

  -- Where "%02x " prints three characters for a byte, the dump is the line of the size and rows that
  -- together show every byte, in order, with a dot for one that is not printable, and whose left
  -- sides are all 48 characters wide.
  pub debug_dump_lem :
      (text bytes : Bytes)
      → ThreeCells
      → All (λ x. x < 256) bytes
      → (rs : List Row) × (debug_dump f text bytes
          ≡ f.size_line text (length bytes) ++ print_rows f rs)
        × (all_shown rs ≡ map shown_byte bytes)
        × All (λ r. length r.hex ≡ 48) rs
  unfolding debug_dump
  debug_dump_lem text bytes three small =
      let n = length bytes in
      (
        rows f n 0 bytes,
        refl,
        rows-shown n 0 bytes (omega arith),
        rows-aligned n 0 bytes three small,
      )
