-- ===== src/Debug.antt =====
-- src/treqRequest.c: what the debug callback of a request does with the data that libcurl shows, and the
-- dump that it prints without a callback of the request.
pub mod Rows
use trequests.Base.{
  ℕ, zero, suc, ◌+◌, Bool, true, false, ◌&&◌, leb, ltb, List, [], ◌∷◌, ◌++◌, Option, none, some,
  Bytes, codes, length, drop, if◌then◌else◌,
}

-- The formats of `fprintf`: the line with the size, "%4.4lx: " and "%02x ".
pub record Formats : Type 0 where
  pub size_line : Bytes → ℕ → Bytes
  pub offset : ℕ → Bytes
  pub byte_hex : ℕ → Bytes

-- A line of the dump.
pub record Row : Type 0 where
  pub start : ℕ
  pub hex : Bytes
  pub shown : Bytes

abbrev pub width : ℕ
width = 16

-- A byte on the right.
abbrev pub shown_byte : ℕ → ℕ
shown_byte x = if leb 32 x && ltb x 128 then x else b'.'

-- Bytes on the right, up to so many.
unfoldable pub shown_cells : ℕ → Bytes → Bytes
shown_cells zero bytes = []
shown_cells (suc n) [] = []
shown_cells (suc n) (x ∷ xs) = shown_byte x ∷ shown_cells n xs

module _ (f : Formats) where
  -- Just so many cells on the left, the last ones blank.
  unfoldable pub hex_cells : ℕ → Bytes → Bytes
  hex_cells zero bytes = []
  hex_cells (suc n) [] = codes "   " ++ hex_cells n []
  hex_cells (suc n) (x ∷ xs) = f.byte_hex x ++ hex_cells n xs

  pub row : ℕ → Bytes → Row
  unfolding hex_cells shown_cells
  row i bytes = record { start = i; hex = hex_cells width bytes; shown = shown_cells width bytes }

  -- The loop, on fuel.
  unfoldable pub rows : ℕ → ℕ → Bytes → List Row
  unfolding row
  rows n i [] = []
  rows zero i (x ∷ xs) = []
  rows (suc n) i (x ∷ xs) = row i (x ∷ xs) ∷ rows n (i + width) (drop width (x ∷ xs))

  pub print_row : Row → Bytes
  print_row r = f.offset r.start ++ (r.hex ++ (r.shown ++ codes "\n"))

  pub print_rows : List Row → Bytes
  unfolding print_row
  print_rows [] = []
  print_rows (r ∷ rs) = print_row r ++ print_rows rs

  -- `treq_debug_dump`
  unfoldable pub debug_dump : Bytes → Bytes → Bytes
  unfolding rows print_rows
  debug_dump text bytes =
      f.size_line text (length bytes) ++ print_rows (rows (length bytes) 0 bytes)

-- `curl_infotype`
pub data InfoType : Type 0 where
  info_text header_in header_out data_in data_out ssl_data_in ssl_data_out info_end : InfoType

-- What the callback does: it runs the script of the request on a name, the data and the handle, it
-- writes to stderr, or it does nothing.
pub data DebugAction : Type 0 where
  run_script : Bytes → Bytes → Bytes → Bytes → DebugAction
  write_stderr : Bytes → DebugAction
  do_nothing : DebugAction

-- The name for the script; `none` for CURLINFO_END.
pub script_name : InfoType → Option Bytes
script_name info_text = some (codes "info")
script_name header_out = some (codes "header_out")
script_name header_in = some (codes "header_in")
script_name data_out = some (codes "data_out")
script_name data_in = some (codes "data_in")
script_name ssl_data_out = some (codes "ssl_data_out")
script_name ssl_data_in = some (codes "ssl_data_in")
script_name info_end = none

-- The title of a dump; `none` for what is not dumped.
pub dump_title : InfoType → Option Bytes
dump_title header_out = some (codes "=> Send header")
dump_title data_out = some (codes "=> Send data")
dump_title ssl_data_out = some (codes "=> Send SSL data")
dump_title header_in = some (codes "<= Recv header")
dump_title data_in = some (codes "<= Recv data")
dump_title ssl_data_in = some (codes "<= Recv SSL data")
dump_title _ = none

abbrev name_or_empty : Option Bytes → Bytes
name_or_empty none = []
name_or_empty (some n) = n

module _ (f : Formats) where
  pub dump_info : InfoType → Bytes → DebugAction
  unfolding dump_title debug_dump
  dump_info info_text bytes = write_stderr (codes "== Info: " ++ bytes)
  dump_info type bytes = elim (dump_title type) [
    | none ↦ do_nothing
    | some title ↦ write_stderr (debug_dump f title bytes)
  ]

  -- `treq_debug_callback`, with `callback_debug` and `cmd_name` of the request.
  unfoldable pub debug_callback : Option Bytes → Option Bytes → InfoType → Bytes → DebugAction
  unfolding script_name dump_info
  debug_callback none handle type bytes = dump_info type bytes
  debug_callback (some script) handle type bytes = elim (script_name type) [
    | none ↦ do_nothing
    | some name ↦ run_script script name bytes (name_or_empty handle)
  ]
