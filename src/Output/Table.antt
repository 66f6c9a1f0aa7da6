-- ===== src/Output/Table.antt =====
-- internal/output/output.go, `writeRowsTable`: the columns of a table, and its lines. A row is a map
-- in the order in which its keys happen to be visited; a missing or nil value has no text.
pub mod Columns
pub mod Pieces
pub mod Aligned
use yamaha_cli.Prelude.{
  ℕ, zero, suc, ◌++◌, ◌-◌, Bool, true, false, ◌||◌, List, [], ◌∷◌, map, Option, none, some, is_some,
  if◌then◌else◌, length, take, replicate, leb, ltb,
}
use yamaha_cli.Text.{Bytes, codes, is_empty, Dict, lookup, equal, has, sort_texts}

abbrev pub Row : Type 0
Row = Dict (Option Bytes)

-- `row[col]`
abbrev pub value : Option (Option Bytes) → Option Bytes
value none = none
value (some v) = v

-- `formatCell`, of a value whose `fmt.Sprint` is known
abbrev pub format_cell : Option Bytes → Bytes
format_cell none = []
format_cell (some t) = t

unfoldable pub cell : Row → Bytes → Bytes
unfolding lookup
cell row col = format_cell (value (lookup col row))

-- `dim`
abbrev pub dim : Bytes → Bytes
dim s = 27 ∷ codes "[2m" ++ s ++ 27 ∷ codes "[0m"

unfoldable pub keys : Row → List Bytes
keys [] = []
keys ((k, v) ∷ row) = k ∷ keys row

-- The keys that were seen, as a set.
unfoldable pub see : List Bytes → List Bytes → List Bytes
unfolding has
see [] seen = seen
see (k ∷ ks) seen = see ks (if has k seen then seen else k ∷ seen)

unfoldable pub seen_keys : List Row → List Bytes → List Bytes
unfolding see keys
seen_keys [] seen = seen
seen_keys (row ∷ rows) seen = seen_keys rows (see (keys row) seen)

unfoldable pub preferred : List Bytes
preferred =
    codes "current"
    ∷ codes "num"
    ∷ codes "input"
    ∷ codes "type"
    ∷ codes "notes"
    ∷ codes "name"
    ∷ codes "host"
    ∷ codes "model"
    ∷ codes "scope"
    ∷ codes "function"
    ∷ codes "access"
    ∷ codes "description"
    ∷ codes "text"
    ∷ codes "band"
    ∷ codes "freq"
    ∷ codes "freq_human"
    ∷ codes "udn"
    ∷ []

unfoldable pub delete : Bytes → List Bytes → List Bytes
unfolding equal
delete k [] = []
delete k (x ∷ xs) = let rest = delete k xs in if equal x k then rest else x ∷ rest

-- The preferred columns among the seen keys, and the other keys.
unfoldable pub take_preferred : List Bytes → List Bytes → List Bytes × List Bytes
unfolding has delete
take_preferred [] seen = ([], seen)
take_preferred (k ∷ ks) seen =
    let (columns, rest) = take_preferred ks (if has k seen then delete k seen else seen) in
    (if has k seen then k ∷ columns else columns, rest)

abbrev pub then_sorted : List Bytes × List Bytes → List Bytes
unfolding sort_texts
then_sorted (columns, rest) = columns ++ sort_texts rest

-- `rowColumns`
unfoldable pub row_columns : List Row → List Bytes
unfolding then_sorted take_preferred seen_keys preferred
row_columns rows = then_sorted (take_preferred preferred (seen_keys rows []))

unfoldable pub widest : Bytes → List Row → ℕ → ℕ
unfolding cell
widest col [] w = w
widest col (row ∷ rows) w =
    let n = length (cell row col) in widest col rows (if ltb w n then n else w)

-- `widths[col]`
unfoldable pub column_width : List Row → Bytes → ℕ
unfolding widest
column_width rows col = widest col rows (length col)

-- `strings.Repeat(" ", w - n)`, which panics for a negative count
unfoldable pub spaces : ℕ → ℕ → Option Bytes
spaces w n = if leb n w then some (replicate (w - n) 32) else none

-- What is printed in a column, the runes it counts for, and the column's width.
pub record Piece : Type 0 where
  pub text : Bytes
  pub size : ℕ
  pub width : ℕ

infixl 1 ◌>>=◌
abbrev pub ◌>>=◌ : {A B : Type 0} → Option A → (A → Option B) → Option B
none >>= f = none
some a >>= f = f a

-- A line: pieces that are padded and parted by two spaces, the last one not padded.
unfoldable pub write_pieces : List Piece → Option Bytes
unfolding spaces
write_pieces [] = some []
write_pieces (p ∷ []) = some p.text
write_pieces (p ∷ q ∷ ps) = do
  pad ← spaces p.width p.size
  rest ← write_pieces (q ∷ ps)
  some (p.text ++ pad ++ codes "  " ++ rest)

abbrev pub heading : List Row → Bool → Bytes → Piece
heading rows use_color col = record {
  text = if use_color then dim col else col;
  size = length col;
  width = column_width rows col;
}

abbrev pub cell_piece : List Row → Row → Bytes → Piece
cell_piece rows row col = record {
  text = cell row col;
  size = length (cell row col);
  width = column_width rows col;
}

abbrev pub get_elem? : List Bytes → ℕ → Bytes
get_elem? [] i = []
get_elem? (c ∷ cs) zero = c
get_elem? (c ∷ cs) (suc i) = get_elem? cs i

-- The loop of `lastNonEmptyColumn`, `i` columns being left.
unfoldable pub last_from : Row → List Bytes → ℕ → ℕ
unfolding cell
last_from row columns zero = 0
last_from row columns (suc i) =
    let before = last_from row columns i in
    if is_empty (cell row (get_elem? columns i)) then before else i

-- A row's line; none where `columns[:last+1]` is out of range.
unfoldable pub row_line : List Row → List Bytes → Row → Option Bytes
unfolding last_from write_pieces
row_line rows columns row =
    let count = suc (last_from row columns (length columns)) in
    if leb count (length columns)
    then write_pieces (map (cell_piece rows row) (take count columns))
    else none

unfoldable pub row_lines : List Row → List Bytes → List Row → Option Bytes
unfolding row_line
row_lines rows columns [] = some []
row_lines rows columns (row ∷ more) = do
  line ← row_line rows columns row
  rest ← row_lines rows columns more
  some (line ++ codes "\n" ++ rest)

-- `writeRowsTable`; none where it panics.
unfoldable pub rows_table : List Row → Bool → Option Bytes
unfolding row_columns write_pieces row_lines
rows_table rows use_color =
    let columns = row_columns rows in
    do
      header ← write_pieces (map (heading rows use_color) columns)
      body ← row_lines rows columns rows
      some (header ++ codes "\n" ++ body)
