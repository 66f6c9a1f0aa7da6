-- ===== src/Output/Table/Aligned.antt =====
-- The cells of a table stand in columns, and a table that has a column is written.
use yamaha_cli.Prelude.{
  ℕ, zero, suc, ◌+◌, ◌≤◌, ◌<◌, ◌==◌, ◌≡◌, ◌≢◌, refl, sym, ap, ap₂, ◌∙◌, subst, ◌++◌, length-append,
  Bool, true, false, List, [], ◌∷◌, some, arith, ltb, leb, inl, inr, ◌⊎◌, Bool-cases, if◌then◌else◌,
  map, length, take, All,
}
use yamaha_cli.Text.{Bytes, codes, is_empty}
use yamaha_cli.Output.Table.{
  Row, Piece, cell, widest, column_width, write_pieces, heading, cell_piece, get_elem?, last_from,
  row_line, row_lines, rows_table, row_columns,
}
use yamaha_cli.Output.Table.Pieces.{At, Fits, Plain, piece_offset, pieces_written, aligned_pieces}

widest-ge : (col : Bytes) (rows : List Row) (w : ℕ) → w ≤ widest col rows w
unfolding widest
widest-ge col [] w = omega arith
widest-ge col (row ∷ rows) w =
    ground (
      arith,
      widest-ge col rows (if ltb w (length (cell row col)) then length (cell row col) else w),
    )

widest-All :
    (col : Bytes) (rows : List Row) (w : ℕ)
    → All (λ row. length (cell row col) ≤ widest col rows w) rows
unfolding widest
widest-All col [] w = tt
widest-All col (row ∷ rows) w =
    let n = if ltb w (length (cell row col)) then length (cell row col) else w in
    (ground (arith, widest-ge col rows n), widest-All col rows n)

-- Where a column begins in every line.
abbrev pub column_offset : List Row → List Bytes → ℕ
column_offset rows [] = 0
column_offset rows (col ∷ columns) = column_width rows col + 2 + column_offset rows columns

-- The row's cell in each column stands at the column's offset, or it has no text.
abbrev pub InColumns : List Row → List Bytes → Row → Bytes → Type 0
InColumns rows columns row line =
    (front : List Bytes) (col : Bytes) (back : List Bytes)
    → columns ≡ front ++ col ∷ back
    → At (column_offset rows front) (cell row col) line ⊎ (cell row col ≡ [])

last_from-le : (row : Row) (columns : List Bytes) (i : ℕ) → last_from row columns (suc i) ≤ i
unfolding last_from
last_from-le row columns zero = ground arith
last_from-le row columns (suc i) = ground (arith, last_from-le row columns i)

is_empty-nil : (s : Bytes) → is_empty s ≡ true → s ≡ []
is_empty-nil [] h = refl
is_empty-nil (c ∷ s) h = cc

-- The cells behind the last column that is kept have no text.
behind_last :
    (row : Row) (columns : List Bytes) (i j : ℕ)
    → last_from row columns i < j
    → j < i
    → cell row (get_elem? columns j) ≡ []
unfolding last_from
behind_last row columns zero j h k = absurd (omega arith)
behind_last row columns (suc i) j h k =
    elim (Bool-cases (is_empty (cell row (get_elem? columns i)))) [
      | inr e ↦ absurd (ground arith)
      | inl e ↦ elim (Bool-cases (j == i)) [
        | inl q ↦
            let same : j ≡ i = ground arith in
            is_empty-nil (cell row (get_elem? columns j))
              (ap (λ n. is_empty (cell row (get_elem? columns n))) same ∙ e)
        | inr q ↦ behind_last row columns i j (ground arith) (ground arith)
      ]
    ]

get_elem-middle :
    (front : List Bytes) (col : Bytes) (back : List Bytes)
    → get_elem? (front ++ col ∷ back) (length front) ≡ col
get_elem-middle [] col back = refl
get_elem-middle (f ∷ front) col back = get_elem-middle front col back

take-middle :
    (front : List Bytes) (col : Bytes) (back : List Bytes) (n : ℕ)
    → length front < n
    → (more : List Bytes) × (take n (front ++ col ∷ back) ≡ front ++ col ∷ more)
take-middle front col back zero h = absurd (omega arith)
take-middle [] col back (suc n) h = (take n back, refl)
take-middle (f ∷ front) col back (suc n) h =
    let (more, e) = take-middle front col back n (omega arith) in (more, ap (λ cs. f ∷ cs) e)

cells-Fits :
    (rows : List Row) (row : Row) (columns : List Bytes)
    → ((col : Bytes) → length (cell row col) ≤ column_width rows col)
    → All Fits (map (cell_piece rows row) columns) × All Plain (map (cell_piece rows row) columns)
cells-Fits rows row [] h = (tt, tt)
cells-Fits rows row (col ∷ columns) h =
    let (f, p) = cells-Fits rows row columns h in ((h col, f), (refl, p))

map-middle :
    (f : Bytes → Piece) (front : List Bytes) (col : Bytes) (back : List Bytes)
    → map f (front ++ col ∷ back) ≡ map f front ++ f col ∷ map f back
map-middle f [] col back = refl
map-middle f (c ∷ front) col back = ap (λ ps. f c ∷ ps) (map-middle f front col back)

some-injective : {a b : Bytes} → some a ≡ some b → a ≡ b
some-injective e = cc

-- The pieces of the columns, each as wide as its column.
module _ (rows : List Row) (f : Bytes → Piece)
    (wide : (c : Bytes) → (f c).width ≡ column_width rows c) where
  piece_offset-columns :
      (front : List Bytes) → piece_offset (map f front) ≡ column_offset rows front
  piece_offset-columns [] = refl
  piece_offset-columns (c ∷ front) = ap₂ (λ w o. w + 2 + o) (wide c) (piece_offset-columns front)

  pieces-InColumns :
      (columns front : List Bytes) (col : Bytes) (back : List Bytes) (line : Bytes)
      → columns ≡ front ++ col ∷ back
      → All Fits (map f columns)
      → All Plain (map f columns)
      → write_pieces (map f columns) ≡ some line
      → At (column_offset rows front) (f col).text line
  pieces-InColumns columns front col back line e fit plain w =
      let q : map f columns ≡ map f front ++ f col ∷ map f back =
        ap (map f) e ∙ map-middle f front col back in
      let (line', w', at) =
        aligned_pieces (map f front) (f col) (map f back) (subst (All Fits) q fit)
          (subst (All Plain) q plain) in
      let same : line' ≡ line = some-injective (sym w' ∙ ap write_pieces (sym q) ∙ w) in
      subst (λ l. At (column_offset rows front) (f col).text l) same
        (subst (λ o. At o (f col).text line') (piece_offset-columns front) at)

row_line-InColumns :
    (rows : List Row) (row : Row) (columns : List Bytes)
    → ((col : Bytes) → length (cell row col) ≤ column_width rows col)
    → columns ≢ []
    → (line : Bytes) × (row_line rows columns row ≡ some line) × InColumns rows columns row line
unfolding row_line
row_line-InColumns rows row [] h n = absurd (n refl)
row_line-InColumns rows row (c ∷ cs) h n =
    let last = last_from row (c ∷ cs) (suc (length cs)) in
    let kept = take (suc last) (c ∷ cs) in
    let (fit, plain) = cells-Fits rows row kept h in
    let (line, w) =
      pieces_written (cell_piece rows row c) (map (cell_piece rows row) (take last cs)) fit in
    let inside : leb (suc last) (suc (length cs)) ≡ true =
      ground (arith, last_from-le row (c ∷ cs) (length cs)) in
    (
      line,
      rw (row_line, inside) w,
      λ front col back e. elim (Bool-cases (ltb (length front) (suc last))) [
        | inl l ↦
            let (more, t) = take-middle front col back (suc last) (ground arith) in
            inl (
              pieces-InColumns rows (cell_piece rows row) (λ c. refl) kept front col more line
                (ap (take (suc last)) e ∙ t) fit plain w)
        | inr l ↦ inr (
            sym (
              ap (cell row)
                (ap (λ cs. get_elem? cs (length front)) e ∙ get_elem-middle front col back))
            ∙ behind_last row (c ∷ cs) (suc (length cs)) (length front) (ground arith)
                (omega (arith, ap length e, length-append front (col ∷ back))))
      ],
    )

row_lines-written :
    (rows : List Row) (columns : List Bytes) (more : List Row)
    → All
        (λ row.
          (line : Bytes) × (row_line rows columns row ≡ some line)
          × InColumns rows columns row line)
        more
    → (text : Bytes) × (row_lines rows columns more ≡ some text)
unfolding row_lines
row_lines-written rows columns [] h = ([], refl)
row_lines-written rows columns (row ∷ more) h =
    let (line, e, a) = h.0 in
    let (text, f) = row_lines-written rows columns more h.1 in
    (line ++ codes "\n" ++ text, rw (row_lines, e, f) refl)

header-Fits :
    (rows : List Row) (use_color : Bool) (columns : List Bytes)
    → All Fits (map (heading rows use_color) columns)
unfolding column_width
header-Fits rows use_color [] = tt
header-Fits rows use_color (col ∷ columns) =
    (widest-ge col rows (length col), header-Fits rows use_color columns)

header-Plain :
    (rows : List Row) (columns : List Bytes) → All Plain (map (heading rows false) columns)
header-Plain rows [] = tt
header-Plain rows (col ∷ columns) = (refl, header-Plain rows columns)

header_written :
    (rows : List Row) (use_color : Bool) (columns : List Bytes)
    → columns ≢ []
    → (header : Bytes) × (write_pieces (map (heading rows use_color) columns) ≡ some header)
header_written rows use_color [] n = absurd (n refl)
header_written rows use_color (c ∷ cs) n =
    pieces_written (heading rows use_color c) (map (heading rows use_color) cs)
      (header-Fits rows use_color (c ∷ cs))

-- The row's line is written, and its cells stand in the columns.
abbrev pub IsWritten : List Row → List Bytes → Row → Type 0
IsWritten rows columns row =
    (line : Bytes) × (row_line rows columns row ≡ some line) × InColumns rows columns row line

all-IsWritten :
    (rows : List Row) (columns : List Bytes) (more : List Row)
    → columns ≢ []
    → ((col : Bytes) → All (λ row. length (cell row col) ≤ column_width rows col) more)
    → All (IsWritten rows columns) more
all-IsWritten rows columns [] n h = tt
all-IsWritten rows columns (row ∷ more) n h = (
  row_line-InColumns rows row columns (λ col. (h col).0) n,
  all-IsWritten rows columns more n (λ col. (h col).1),
)

rows-IsWritten :
    (rows : List Row) → row_columns rows ≢ [] → All (IsWritten rows (row_columns rows)) rows
unfolding column_width
rows-IsWritten rows n =
    all-IsWritten rows (row_columns rows) rows n λ col. widest-All col rows (length col)

table_written :
    (rows : List Row) (use_color : Bool)
    → row_columns rows ≢ []
    → (text : Bytes) × (rows_table rows use_color ≡ some text)
unfolding rows_table
table_written rows use_color n =
    let (header, e) = header_written rows use_color (row_columns rows) n in
    let (body, f) = row_lines-written rows (row_columns rows) rows (rows-IsWritten rows n) in
    (header ++ codes "\n" ++ body, rw (rows_table, e, f) refl)

-- When some row has a key, the table is written: no count of padding spaces is negative and no slice
-- of the columns is out of range. In the header without colours and in the line of every row, what
-- belongs to a column begins at one offset, that of the column; a cell that is not there has no text.
pub rows_table-InColumns :
    (rows : List Row)
    → row_columns rows ≢ []
    → ((use_color : Bool) → (text : Bytes) × (rows_table rows use_color ≡ some text))
      × ((front : List Bytes) (col : Bytes) (back : List Bytes)
          → row_columns rows ≡ front ++ col ∷ back
          → (header : Bytes) × (write_pieces (map (heading rows false) (row_columns rows))
              ≡ some header)
            × At (column_offset rows front) col header)
      × All
          (λ row.
            (line : Bytes) × (row_line rows (row_columns rows) row ≡ some line)
            × InColumns rows (row_columns rows) row line)
          rows
rows_table-InColumns rows n = (
  λ use_color. table_written rows use_color n,
  λ front col back e.
      let (header, w) = header_written rows false (row_columns rows) n in
      (
        header,
        w,
        pieces-InColumns rows (heading rows false) (λ c. refl) (row_columns rows) front col back
            header e (header-Fits rows false (row_columns rows))
            (header-Plain rows (row_columns rows)) w,
      ),
  rows-IsWritten rows n,
)
