-- ===== src/Tests/Output.antt =====
-- Tests of internal/output/output.go.
use yamaha_cli.Prelude.{
  ◌≡◌, ◌≢◌, refl, sym, ◌∙◌, cons-ne-nil, ◌++◌, Bool, false, List, [], ◌∷◌, none, some, map, All,
}
use yamaha_cli.Text.{Bytes, codes, has, Unrepeated, trim_space, to_lower}
use yamaha_cli.Output.{yaml, parse_format, render_table, dict, row_list}
use yamaha_cli.Output.Table.{
  Row, heading, row_columns, rows_table, row_line, write_pieces, column_width,
}
use yamaha_cli.Output.Table.Pieces.{At}
use yamaha_cli.Output.Table.Columns.{is_key, row_columns-unordered}
use yamaha_cli.Output.Table.Aligned.{InColumns, column_offset, rows_table-InColumns}

-- Two presets; the second one has no text, and a key that no table prefers.
abbrev preset_rows : List Row
preset_rows =
    ((codes "text", some (codes "Radio Nova")) ∷ (codes "num", some (codes "1")) ∷ [])
    ∷ ((codes "num", some (codes "12"))
        ∷ (codes "text", none)
        ∷ (codes "art", some (codes "x"))
        ∷ [])
    ∷ []

-- The same keys in another order.
abbrev other_rows : List Row
other_rows =
    ((codes "art", none) ∷ []) ∷ ((codes "text", none) ∷ (codes "num", some (codes "3")) ∷ []) ∷ []

preset_columns : row_columns preset_rows ≡ codes "num" ∷ codes "text" ∷ codes "art" ∷ []
unfolding row_columns
preset_columns = refl

preset_table :
    rows_table preset_rows false
    ≡ some (codes "num  text        art\n1    Radio Nova\n12               x\n")
unfolding rows_table column_width
preset_table = refl

-- No table is written for rows that have no key: `columns[:last+1]` is out of range.
keyless_rows : render_table (row_list ([] ∷ [])) false ≡ none
unfolding render_table
keyless_rows = refl

power_value :
    render_table (dict ((codes "power", some (codes "on")) ∷ (codes "id", none) ∷ [])) false
    ≡ some (codes "id     <nil>\npower  on\n")
unfolding render_table
power_value = refl

formats : parse_format (codes " YML ") ≡ some yaml
unfolding parse_format to_lower trim_space
formats = refl

columns_there : row_columns preset_rows ≢ []
columns_there e = cons-ne-nil _ _ (sym preset_columns ∙ e)

row_columns-unordered_example :
    ((t : Bytes) → has t (row_columns preset_rows) ≡ is_key t preset_rows)
    × Unrepeated (row_columns preset_rows)
    × (((t : Bytes) → is_key t preset_rows ≡ is_key t other_rows)
        → row_columns preset_rows ≡ row_columns other_rows)
row_columns-unordered_example = row_columns-unordered preset_rows other_rows

rows_table-InColumns_example :
    ((use_color : Bool) → (text : Bytes) × (rows_table preset_rows use_color ≡ some text))
    × ((front : List Bytes) (col : Bytes) (back : List Bytes)
        → row_columns preset_rows ≡ front ++ col ∷ back
        → (header : Bytes) × (write_pieces
              (map (heading preset_rows false) (row_columns preset_rows))
            ≡ some header)
          × At (column_offset preset_rows front) col header)
    × All
        (λ row.
          (line : Bytes) × (row_line preset_rows (row_columns preset_rows) row ≡ some line)
          × InColumns preset_rows (row_columns preset_rows) row line)
        preset_rows
rows_table-InColumns_example = rows_table-InColumns preset_rows columns_there
