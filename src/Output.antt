-- ===== src/Output.antt =====
-- internal/output/output.go: the choice of a format, and the tables. A string is the list of its
-- runes.
pub mod Table
use yamaha_cli.Prelude.{
  ℕ, suc, ◌++◌, Bool, true, false, List, [], ◌∷◌, map, Option, none, some, length, ◌==◌, is_some,
  if◌then◌else◌, max, replicate, ltb, ◌+◌, ◌-◌,
}
use yamaha_cli.Text.{Bytes, codes, Dict, lookup, equal, to_lower, trim_space, sort_texts, is_empty}
use yamaha_cli.Output.Table.{Row, value, rows_table, dim, keys}

pub data Format : Type 0 where
  auto json yaml table : Format

-- `ParseFormat`; none for its error.
unfoldable pub parse_format : Bytes → Option Format
unfolding equal
parse_format s =
    let t = to_lower (trim_space s) in
    if is_empty t
    then some auto
    else if equal t (codes "auto")
    then some auto
    else if equal t (codes "json")
    then some json
    else if equal t (codes "yaml")
    then some yaml
    else if equal t (codes "yml")
    then some yaml
    else if equal t (codes "table")
    then some table
    else none

-- `colorEnabled`, with the environment's NO_COLOR and `noColor`
unfoldable pub color_enabled : Bool → Bytes → Bool → Bool
color_enabled is_tty no_color_env no_color =
    if is_tty
    then if is_empty no_color_env then if no_color then false else true else false
    else false

-- `utf8.RuneLen`
rune_len : ℕ → ℕ
rune_len c = if ltb c 128 then 1 else if ltb c 2048 then 2 else if ltb c 65536 then 3 else 4

-- `len` of a string
byte_len : Bytes → ℕ
unfolding rune_len
byte_len [] = 0
byte_len (c ∷ s) = rune_len c + byte_len s

-- What `%v` prints.
printed : Option Bytes → Bytes
printed none = codes "<nil>"
printed (some t) = t

max_key : List Bytes → ℕ
unfolding byte_len
max_key [] = 0
max_key (k ∷ ks) = max (byte_len k) (max_key ks)

kv_lines : Row → Bool → ℕ → List Bytes → Bytes
unfolding byte_len printed lookup
kv_lines m use_color widest [] = []
kv_lines m use_color widest (k ∷ ks) =
    (if use_color then dim k else k)
    ++ replicate (widest - byte_len k) 32
    ++ codes "  "
    ++ printed (value (lookup k m))
    ++ codes "\n"
    ++ kv_lines m use_color widest ks

-- `writeKV`
unfoldable pub write_kv : Row → Bool → Bytes
unfolding sort_texts kv_lines max_key keys
write_kv m use_color = let ks = sort_texts (keys m) in kv_lines m use_color (max_key ks) ks

have_lone_field : Bytes → List Row → Bool
unfolding lookup
have_lone_field field [] = true
have_lone_field field (row ∷ rows) =
    let rest = have_lone_field field rows in
    if length row == 1 then if is_some (lookup field row) then rest else false else false

-- `isSingleColumnRows`, with the field
unfoldable pub single_column : List Row → Option Bytes
unfolding have_lone_field
single_column [] = none
single_column ([] ∷ rows) = none
single_column (((field, v) ∷ []) ∷ rows) = if have_lone_field field rows then some field else none
single_column ((p ∷ q ∷ row) ∷ rows) = none

cell_lines : Bytes → List Row → Bytes
unfolding lookup printed
cell_lines field [] = []
cell_lines field (row ∷ rows) =
    codes "  " ++ printed (value (lookup field row)) ++ codes "\n" ++ cell_lines field rows

-- `writeSingleColumnRows`
unfoldable pub write_single_column : Bytes → List Row → Bool → Bytes
unfolding cell_lines
write_single_column field rows use_color =
    (if use_color then dim field else field) ++ codes "\n" ++ cell_lines field rows

-- A value to render; `other` carries what `writeReflective` writes for it.
pub data Value : Type 0 where
  nothing : Value
  dict : Row → Value
  row_list : List Row → Value
  other : Bytes → Value

write_rows : Option Bytes → List Row → Bool → Option Bytes
unfolding write_single_column rows_table
write_rows (some field) rows use_color = some (write_single_column field rows use_color)
write_rows none rows use_color = rows_table rows use_color

-- `renderTable`; none where it panics.
unfoldable pub render_table : Value → Bool → Option Bytes
unfolding write_kv write_rows single_column
render_table nothing use_color = some (codes "ok\n")
render_table (dict []) use_color = some (codes "ok\n")
render_table (dict (p ∷ m)) use_color = some (write_kv (p ∷ m) use_color)
render_table (row_list []) use_color = some (codes "ok\n")
render_table (row_list (r ∷ rows)) use_color =
    write_rows (single_column (r ∷ rows)) (r ∷ rows) use_color
render_table (other text) use_color = some text

-- The encoders of encoding/json and yaml.v3, and the colours.
pub record Encoders : Type 0 where
  pub render_json : Value → Option Bytes
  pub render_yaml : Value → Option Bytes
  pub use_color : Bool

by_format : Encoders → Format → Value → Option Bytes
unfolding render_table
by_format e auto v = none
by_format e json v = e.render_json v
by_format e yaml v = e.render_yaml v
by_format e table v = render_table v e.use_color

-- `Render`
unfoldable pub render : Encoders → Value → Format → Bool → Option Bytes
unfolding by_format
render e v auto is_tty = by_format e (if is_tty then table else json) v
render e v json is_tty = by_format e json v
render e v yaml is_tty = by_format e yaml v
render e v table is_tty = by_format e table v
