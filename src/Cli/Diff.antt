-- ===== src/Cli/Diff.antt =====
-- internal/cli/ynca_diff.go: the functions that one dump reports and another does not. A dump is the
-- list of its lines; a set, and a map's visit of its keys, is a list.
pub mod Exact
use yamaha_cli.Prelude.{
  ℕ, suc, ◌+◌, ◌-◌, ◌++◌, Bool, true, false, ◌||◌, not, List, [], ◌∷◌, Option, none, some, ltb,
  ◌==◌, if◌then◌else◌, take, drop,
}
use yamaha_cli.Text.{
  Bytes, codes, is_empty, has_prefix, trim_space, trim_right_by, index_byte, to_upper, has,
  sort_texts, Dict, lookup, insert,
}

-- `"@"+strings.ToUpper(su)+":"+strings.ToUpper(fn)`, unless one of them is empty
unfoldable pub key_of : Bytes → Bytes → Option Bytes
unfolding to_upper
key_of su fn =
    if is_empty su || is_empty fn
    then none
    else some (codes "@" ++ to_upper su ++ codes ":" ++ to_upper fn)

-- The body of a line, with the places of its colon and its equals sign.
unfoldable pub body_key : Bytes → Option ℕ → Option ℕ → Option Bytes
unfolding key_of
body_key body none eq = none
body_key body (some colon) none = none
body_key body (some colon) (some eq) =
    if ltb eq colon
    then none
    else key_of (take colon body) (take (eq - (colon + 1)) (drop (colon + 1) body))

-- What stands behind the `@` of a line.
unfoldable pub line_key : Bytes → Option Bytes
unfolding body_key index_byte has_prefix
line_key line =
    if is_empty line || has_prefix line (codes "#") || not (has_prefix line (codes "@"))
    then none
    else body_key (drop 1 line) (index_byte (drop 1 line) 58) (index_byte (drop 1 line) 61)

-- `,` and `"`
abbrev pub is_quoting : ℕ → Bool
is_quoting c = c == 34 || c == 44

-- The key that a line of a dump reports a value for.
unfoldable pub reported_key : Bytes → Option Bytes
unfolding line_key trim_right_by trim_space
reported_key text = line_key (trim_right_by is_quoting (trim_space text))

unfoldable pub add_key : Option Bytes → List Bytes → List Bytes
unfolding has
add_key none set = set
add_key (some key) set = if has key set then set else key ∷ set

-- `scanTranscript`
unfoldable pub scan_transcript : List Bytes → List Bytes → List Bytes
unfolding add_key reported_key
scan_transcript [] set = set
scan_transcript (text ∷ lines) set = scan_transcript lines (add_key (reported_key text) set)

-- `strings.TrimPrefix(key, "@")`
abbrev pub without_at : Bytes → Bytes
without_at key = if has_prefix key (codes "@") then drop 1 key else key

abbrev pub cut_colon : Bytes → Option ℕ → Bytes × Bytes
cut_colon body none = (body, [])
cut_colon body (some i) = (take i body, drop (i + 1) body)

-- `splitSubunitFunc`
unfoldable pub split_subunit_func : Bytes → Bytes × Bytes
unfolding index_byte has_prefix
split_subunit_func key = cut_colon (without_at key) (index_byte (without_at key) 58)

-- The keys of the other dump that the reference does not have.
unfoldable pub missing : List Bytes → List Bytes → List Bytes
unfolding has
missing ref [] = []
missing ref (key ∷ other) = let rest = missing ref other in if has key ref then rest else key ∷ rest

-- The value of a map, or the nil slice.
abbrev pub or_nil : Option (List Bytes) → List Bytes
or_nil none = []
or_nil (some l) = l

abbrev pub append_to : Bytes × Bytes → Dict (List Bytes) → Dict (List Bytes)
append_to (su, fn) groups = insert su (or_nil (lookup su groups) ++ fn ∷ []) groups

unfoldable pub group : List Bytes → Dict (List Bytes) → Dict (List Bytes)
unfolding split_subunit_func
group [] groups = groups
group (key ∷ keys) groups = group keys (append_to (split_subunit_func key) groups)

unfoldable pub sort_groups : Dict (List Bytes) → Dict (List Bytes)
unfolding sort_texts
sort_groups [] = []
sort_groups ((su, fns) ∷ groups) = (su, sort_texts fns) ∷ sort_groups groups

pub record Difference : Type 0 where
  pub added : List Bytes
  pub by_subunit : Dict (List Bytes)

-- The run of `ynca diff`, over the lines of both dumps.
unfoldable pub diff : List Bytes → List Bytes → Difference
unfolding scan_transcript missing sort_texts group sort_groups
diff reference other =
    let keys = missing (scan_transcript reference []) (scan_transcript other []) in
    record { added = sort_texts keys; by_subunit = sort_groups (group keys []) }
