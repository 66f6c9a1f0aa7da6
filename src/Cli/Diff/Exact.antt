-- ===== src/Cli/Diff/Exact.antt =====
-- What `ynca diff` lists.
use yamaha_cli.Prelude.{
  ◌≡◌, refl, sym, ap, ap₂, ◌∙◌, ◌++◌, Bool, false, ◌||◌, ◌&&◌, not, List, [], ◌∷◌, Option, none,
  some, arith, Bool-cases, inl, inr,
}
use yamaha_cli.Text.{
  Bytes, has, equal, equal_iff, sort_texts, has-sort_texts, sort_texts-Ascending,
  sort_texts-Unrepeated, less_text, insert_text, has-append, Unrepeated, Ascending-unique, Dict,
  lookup, lookup-insert,
}
use yamaha_cli.Cli.Diff.{
  reported_key, add_key, scan_transcript, missing, split_subunit_func, or_nil, append_to, group,
  sort_groups, diff,
}

abbrev pub is_this : Bytes → Option Bytes → Bool
is_this t none = false
is_this t (some key) = equal key t

-- Some line of the dump reports a value for the key.
abbrev pub reports : Bytes → List Bytes → Bool
reports t [] = false
reports t (text ∷ lines) = is_this t (reported_key text) || reports t lines

has-add_key :
    (t : Bytes) (k : Option Bytes) (set : List Bytes)
    → has t (add_key k set) ≡ (is_this t k || has t set)
unfolding has add_key
has-add_key t none set = refl
has-add_key t (some key) set = ground (arith, equal_iff key t)

add_key-Unrepeated :
    (k : Option Bytes) (set : List Bytes) → Unrepeated set → Unrepeated (add_key k set)
unfolding add_key
add_key-Unrepeated none set h = h
add_key-Unrepeated (some key) set h = elim (Bool-cases (has key set)) [
  | inl e ↦ rw e h
  | inr e ↦ rw e (e, h)
]

has-scan_transcript :
    (t : Bytes) (lines set : List Bytes)
    → has t (scan_transcript lines set) ≡ (reports t lines || has t set)
unfolding scan_transcript
has-scan_transcript t [] set = refl
has-scan_transcript t (text ∷ lines) set = ground (
  arith,
  has-scan_transcript t lines (add_key (reported_key text) set),
  has-add_key t (reported_key text) set,
)

scan_transcript-Unrepeated :
    (lines set : List Bytes) → Unrepeated set → Unrepeated (scan_transcript lines set)
unfolding scan_transcript
scan_transcript-Unrepeated [] set h = h
scan_transcript-Unrepeated (text ∷ lines) set h =
    scan_transcript-Unrepeated lines (add_key (reported_key text) set)
      (add_key-Unrepeated (reported_key text) set h)

has-missing :
    (t : Bytes) (ref other : List Bytes)
    → has t (missing ref other) ≡ (has t other && not (has t ref))
unfolding has missing
has-missing t ref [] = refl
has-missing t ref (key ∷ other) = ground (arith, has-missing t ref other, equal_iff key t)

missing-Unrepeated : (ref other : List Bytes) → Unrepeated other → Unrepeated (missing ref other)
unfolding missing
missing-Unrepeated ref [] h = tt
missing-Unrepeated ref (key ∷ other) h = elim (Bool-cases (has key ref)) [
  | inl e ↦ rw e (missing-Unrepeated ref other h.1)
  | inr e ↦ rw e (ground (arith, has-missing key ref other, h.0), missing-Unrepeated ref other h.1)
]

abbrev is_pair : Bytes → Bytes → Bytes × Bytes → Bool
is_pair su fn (s, f) = equal s su && equal f fn

-- Some key has these parts.
abbrev pub parts : Bytes → Bytes → List Bytes → Bool
parts su fn [] = false
parts su fn (key ∷ keys) = is_pair su fn (split_subunit_func key) || parts su fn keys

has-append_to :
    (su fn : Bytes) (p : Bytes × Bytes) (groups : Dict (List Bytes))
    → has fn (or_nil (lookup su (append_to p groups)))
      ≡ (is_pair su fn p || has fn (or_nil (lookup su groups)))
unfolding has
has-append_to su fn (s, f) groups = elim (Bool-cases (equal s su)) [
  | inl e ↦
      let q : s ≡ su = (equal_iff s su).0 e in
      rw (is_pair, lookup-insert s su (or_nil (lookup s groups) ++ f ∷ []) groups, e, q)
        (has-append fn (or_nil (lookup su groups)) (f ∷ [])
          ∙ last (has fn (or_nil (lookup su groups))) (equal f fn))
  | inr e ↦ rw (is_pair, lookup-insert s su (or_nil (lookup s groups) ++ f ∷ []) groups, e) refl
]
  where
    last : (a b : Bool) → (a || (b || has fn [])) ≡ (b || a)
    last a b = ground arith

has-group :
    (su fn : Bytes) (keys : List Bytes) (groups : Dict (List Bytes))
    → has fn (or_nil (lookup su (group keys groups)))
      ≡ (parts su fn keys || has fn (or_nil (lookup su groups)))
unfolding group
has-group su fn [] groups = refl
has-group su fn (key ∷ keys) groups =
    has-group su fn keys (append_to (split_subunit_func key) groups)
    ∙ ap (λ b. parts su fn keys || b) (has-append_to su fn (split_subunit_func key) groups)
    ∙ swap (parts su fn keys) (is_pair su fn (split_subunit_func key))
        (has fn (or_nil (lookup su groups)))
  where
    swap : (a b c : Bool) → (a || (b || c)) ≡ ((b || a) || c)
    swap a b c = ground arith

has-sort_groups :
    (su fn : Bytes) (groups : Dict (List Bytes))
    → has fn (or_nil (lookup su (sort_groups groups))) ≡ has fn (or_nil (lookup su groups))
unfolding sort_groups lookup
has-sort_groups su fn [] = refl
has-sort_groups su fn ((s, fns) ∷ groups) = elim (Bool-cases (equal s su)) [
  | inl e ↦ rw e (has-sort_texts fn fns)
  | inr e ↦ rw e (has-sort_groups su fn groups)
]

parts-insert_text :
    (su fn key : Bytes) (keys : List Bytes)
    → parts su fn (insert_text key keys)
      ≡ (is_pair su fn (split_subunit_func key) || parts su fn keys)
unfolding insert_text
parts-insert_text su fn key [] = refl
parts-insert_text su fn key (k ∷ keys) = elim (Bool-cases (less_text k key)) [
  | inl e ↦ rw e (
      ap (λ b. is_pair su fn (split_subunit_func k) || b) (parts-insert_text su fn key keys)
      ∙ swap (is_pair su fn (split_subunit_func k)) (is_pair su fn (split_subunit_func key))
          (parts su fn keys))
  | inr e ↦ rw e refl
]
  where
    swap : (a b c : Bool) → (a || (b || c)) ≡ (b || (a || c))
    swap a b c = ground arith

parts-sort_texts :
    (su fn : Bytes) (keys : List Bytes) → parts su fn (sort_texts keys) ≡ parts su fn keys
unfolding sort_texts
parts-sort_texts su fn [] = refl
parts-sort_texts su fn (key ∷ keys) =
    parts-insert_text su fn key (sort_texts keys)
    ∙ ap (λ b. is_pair su fn (split_subunit_func key) || b) (parts-sort_texts su fn keys)

-- The keys that are missing, before they are sorted.
abbrev found : List Bytes → List Bytes → List Bytes
found reference other = missing (scan_transcript reference []) (scan_transcript other [])

or_nothing : (t : Bytes) (a : Bool) → (a || has t []) ≡ a
unfolding has
or_nothing t a = ground arith

has-found :
    (t : Bytes) (reference other : List Bytes)
    → has t (found reference other) ≡ (reports t other && not (reports t reference))
has-found t reference other =
    has-missing t (scan_transcript reference []) (scan_transcript other [])
    ∙ ap₂ (λ a b. a && not b) (alone other) (alone reference)
  where
    alone : (lines : List Bytes) → has t (scan_transcript lines []) ≡ reports t lines
    alone lines = has-scan_transcript t lines [] ∙ or_nothing t (reports t lines)

found-Unrepeated : (reference other : List Bytes) → Unrepeated (found reference other)
found-Unrepeated reference other =
    missing-Unrepeated (scan_transcript reference []) (scan_transcript other [])
      (scan_transcript-Unrepeated other [] tt)

-- A key is listed if and only if the other dump reports a value for it and the reference does not, and
-- it is listed once. A function is listed under a subunit if and only if one of the listed keys splits into the
-- two. Dumps that report the same keys give the same list, whatever the order of their lines.
pub diff-IsExact :
    (reference other reference' other' : List Bytes)
    → ((t : Bytes)
        → has t (diff reference other).added ≡ (reports t other && not (reports t reference)))
      × Unrepeated (diff reference other).added
      × ((su fn : Bytes)
          → has fn (or_nil (lookup su (diff reference other).by_subunit))
            ≡ parts su fn (diff reference other).added)
      × (((t : Bytes) → reports t reference ≡ reports t reference')
          → ((t : Bytes) → reports t other ≡ reports t other')
          → (diff reference other).added ≡ (diff reference' other').added)
unfolding diff lookup
diff-IsExact reference other reference' other' =
    let keys = found reference other in
    let keys' = found reference' other' in
    (
      λ t. has-sort_texts t keys ∙ has-found t reference other,
      sort_texts-Unrepeated keys (found-Unrepeated reference other),
      λ su fn.
          has-sort_groups su fn (group keys [])
          ∙ has-group su fn keys []
          ∙ or_nothing fn (parts su fn keys)
          ∙ sym (parts-sort_texts su fn keys),
      λ same same'.
          Ascending-unique (sort_texts keys) (sort_texts keys')
            (sort_texts-Ascending keys (found-Unrepeated reference other))
            (sort_texts-Ascending keys' (found-Unrepeated reference' other'))
            λ t.
              has-sort_texts t keys
              ∙ has-found t reference other
              ∙ ap₂ (λ a b. a && not b) (same' t) (same t)
              ∙ sym (has-found t reference' other')
              ∙ sym (has-sort_texts t keys'),
    )
