-- ===== src/Output/Table/Columns.antt =====
-- The columns of a table do not depend on the order in which maps are visited.
use yamaha_cli.Prelude.{
  ◌≡◌, refl, sym, ◌∙◌, ap, ap₂, ◌++◌, Bool, true, false, ◌||◌, ◌&&◌, not, List, [], ◌∷◌, is_some,
  arith, inl, inr, Bool-cases, if◌then◌else◌,
}
use yamaha_cli.Text.{
  Bytes, has, equal, equal_iff, lookup, sort_texts, Unrepeated, has-append, has-sort_texts,
  sort_texts-Ascending, sort_texts-Unrepeated, equal_refl, Ascending-unique,
}
use yamaha_cli.Output.Table.{
  Row, keys, see, seen_keys, delete, take_preferred, preferred, then_sorted, row_columns,
}

-- One of the rows has the key.
abbrev pub is_key : Bytes → List Row → Bool
is_key t [] = false
is_key t (row ∷ rows) = is_some (lookup t row) || is_key t rows

has-keys : (t : Bytes) (row : Row) → has t (keys row) ≡ is_some (lookup t row)
unfolding has keys lookup
has-keys t [] = refl
has-keys t ((k, v) ∷ row) = ground (arith, has-keys t row)

has-see : (t : Bytes) (ks seen : List Bytes) → has t (see ks seen) ≡ (has t ks || has t seen)
unfolding has see
has-see t [] seen = refl
has-see t (k ∷ ks) seen = elim (Bool-cases (has k seen)) [
  | inl e ↦ rw (see, e) (ground (arith, has-see t ks seen, equal_iff k t))
  | inr e ↦ rw (see, e) (ground (arith, has-see t ks (k ∷ seen)))
]

see-Unrepeated : (ks seen : List Bytes) → Unrepeated seen → Unrepeated (see ks seen)
unfolding see
see-Unrepeated [] seen h = h
see-Unrepeated (k ∷ ks) seen h = elim (Bool-cases (has k seen)) [
  | inl e ↦ rw (see, e) (see-Unrepeated ks seen h)
  | inr e ↦ rw (see, e) (see-Unrepeated ks (k ∷ seen) (e, h))
]

has-seen_keys :
    (t : Bytes) (rows : List Row) (seen : List Bytes)
    → has t (seen_keys rows seen) ≡ (is_key t rows || has t seen)
unfolding seen_keys
has-seen_keys t [] seen = refl
has-seen_keys t (row ∷ rows) seen =
    ground
      (arith, has-seen_keys t rows (see (keys row) seen), has-see t (keys row) seen, has-keys t row)

seen_keys-Unrepeated :
    (rows : List Row) (seen : List Bytes) → Unrepeated seen → Unrepeated (seen_keys rows seen)
unfolding seen_keys
seen_keys-Unrepeated [] seen h = h
seen_keys-Unrepeated (row ∷ rows) seen h =
    seen_keys-Unrepeated rows (see (keys row) seen) (see-Unrepeated (keys row) seen h)

has-delete : (t k : Bytes) (xs : List Bytes) → has t (delete k xs) ≡ (has t xs && not (equal k t))
unfolding has delete
has-delete t k [] = refl
has-delete t k (x ∷ xs) =
    ground (arith, has-delete t k xs, equal_iff x k, equal_iff x t, equal_iff k t)

delete-Unrepeated : (k : Bytes) (xs : List Bytes) → Unrepeated xs → Unrepeated (delete k xs)
unfolding delete
delete-Unrepeated k [] h = tt
delete-Unrepeated k (x ∷ xs) h = elim (Bool-cases (equal x k)) [
  | inl e ↦ rw e (delete-Unrepeated k xs h.1)
  | inr e ↦ rw e (ground (arith, has-delete x k xs, h.0), delete-Unrepeated k xs h.1)
]

-- The keys that are left once one of them is taken.
abbrev left : Bytes → List Bytes → List Bytes
left k seen = if has k seen then delete k seen else seen

has-left : (t k : Bytes) (seen : List Bytes) → has t (left k seen) ≡ (has t seen && not (equal k t))
has-left t k seen = ground (arith, has-delete t k seen, equal_iff k t)

left-Unrepeated : (k : Bytes) (seen : List Bytes) → Unrepeated seen → Unrepeated (left k seen)
left-Unrepeated k seen h = elim (Bool-cases (has k seen)) [
  | inl e ↦ rw e (delete-Unrepeated k seen h)
  | inr e ↦ rw e h
]

has-rest :
    (t : Bytes) (ks seen : List Bytes)
    → has t (take_preferred ks seen).1 ≡ (has t seen && not (has t ks))
unfolding take_preferred has
has-rest t [] seen = ground arith
has-rest t (k ∷ ks) seen = ground (arith, has-rest t ks (left k seen), has-left t k seen)

has-taken :
    (t : Bytes) (ks seen : List Bytes) → has t (take_preferred ks seen).0 ≡ (has t seen && has t ks)
unfolding take_preferred has
has-taken t [] seen = ground arith
has-taken t (k ∷ ks) seen =
    ground (arith, has-taken t ks (left k seen), has-left t k seen, equal_iff k t)

rest-Unrepeated : (ks seen : List Bytes) → Unrepeated seen → Unrepeated (take_preferred ks seen).1
unfolding take_preferred
rest-Unrepeated [] seen h = h
rest-Unrepeated (k ∷ ks) seen h = rest-Unrepeated ks (left k seen) (left-Unrepeated k seen h)

taken-same :
    (ks seen seen' : List Bytes)
    → ((t : Bytes) → has t seen ≡ has t seen')
    → (take_preferred ks seen).0 ≡ (take_preferred ks seen').0
unfolding take_preferred
taken-same [] seen seen' same = refl
taken-same (k ∷ ks) seen seen' same =
    let rest : (take_preferred ks (left k seen)).0 ≡ (take_preferred ks (left k seen')).0 =
      taken-same ks (left k seen) (left k seen')
        λ t. has-left t k seen ∙ ground (arith, same t) ∙ sym (has-left t k seen') in
    ap₂ (λ b columns. if b then k ∷ columns else columns) (same k) rest

append-Unrepeated :
    (xs ys : List Bytes)
    → Unrepeated xs
    → Unrepeated ys
    → ((t : Bytes) → has t xs ≡ true → has t ys ≡ false)
    → Unrepeated (xs ++ ys)
unfolding has
append-Unrepeated [] ys h k apart = k
append-Unrepeated (x ∷ xs) ys h k apart = (
  ground (arith, has-append x xs ys, h.0, apart x, equal_refl x),
  append-Unrepeated xs ys h.1 k (λ t e. apart t (ground arith)),
)

taken-Unrepeated : (ks seen : List Bytes) → Unrepeated (take_preferred ks seen).0
unfolding take_preferred
taken-Unrepeated [] seen = tt
taken-Unrepeated (k ∷ ks) seen = elim (Bool-cases (has k seen)) [
  | inl e ↦ rw e (
    ground (arith, has-taken k ks (delete k seen), has-delete k k seen, equal_refl k),
    taken-Unrepeated ks (delete k seen),
  )
  | inr e ↦ rw e (taken-Unrepeated ks seen)
]

row_columns-Unrepeated : (rows : List Row) → Unrepeated (row_columns rows)
unfolding row_columns then_sorted
row_columns-Unrepeated rows =
    let seen = seen_keys rows [] in
    let r = take_preferred preferred seen in
    append-Unrepeated r.0 (sort_texts r.1) (taken-Unrepeated preferred seen)
      (sort_texts-Unrepeated r.1 (rest-Unrepeated preferred seen (seen_keys-Unrepeated rows [] tt)))
      λ t e.
        has-sort_texts t r.1
        ∙ has-rest t preferred seen
        ∙ not_both (has t seen) (has t preferred) (sym (has-taken t preferred seen) ∙ e)
  where
    not_both : (a b : Bool) → (a && b) ≡ true → (a && not b) ≡ false
    not_both a b e = ground arith

same_columns :
    (seen seen' : List Bytes)
    → Unrepeated seen
    → Unrepeated seen'
    → ((t : Bytes) → has t seen ≡ has t seen')
    → then_sorted (take_preferred preferred seen) ≡ then_sorted (take_preferred preferred seen')
unfolding then_sorted
same_columns seen seen' h h' same =
    let r = take_preferred preferred seen in
    let r' = take_preferred preferred seen' in
    ap₂ ◌++◌ (taken-same preferred seen seen' same) (
      Ascending-unique (sort_texts r.1) (sort_texts r'.1)
        (sort_texts-Ascending r.1 (rest-Unrepeated preferred seen h))
        (sort_texts-Ascending r'.1 (rest-Unrepeated preferred seen' h'))
        λ t. ground (
          arith,
          has-sort_texts t r.1,
          has-sort_texts t r'.1,
          has-rest t preferred seen,
          has-rest t preferred seen',
          same t,
        ))

has-then_sorted :
    (t : Bytes) (r : List Bytes × List Bytes) → has t (then_sorted r) ≡ (has t r.0 || has t r.1)
unfolding then_sorted
has-then_sorted t (columns, rest) =
    has-append t columns (sort_texts rest) ∙ ap (λ b. has t columns || b) (has-sort_texts t rest)

has-row_columns : (t : Bytes) (rows : List Row) → has t (row_columns rows) ≡ is_key t rows
unfolding row_columns
has-row_columns t rows =
    let seen = seen_keys rows [] in
    has-then_sorted t (take_preferred preferred seen)
    ∙ ap₂ ◌||◌ (has-taken t preferred seen) (has-rest t preferred seen)
    ∙ either_way (has t seen) (has t preferred)
    ∙ has-seen_keys t rows []
    ∙ or_false (is_key t rows)
  where
    either_way : (a b : Bool) → ((a && b) || (a && not b)) ≡ a
    either_way a b = ground arith

    or_false : (a : Bool) → (a || has t []) ≡ a
    or_false a = ground arith

-- Each key of some row has one column, and there is no other column. Rows that have the same keys
-- have the same columns in the same order, whatever order the rows and their keys are visited in.
pub row_columns-unordered :
    (rows rows' : List Row)
    → ((t : Bytes) → has t (row_columns rows) ≡ is_key t rows)
      × Unrepeated (row_columns rows)
      × (((t : Bytes) → is_key t rows ≡ is_key t rows') → row_columns rows ≡ row_columns rows')
unfolding row_columns
row_columns-unordered rows rows' = (
  λ t. has-row_columns t rows,
  row_columns-Unrepeated rows,
  λ same.
      same_columns (seen_keys rows []) (seen_keys rows' []) (seen_keys-Unrepeated rows [] tt)
        (seen_keys-Unrepeated rows' [] tt)
        λ t.
          has-seen_keys t rows []
          ∙ ap (λ b. b || has t []) (same t)
          ∙ sym (has-seen_keys t rows' []),
)
