-- ===== src/Ynca/Wire/Grammar.antt =====
-- `parseLine` accepts exactly the lines of the grammar, and takes them apart as they were built.
use yamaha_cli.Prelude.{
  ℕ, suc, ◌-◌, ◌≤◌, ◌<◌, ◌≡◌, ◌≢◌, sym, subst, ap₂, ap, ◌∙◌, [], ◌∷◌, ◌++◌, append_assoc, some,
  arith, take, drop, length, length-append, Option-cases, inl, inr, All-append, All-of_append,
}
use yamaha_cli.Text.{
  Bytes, Lacks, equal_iff, index_byte, index_byte-append, take-length-append,
  drop-suc-length-append, take_cut, FoundAt, FoundAt-unique, index_byte-FoundAt,
}
use yamaha_cli.Ynca.Errors.{ok}
use yamaha_cli.Ynca.Wire.{Line, cut_line, parse_line}

-- The line of a subunit, a function and a value, as `get` and `put` build it.
abbrev pub body_of : Line → Bytes
body_of l = l.subunit ++ b':' ∷ (l.function ++ b'=' ∷ l.value)

abbrev pub line_of : Line → Bytes
line_of l = b'@' ∷ body_of l

-- The lines of the grammar.
pub record IsLine (l : Line) : Type 0 where
  pub subunit_ne_nil : l.subunit ≢ []
  pub function_ne_nil : l.function ≢ []
  pub subunit_colon : Lacks b':' l.subunit
  pub subunit_equals : Lacks b'=' l.subunit
  pub function_equals : Lacks b'=' l.function

-- What `parse_line` computes to behind the `@`.
parse_line_at :
    (body : Bytes) {colon eq : ℕ}
    → index_byte body b':' ≡ some colon
    → index_byte body b'=' ≡ some eq
    → colon ≤ eq
    → parse_line (b'@' ∷ body) ≡ cut_line (b'@' ∷ body) body colon eq
unfolding parse_line
parse_line_at body c e h = ground arith

colon_index : (l : Line) → IsLine l → index_byte (body_of l) b':' ≡ some (length l.subunit)
colon_index l h = index_byte-append l.subunit _ b':' h.subunit_colon

body_split : (l : Line) → body_of l ≡ (l.subunit ++ b':' ∷ l.function) ++ b'=' ∷ l.value
body_split l = sym (append_assoc l.subunit (b':' ∷ l.function) (b'=' ∷ l.value))

equals_index :
    (l : Line)
    → IsLine l
    → index_byte (body_of l) b'=' ≡ some (length (l.subunit ++ b':' ∷ l.function))
equals_index l h =
    ap (λ s. index_byte s b'=') (body_split l)
    ∙ index_byte-append (l.subunit ++ b':' ∷ l.function) l.value b'='
        (All-append (λ c. c ≢ b'=') l.subunit _ h.subunit_equals (omega arith, h.function_equals))

-- The slices that `parse_line` cuts at these places.
record CutsAt (l : Line) (colon eq : ℕ) : Type 0 where
  subunit : take colon (body_of l) ≡ l.subunit
  function : take (eq - suc colon) (drop (suc colon) (body_of l)) ≡ l.function
  value : drop (suc eq) (body_of l) ≡ l.value

function_length :
    (l : Line)
    → length (l.subunit ++ b':' ∷ l.function) - suc (length l.subunit) ≡ length l.function
function_length l = omega (arith, length-append {0} l.subunit (b':' ∷ l.function))

body_of-CutsAt : (l : Line) → CutsAt l (length l.subunit) (length (l.subunit ++ b':' ∷ l.function))
body_of-CutsAt l = record {
  subunit = take-length-append l.subunit _;
  function =
      rw (drop-suc-length-append l.subunit _ b':', function_length l)
        (take-length-append l.function _);
  value =
      ap (drop (suc (length (l.subunit ++ b':' ∷ l.function)))) (body_split l)
      ∙ drop-suc-length-append (l.subunit ++ b':' ∷ l.function) l.value b'=';
}

-- Every line of the grammar is taken apart into the subunit, the function and the value that it was
-- built of, whatever bytes the value holds.
pub parse_line-line_of : (l : Line) → IsLine l → parse_line (line_of l) ≡ ok l
unfolding cut_line
parse_line-line_of l h =
    let cuts = body_of-CutsAt l in
    parse_line_at (body_of l) (colon_index l h) (equals_index l h)
      (omega (arith, length-append {0} l.subunit (b':' ∷ l.function)))
    ∙ ground (
      arith,
      cuts.subunit,
      cuts.function,
      cuts.value,
      equal_iff l.subunit [],
      equal_iff l.function [],
    )

-- The line that `cut_line` cuts.
abbrev cut : Bytes → ℕ → ℕ → Line
cut body colon eq = record {
  subunit = take colon body;
  function = take (eq - suc colon) (drop (suc colon) body);
  value = drop (suc eq) body;
}

cut_line-eq-ok :
    (line body : Bytes) (colon eq : ℕ) {l : Line}
    → cut_line line body colon eq ≡ ok l
    → (l ≡ cut body colon eq)
      × ((cut body colon eq).subunit ≢ [])
      × ((cut body colon eq).function ≢ [])
unfolding cut_line
cut_line-eq-ok line body colon eq h =
    let l = cut body colon eq in ground (arith, equal_iff l.subunit [], equal_iff l.function [])

module _ (body : Bytes) {colon eq : ℕ} (f : FoundAt body b':' colon) (g : FoundAt body b'=' eq)
    (lt : colon < eq) where
  cut_front : take eq body ≡ (cut body colon eq).subunit ++ b':' ∷ (cut body colon eq).function
  cut_front = take_cut body colon eq b':' f.here lt

  cut-body_of : body ≡ body_of (cut body colon eq)
  cut-body_of =
      g.splits
      ∙ ap (λ s. s ++ b'=' ∷ drop (suc eq) body) cut_front
      ∙ sym (body_split (cut body colon eq))

  cut-IsLine :
      (cut body colon eq).subunit ≢ []
      → (cut body colon eq).function ≢ []
      → IsLine (cut body colon eq)
  cut-IsLine hs hf =
      let parts =
        All-of_append (λ c. c ≢ b'=') (cut body colon eq).subunit
          (b':' ∷ (cut body colon eq).function) (subst (Lacks b'=') cut_front g.absent) in
      record {
        subunit_ne_nil = hs;
        function_ne_nil = hf;
        subunit_colon = f.absent;
        subunit_equals = parts.0;
        function_equals = parts.1.1;
      }

cut_line_sound :
    (line body : Bytes) {colon eq : ℕ} {l : Line}
    → FoundAt body b':' colon
    → FoundAt body b'=' eq
    → colon < eq
    → cut_line line body colon eq ≡ ok l
    → (body ≡ body_of l) × IsLine l
cut_line_sound line body {colon} {eq} f g lt h =
    let (same, hs, hf) = cut_line-eq-ok line body colon eq h in
    subst (λ l. (body ≡ body_of l) × IsLine l) (sym same)
      (cut-body_of body f g lt, cut-IsLine body f g lt hs hf)

parse_line-eq-ok :
    (c : ℕ) (body : Bytes) {colon eq : ℕ} {l : Line}
    → index_byte body b':' ≡ some colon
    → index_byte body b'=' ≡ some eq
    → parse_line (c ∷ body) ≡ ok l
    → (c ≡ b'@') × (colon ≤ eq) × (cut_line (c ∷ body) body colon eq ≡ ok l)
unfolding parse_line
parse_line-eq-ok c body found found' h = ground arith

-- A line that `parseLine` accepts is one of the grammar, and is spelt by what it returns.
pub parse_line_sound : (s : Bytes) {l : Line} → parse_line s ≡ ok l → (s ≡ line_of l) × IsLine l
unfolding parse_line
parse_line_sound [] h = ground arith
parse_line_sound (c ∷ body) h = elim (Option-cases (index_byte body b':')) [
  | inl e ↦ ground arith
  | inr (colon, found) ↦ elim (Option-cases (index_byte body b'=')) [
    | inl e ↦ ground arith
    | inr (eq, found') ↦
        let f = index_byte-FoundAt body b':' found in
        let g = index_byte-FoundAt body b'=' found' in
        let (at, le, cuts) = parse_line-eq-ok c body found found' h in
        let ne : colon ≢ eq = λ e. absurd (omega (arith, FoundAt-unique f g e)) in
        let (spelt, valid) = cut_line_sound (c ∷ body) body f g (omega arith) cuts in
        (ap₂ ◌∷◌ at spelt, valid)
  ]
]
