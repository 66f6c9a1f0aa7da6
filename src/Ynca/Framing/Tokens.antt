-- ===== src/Ynca/Framing/Tokens.antt =====
-- The lines of a stream, and what one answer of `splitCRLF` takes of them.
use yamaha_cli.Prelude.{
  ℕ, suc, ◌+◌, ◌≤◌, ◌<◌, Bool, true, false, length-take, List, [], ◌∷◌, ◌++◌, append-nil, none,
  some, ◌==◌, if◌then◌else◌, take, drop, length, drop-length, ◌≡◌, refl, arith, Bool-cases,
  Option-cases, inl, inr,
}
use yamaha_cli.Text.{Bytes}
use yamaha_cli.Ynca.Framing.{is_crlf, find_crlf, trim_cr, split_crlf, max_token_size}

-- `c` in front of the first line
abbrev pub onto_first : ℕ → List Bytes → List Bytes
onto_first c [] = (c ∷ []) ∷ []
onto_first c (l ∷ ls) = (c ∷ l) ∷ ls

-- The lines of a whole stream, byte by byte.
unfoldable pub lines_of : Bytes → List Bytes
lines_of [] = []
lines_of (a ∷ []) = if a == b'\r' then [] ∷ [] else (a ∷ []) ∷ []
lines_of (a ∷ b ∷ s) = if is_crlf a b then [] ∷ lines_of s else onto_first a (lines_of (b ∷ s))

pub lines_of-nil : lines_of [] ≡ []
unfolding lines_of
lines_of-nil = refl

lines_of_crlf :
    (s more : Bytes) (i : ℕ)
    → find_crlf s ≡ some i
    → lines_of (s ++ more) ≡ take i s ∷ lines_of (drop (suc (suc i)) s ++ more)
unfolding find_crlf lines_of
lines_of_crlf [] more i h = cc
lines_of_crlf (a ∷ []) more i h = cc
lines_of_crlf (a ∷ b ∷ s) more i h = elim (Bool-cases (is_crlf a b)) [
  | inl yes_crlf ↦ ground arith
  | inr no_crlf ↦ elim (Option-cases (find_crlf (b ∷ s))) [
    | inl e ↦ ground arith
    | inr (j, e) ↦ ground (arith, lines_of_crlf (b ∷ s) more j)
  ]
]

lines_of_rest :
    (c : ℕ) (s : Bytes) → find_crlf (c ∷ s) ≡ none → lines_of (c ∷ s) ≡ trim_cr (c ∷ s) ∷ []
unfolding find_crlf trim_cr lines_of
lines_of_rest c [] h = ground arith
lines_of_rest c (d ∷ s) h = elim (Bool-cases (is_crlf c d)) [
  | inl e ↦ ground arith
  | inr e ↦ elim (Option-cases (find_crlf (d ∷ s))) [
    | inl e' ↦ rw e (rw (lines_of_rest d s e'))
    | inr (j, e') ↦ ground arith
  ]
]

find_crlf_lt : (s : Bytes) (i : ℕ) → find_crlf s ≡ some i → suc i < length s
unfolding find_crlf
find_crlf_lt [] i h = cc
find_crlf_lt (a ∷ []) i h = cc
find_crlf_lt (a ∷ b ∷ s) i h = elim (Bool-cases (is_crlf a b)) [
  | inl e ↦ ground arith
  | inr e ↦ elim (Option-cases (find_crlf (b ∷ s))) [
    | inl e' ↦ ground arith
    | inr (j, e') ↦ ground (arith, find_crlf_lt (b ∷ s) j e')
  ]
]

length-trim_cr : (s : Bytes) → length s ≤ suc (length (trim_cr s))
unfolding trim_cr
length-trim_cr [] = omega arith
length-trim_cr (c ∷ []) = ground arith
length-trim_cr (c ∷ d ∷ s) = omega (arith, length-trim_cr (d ∷ s))

-- Nothing is behind the end of the input.
abbrev pub AtEnd : Bool → Bytes → Type 0
AtEnd true more = more ≡ []
AtEnd false more = Unit

pub split_end : (s : Bytes) → split_crlf s true ≡ none → lines_of s ≡ []
unfolding split_crlf lines_of
split_end [] h = refl
split_end (c ∷ s) h = elim (Option-cases (find_crlf (c ∷ s))) [
  | inl e ↦ ground arith
  | inr (i, e) ↦ ground arith
]

-- The token is the first line, and the bytes that are read for it are two more at most.
pub record IsToken (s more : Bytes) (n : ℕ) (token : Bytes) : Type 0 where
  pub moves : 0 < n
  pub holds : 0 < length s
  pub near : n ≤ length token + 2
  pub first : lines_of (s ++ more) ≡ token ∷ lines_of (drop n s ++ more)

found-IsToken :
    (s more : Bytes) (i : ℕ) → find_crlf s ≡ some i → IsToken s more (suc (suc i)) (take i s)
found-IsToken s more i e =
    let below = find_crlf_lt s i e in
    record {
      moves = omega arith;
      holds = omega arith;
      near = ground (arith, length-take i s);
      first = lines_of_crlf s more i e;
    }

rest-IsToken :
    (c : ℕ) (s : Bytes)
    → find_crlf (c ∷ s) ≡ none
    → IsToken (c ∷ s) [] (length (c ∷ s)) (trim_cr (c ∷ s))
rest-IsToken c s e = record {
  moves = omega arith;
  holds = omega arith;
  near = omega (arith, length-trim_cr (c ∷ s));
  first = rw (append-nil s, drop-length s, lines_of_rest c s e, lines_of-nil) refl;
}

pub split_crlf-IsToken :
    (at_eof : Bool) (s more : Bytes) {n : ℕ} {token : Bytes}
    → AtEnd at_eof more
    → split_crlf s at_eof ≡ some (n, token)
    → IsToken s more n token
unfolding split_crlf
split_crlf-IsToken at_eof [] more end h = cc
split_crlf-IsToken false (c ∷ s) more end h = elim (Option-cases (find_crlf (c ∷ s))) [
  | inl e ↦ ground arith
  | inr (i, e) ↦ ground (arith, found-IsToken (c ∷ s) more i e)
]
split_crlf-IsToken true (c ∷ s) more end h = elim (Option-cases (find_crlf (c ∷ s))) [
  | inl e ↦ ground (arith, rest-IsToken c s e)
  | inr (i, e) ↦ ground (arith, found-IsToken (c ∷ s) more i e)
]

-- The stream has a line that does not fit the buffer, behind these lines.
abbrev pub IsOverlong : Bytes → List Bytes → Type 0
IsOverlong stream before =
    (l : Bytes) × (after : List Bytes) × (lines_of stream ≡ before ++ l ∷ after)
    × (max_token_size ≤ suc (length l))

-- Without a terminator in the buffer, the first line is as long as the buffer, or misses its `\r`.
pub first_line :
    (c : ℕ) (s more : Bytes)
    → find_crlf (c ∷ s) ≡ none
    → (l : Bytes) × (ls : List Bytes) × (lines_of (c ∷ s ++ more) ≡ l ∷ ls)
      × (length (c ∷ s) ≤ suc (length l))
unfolding find_crlf lines_of
first_line c [] [] h = elim (Bool-cases (c == b'\r')) [
  | inl e ↦ ([], [], rw e refl, omega arith)
  | inr e ↦ (c ∷ [], [], rw e refl, omega arith)
]
first_line c [] (d ∷ more) h = elim (Bool-cases (is_crlf c d)) [
  | inl e ↦ ([], lines_of more, rw e refl, omega arith)
  | inr e ↦ rw e (first_of (lines_of (d ∷ more)))
]
  where
    first_of :
        (lines : List Bytes)
        → (l : Bytes) × (ls : List Bytes) × (onto_first c lines ≡ l ∷ ls) × (1 ≤ suc (length l))
    first_of [] = (c ∷ [], [], refl, omega arith)
    first_of (l ∷ ls) = (c ∷ l, ls, refl, omega arith)
first_line c (d ∷ s) more h = elim (Bool-cases (is_crlf c d)) [
  | inl e ↦ ground arith
  | inr e ↦
      let (l, ls, same, long) = first_line d s more (ground arith) in
      rw (e, same) (c ∷ l, ls, refl, omega arith)
]
