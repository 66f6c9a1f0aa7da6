-- ===== src/Text/Scan.antt =====
-- The lines of a text, as `bufio.Scanner` gives them, and `%q`.
use mathlib.Core.List.{reverse, reverse-cons}
use yamaha_cli.Prelude.{
  ℕ, ◌+◌, ◌/◌, ◌%◌, Bool, true, false, ◌||◌, List, [], ◌∷◌, ◌++◌, append-nil, append_assoc, ◌≡◌,
  ◌≢◌, refl, ap, ◌∙◌, sym, ◌⊎◌, inl, inr, Bool-cases, arith, if◌then◌else◌, ◌==◌, ltb, ==_iff,
}
use yamaha_cli.Text.Equal.{Bytes, codes, Lacks}
use yamaha_cli.Text.Search.{trim_space}
use yamaha_cli.Text.Edges.{trim_space-snoc}

-- A line without the carriage return that ends it.
unfoldable pub drop_cr : Bytes → Bytes
drop_cr [] = []
drop_cr (c ∷ []) = if c == 13 then [] else c ∷ []
drop_cr (c ∷ d ∷ s) = c ∷ drop_cr (d ∷ s)

-- `line` is what was read of a line, with its last byte in front; an unfinished last line counts.
unfoldable pub scan_from : Bytes → Bytes → List Bytes
unfolding drop_cr
scan_from [] [] = []
scan_from (b ∷ line) [] = drop_cr (reverse (b ∷ line)) ∷ []
scan_from line (c ∷ s) =
    let rest = scan_from (if c == 10 then [] else c ∷ line) s in
    if c == 10 then drop_cr (reverse line) ∷ rest else rest

-- The lines that `bufio.ScanLines` gives, without the cap on their length.
unfoldable pub scan_lines : Bytes → List Bytes
unfolding scan_from
scan_lines s = scan_from [] s

drop_cr-cases : (s : Bytes) → (drop_cr s ≡ s) ⊎ (s ≡ drop_cr s ++ 13 ∷ [])
unfolding drop_cr
drop_cr-cases [] = inl refl
drop_cr-cases (c ∷ []) = elim (Bool-cases (c == 13)) [
  | inl e ↦ inr (rw e (ap (λ n. n ∷ []) ((==_iff c 13).0 e)))
  | inr e ↦ inl (rw e refl)
]
drop_cr-cases (c ∷ d ∷ s) = elim (drop_cr-cases (d ∷ s)) [
  | inl e ↦ inl (ap (λ t. c ∷ t) e)
  | inr e ↦ inr (ap (λ t. c ∷ t) e)
]

pub trim_space-drop_cr : (s : Bytes) → trim_space (drop_cr s) ≡ trim_space s
trim_space-drop_cr s = elim (drop_cr-cases s) [
  | inl e ↦ ap trim_space e
  | inr e ↦ sym (trim_space-snoc (drop_cr s) 13 refl) ∙ ap trim_space (sym e)
]

scan_from-line :
    (line s more : Bytes)
    → Lacks 10 s
    → scan_from line (s ++ (10 ∷ more)) ≡ drop_cr (reverse line ++ s) ∷ scan_lines more
unfolding scan_from scan_lines
scan_from-line line [] more h =
    ap (λ t. drop_cr t ∷ scan_from [] more) (sym (append-nil (reverse line)))
scan_from-line line (c ∷ s) more h =
    let e : c == 10 ≡ false = ground (arith, h.0) in
    rw e (
      scan_from-line (c ∷ line) s more h.1
      ∙ ap (λ t. drop_cr t ∷ scan_from [] more)
          (ap (λ t. t ++ s) (reverse-cons c line) ∙ append_assoc (reverse line) (c ∷ []) s))

-- A whole line in front of a text is the first of its lines.
pub scan_lines-line :
    (s more : Bytes) → Lacks 10 s → scan_lines (s ++ (10 ∷ more)) ≡ drop_cr s ∷ scan_lines more
unfolding scan_lines
scan_lines-line s more h = scan_from-line [] s more h

-- A hexadecimal digit.
abbrev hex : ℕ → ℕ
hex n = if ltb n 10 then 48 + n else 87 + n

escape : ℕ → Bytes
escape c =
    if c == 34
    then codes "\\\""
    else if c == 92
    then codes "\\\\"
    else if c == 7
    then codes "\\a"
    else if c == 8
    then codes "\\b"
    else if c == 9
    then codes "\\t"
    else if c == 10
    then codes "\\n"
    else if c == 11
    then codes "\\v"
    else if c == 12
    then codes "\\f"
    else if c == 13
    then codes "\\r"
    else if ltb c 32 || c == 127
    then codes "\\x" ++ hex (c / 16) ∷ hex (c % 16) ∷ []
    else c ∷ []

escape_all : Bytes → Bytes
unfolding escape
escape_all [] = []
escape_all (c ∷ s) = escape c ++ escape_all s

-- `%q`; beyond ASCII every byte is taken as printable.
unfoldable pub quote : Bytes → Bytes
unfolding escape_all
quote s = codes "\"" ++ escape_all s ++ codes "\""

pub Lacks-append : (b : ℕ) (s t : Bytes) → Lacks b s → Lacks b t → Lacks b (s ++ t)
Lacks-append b [] t h k = k
Lacks-append b (c ∷ s) t h k = (h.0, Lacks-append b s t h.1 k)

hex-ne : (n : ℕ) → hex n ≢ 10
hex-ne n = ground arith

choose :
    (b : Bool) (s t : Bytes) → Lacks 10 s → (b ≡ false → Lacks 10 t) → Lacks 10 (if b then s else t)
choose true s t h k = h
choose false s t h k = k refl

unfoldable pub has_ten : Bytes → Bool
has_ten [] = false
has_ten (c ∷ s) = c == 10 || has_ten s

-- The codes of a literal lack a line feed.
pub lit : (s : Bytes) → has_ten s ≡ false → Lacks 10 s
unfolding has_ten
lit [] h = tt
lit (c ∷ s) h = (ground arith, lit s (ground arith))

escape-Lacks : (c : ℕ) → Lacks 10 (escape c)
unfolding escape has_ten
escape-Lacks c = choose (c == 34) (codes "\\\"") _ (lit (codes "\\\"") refl) λ _.
    choose (c == 92) (codes "\\\\") _ (lit (codes "\\\\") refl) λ _.
      choose (c == 7) (codes "\\a") _ (lit (codes "\\a") refl) λ _.
        choose (c == 8) (codes "\\b") _ (lit (codes "\\b") refl) λ _.
          choose (c == 9) (codes "\\t") _ (lit (codes "\\t") refl) λ _.
            choose (c == 10) (codes "\\n") _ (lit (codes "\\n") refl) λ e.
              choose (c == 11) (codes "\\v") _ (lit (codes "\\v") refl) λ _.
                choose (c == 12) (codes "\\f") _ (lit (codes "\\f") refl) λ _.
                  choose (c == 13) (codes "\\r") _ (lit (codes "\\r") refl) λ _.
                    choose (ltb c 32 || c == 127) _ _
                      (Lacks-append 10 (codes "\\x") (hex (c / 16) ∷ hex (c % 16) ∷ [])
                        (lit (codes "\\x") refl) (hex-ne (c / 16), (hex-ne (c % 16), tt)))
                      λ _. (ground arith, tt)

escape_all-Lacks : (s : Bytes) → Lacks 10 (escape_all s)
unfolding escape_all
escape_all-Lacks [] = tt
escape_all-Lacks (c ∷ s) = Lacks-append 10 (escape c) _ (escape-Lacks c) (escape_all-Lacks s)

-- What is quoted stands on one line.
pub quote-Lacks : (s : Bytes) → Lacks 10 (quote s)
unfolding quote has_ten
quote-Lacks s =
    Lacks-append 10 (codes "\"" ++ escape_all s) (codes "\"")
      (Lacks-append 10 (codes "\"") _ (lit (codes "\"") refl) (escape_all-Lacks s))
      (lit (codes "\"") refl)

abbrev pub onto_head : ℕ → List Bytes → List Bytes
onto_head c [] = (c ∷ []) ∷ []
onto_head c (l ∷ ls) = (c ∷ l) ∷ ls

-- `strings.Split` at a byte
unfoldable pub split_by : ℕ → Bytes → List Bytes
split_by b [] = [] ∷ []
split_by b (c ∷ s) = let rest = split_by b s in if c == b then [] ∷ rest else onto_head c rest
