-- ===== src/Yxc/Validate.antt =====
-- pkg/yxc/validate.go: edit distance and suggestions. A string is the list of its runes.
pub mod Edit
pub mod Distance
pub mod Suggest
use yamaha_cli.Prelude.{
  ℕ, zero, suc, ◌+◌, Bool, true, false, ◌&&◌, ◌||◌, List, [], ◌∷◌, ◌==◌, ltb, if◌then◌else◌, length,
  take, map,
}
use yamaha_cli.Text.{Bytes, less_text}

unfoldable pub min3 : ℕ → ℕ → ℕ → ℕ
min3 a b c = let m = if ltb b a then b else a in if ltb c m then c else m

pub cost : ℕ → ℕ → ℕ
cost x y = if x == y then 0 else 1

-- `curr[1:]`, from `prev[j-1]`, `prev[j:]` and `curr[j-1]`.
pub cells : ℕ → Bytes → ℕ → List ℕ → ℕ → List ℕ
unfolding min3 cost
cells x [] diag ups left = []
cells x (y ∷ b) diag [] left = []
cells x (y ∷ b) diag (up ∷ ups) left =
    let c = min3 (up + 1) (left + 1) (diag + cost x y) in c ∷ cells x b up ups c

-- The row for the next rune `x`, the `i`-th.
pub next_row : ℕ → ℕ → Bytes → List ℕ → List ℕ
unfolding cells
next_row x i b [] = []
next_row x i b (p ∷ ps) = i ∷ cells x b p ps i

pub rows : Bytes → ℕ → Bytes → List ℕ → List ℕ
unfolding next_row
rows [] i b prev = prev
rows (x ∷ a) i b prev = rows a (suc i) b (next_row x i b prev)

-- `prev[j] = j`
pub first_row : ℕ → Bytes → List ℕ
first_row j [] = j ∷ []
first_row j (y ∷ b) = j ∷ first_row (suc j) b

-- `prev[len(br)]`
pub last_cell : List ℕ → ℕ
last_cell [] = 0
last_cell (p ∷ []) = p
last_cell (p ∷ q ∷ ps) = last_cell (q ∷ ps)

-- `Levenshtein` behind the swap, which puts the longer text first.
pub levenshtein_rows : Bytes → Bytes → ℕ
unfolding rows first_row last_cell
levenshtein_rows a [] = length a
levenshtein_rows a (y ∷ b) = last_cell (rows a 1 (y ∷ b) (first_row 0 (y ∷ b)))

unfoldable pub levenshtein : Bytes → Bytes → ℕ
unfolding levenshtein_rows
levenshtein a b = if ltb (length a) (length b) then levenshtein_rows b a else levenshtein_rows a b

pub record Scored : Type 0 where
  pub text : Bytes
  pub distance : ℕ

-- The order of `sort.SliceStable`.
pub less : Scored → Scored → Bool
unfolding less_text
less a b = if a.distance == b.distance then less_text a.text b.text else ltb a.distance b.distance

-- `sort.SliceStable`, as an insertion sort: an element goes in front of the first that is not less.
pub insert_scored : Scored → List Scored → List Scored
unfolding less
insert_scored x [] = x ∷ []
insert_scored x (y ∷ ys) = if less y x then y ∷ insert_scored x ys else x ∷ y ∷ ys

pub sort_scored : List Scored → List Scored
unfolding insert_scored
sort_scored [] = []
sort_scored (x ∷ xs) = insert_scored x (sort_scored xs)

pub score : Bytes → List Bytes → List Scored
unfolding levenshtein
score unknown [] = []
score unknown (c ∷ cs) = record { text = c; distance = levenshtein unknown c } ∷ score unknown cs

-- No answer for `n <= 0`, and at most all the candidates.
unfoldable pub did_you_mean : Bytes → List Bytes → ℕ → List Bytes
unfolding score sort_scored
did_you_mean unknown candidates n =
    map (λ s. s.text) (take n (sort_scored (score unknown candidates)))
