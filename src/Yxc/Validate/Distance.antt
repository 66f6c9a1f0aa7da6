-- ===== src/Yxc/Validate/Distance.antt =====
-- `Levenshtein` computes the least cost of an edit script.
use mathlib.Core.List.{reverse, reverse_aux, reverse-reverse}
use yamaha_cli.Prelude.{
  ℕ, suc, ◌+◌, ◌≤◌, ◌≡◌, refl, sym, subst, ap, ◌∙◌, Bool-cases, inl, inr, List, [], ◌∷◌, arith,
  length, ◌==◌, ==_iff, ◌⊎◌, ◌↔◌, subst₂,
}
use yamaha_cli.Text.{Bytes}
use yamaha_cli.Yxc.Validate.{
  min3, cost, cells, next_row, rows, first_row, last_cell, levenshtein_rows, levenshtein,
}
use yamaha_cli.Yxc.Validate.Edit.{
  Edit, done, same, substitute, insert, delete, costing, Edit-sym, Edit-refl, Edit-zero, Edit-trans,
  Edit-reverse, Edit-inserts, Edit-deletes,
}

-- The textbook recursion.
pub dist : Bytes → Bytes → ℕ
unfolding min3 cost
dist [] b = length b
dist (x ∷ a) [] = suc (length a)
dist (x ∷ a) (y ∷ b) = min3 (dist a (y ∷ b) + 1) (dist (x ∷ a) b + 1) (dist a b + cost x y)

min3-le : (a b c : ℕ) → (min3 a b c ≤ a) × (min3 a b c ≤ b) × (min3 a b c ≤ c)
unfolding min3
min3-le a b c = ground arith

min3-cases : (a b c : ℕ) → (min3 a b c ≡ a) ⊎ ((min3 a b c ≡ b) ⊎ (min3 a b c ≡ c))
unfolding min3
min3-cases a b c = ground arith

step_or_keep : {a b : Bytes} {n : ℕ} (x y : ℕ) → Edit a b n → Edit (x ∷ a) (y ∷ b) (n + cost x y)
unfolding cost
step_or_keep {a} {b} {n} x y e = elim (Bool-cases (x == y)) [
  | inl h ↦
      rw h
        (costing (omega arith) (subst (λ z. Edit (x ∷ a) (z ∷ b) n) ((==_iff x y).0 h) (same x e)))
  | inr h ↦ rw h (costing (omega arith) (substitute x y e))
]

-- It is met by a script.
dist-Edit : (a b : Bytes) → Edit a b (dist a b)
unfolding dist
dist-Edit [] b = Edit-inserts b
dist-Edit (x ∷ a) [] = Edit-deletes (x ∷ a)
dist-Edit (x ∷ a) (y ∷ b) =
    let deleted = delete x (dist-Edit a (y ∷ b)) in
    let inserted = insert y (dist-Edit (x ∷ a) b) in
    let kept = step_or_keep x y (dist-Edit a b) in
    elim (min3-cases (dist a (y ∷ b) + 1) (dist (x ∷ a) b + 1) (dist a b + cost x y)) [
      | inl e ↦ costing (omega arith) deleted
      | inr (inl e) ↦ costing (omega arith) inserted
      | inr (inr e) ↦ costing (omega arith) kept
    ]

dist-insert : (a b : Bytes) (y : ℕ) → dist a (y ∷ b) ≤ suc (dist a b)
unfolding dist
dist-insert [] b y = omega arith
dist-insert (x ∷ a) b y =
    omega (arith, min3-le (dist a (y ∷ b) + 1) (dist (x ∷ a) b + 1) (dist a b + cost x y))

dist-delete : (a b : Bytes) (x : ℕ) → dist (x ∷ a) b ≤ suc (dist a b)
unfolding dist
dist-delete [] [] x = omega arith
dist-delete (z ∷ a) [] x = omega arith
dist-delete a (y ∷ b) x =
    omega (arith, min3-le (dist a (y ∷ b) + 1) (dist (x ∷ a) b + 1) (dist a b + cost x y))

dist-cons : (a b : Bytes) (x y : ℕ) → dist (x ∷ a) (y ∷ b) ≤ dist a b + cost x y
unfolding dist
dist-cons a b x y =
    omega (arith, min3-le (dist a (y ∷ b) + 1) (dist (x ∷ a) b + 1) (dist a b + cost x y))

cost_bounds : (x y : ℕ) → (cost x x ≡ 0) × (cost x y ≤ 1)
unfolding cost
cost_bounds x y = ground arith

dist-le : {a b : Bytes} {n : ℕ} → Edit a b n → dist a b ≤ n
dist-le done = unfold dist in omega arith
dist-le (same {a} {b} x e) = omega (arith, dist-le e, dist-cons a b x x, cost_bounds x x)
dist-le (substitute {a} {b} x y e) = omega (arith, dist-le e, dist-cons a b x y, cost_bounds x y)
dist-le (insert {a} {b} y e) = omega (arith, dist-le e, dist-insert a b y)
dist-le (delete {a} {b} x e) = omega (arith, dist-le e, dist-delete a b x)

dist-reverse : (a b : Bytes) → dist (reverse a) (reverse b) ≡ dist a b
dist-reverse a b =
    let back = Edit-reverse (dist-Edit (reverse a) (reverse b)) in
    let there = dist-le (
      subst₂ (λ s t. Edit s t (dist (reverse a) (reverse b))) (reverse-reverse a)
        (reverse-reverse b) back) in
    omega (arith, there, dist-le (Edit-reverse (dist-Edit a b)))

dist_comm : (a b : Bytes) → dist a b ≡ dist b a
dist_comm a b =
    omega (arith, dist-le (Edit-sym (dist-Edit a b)), dist-le (Edit-sym (dist-Edit b a)))

dist-nil : (ra : Bytes) → dist ra [] ≡ length ra
unfolding dist
dist-nil [] = refl
dist-nil (x ∷ a) = refl

-- The rows of the table, for a reversed prefix of one text and the prefixes of the other.
spec_tail : Bytes → Bytes → Bytes → List ℕ
spec_tail ra rb [] = []
spec_tail ra rb (y ∷ b) = dist ra (y ∷ rb) ∷ spec_tail ra (y ∷ rb) b

cells-spec_tail :
    (x : ℕ) (ra rb b : Bytes)
    → cells x b (dist ra rb) (spec_tail ra rb b) (dist (x ∷ ra) rb) ≡ spec_tail (x ∷ ra) rb b
unfolding cells spec_tail dist
cells-spec_tail x ra rb [] = refl
cells-spec_tail x ra rb (y ∷ b) =
    ap (λ cs. dist (x ∷ ra) (y ∷ rb) ∷ cs) (cells-spec_tail x ra (y ∷ rb) b)

first_row-spec_tail : (rb b : Bytes) → first_row (length rb) b ≡ dist [] rb ∷ spec_tail [] rb b
unfolding first_row spec_tail dist
first_row-spec_tail rb [] = refl
first_row-spec_tail rb (y ∷ b) = ap (λ r. length rb ∷ r) (first_row-spec_tail (y ∷ rb) b)

last_cell-spec_tail :
    (ra rb b : Bytes) → last_cell (dist ra rb ∷ spec_tail ra rb b) ≡ dist ra (reverse_aux b rb)
unfolding last_cell spec_tail
last_cell-spec_tail ra rb [] = refl
last_cell-spec_tail ra rb (y ∷ b) = last_cell-spec_tail ra (y ∷ rb) b

spec_row : Bytes → Bytes → List ℕ
spec_row ra b = dist ra [] ∷ spec_tail ra [] b

next_row-spec_row :
    (x : ℕ) (ra b : Bytes) → next_row x (suc (length ra)) b (spec_row ra b) ≡ spec_row (x ∷ ra) b
unfolding next_row spec_row
next_row-spec_row x ra b =
    ap (λ i. i ∷ cells x b (dist ra []) (spec_tail ra [] b) i) (sym (dist-nil (x ∷ ra)))
    ∙ ap (λ cs. dist (x ∷ ra) [] ∷ cs) (cells-spec_tail x ra [] b)

rows-spec_row :
    (a ra b : Bytes) → rows a (suc (length ra)) b (spec_row ra b) ≡ spec_row (reverse_aux a ra) b
unfolding rows
rows-spec_row [] ra b = refl
rows-spec_row (x ∷ a) ra b = rw next_row-spec_row (rows-spec_row a (x ∷ ra) b)

levenshtein_rows-dist : (a b : Bytes) → levenshtein_rows a b ≡ dist a b
unfolding levenshtein_rows spec_row dist
levenshtein_rows-dist a [] = sym (dist-nil a)
levenshtein_rows-dist a (y ∷ b) =
    ap (λ r. last_cell (rows a 1 (y ∷ b) r)) (first_row-spec_tail [] (y ∷ b))
    ∙ ap last_cell (rows-spec_row a [] (y ∷ b))
    ∙ last_cell-spec_tail (reverse a) [] (y ∷ b)
    ∙ dist-reverse a (y ∷ b)

levenshtein-dist : (a b : Bytes) → levenshtein a b ≡ dist a b
unfolding levenshtein
levenshtein-dist a b =
    ground (arith, levenshtein_rows-dist a b, levenshtein_rows-dist b a, dist_comm a b)

-- The two-row table holds the edit distance: there is a script of that cost from one text to the
-- other, and none costs less.
pub levenshtein_least :
    (a b : Bytes) → Edit a b (levenshtein a b) × ((n : ℕ) → Edit a b n → levenshtein a b ≤ n)
levenshtein_least a b = (
  costing (sym (levenshtein-dist a b)) (dist-Edit a b),
  λ n e. omega (arith, levenshtein-dist a b, dist-le e),
)

-- The distance is a metric: it is 0 between equal texts only, symmetric, and obeys the triangle
-- inequality.
pub levenshtein_metric :
    (a b c : Bytes)
    → ((levenshtein a b ≡ 0) ↔ (a ≡ b))
      × (levenshtein a b ≡ levenshtein b a)
      × (levenshtein a c ≤ levenshtein a b + levenshtein b c)
levenshtein_metric a b c =
    let (k, le, path) = Edit-trans (dist-Edit a b) (dist-Edit b c) in
    (
      (
        λ e. Edit-zero (levenshtein_least a b).0 e,
        λ e. omega (arith, dist-le (subst (λ s. Edit a s 0) e (Edit-refl a)), levenshtein-dist a b),
      ),
      levenshtein-dist a b ∙ dist_comm a b ∙ sym (levenshtein-dist b a),
      omega (arith, dist-le path, levenshtein-dist a c, levenshtein-dist a b, levenshtein-dist b c),
    )
