-- ===== src/Text/Order.antt =====
-- `<` on strings, and `sort.Strings`.
use yamaha_cli.Prelude.{
  ◌≡◌, refl, ◌++◌, ◌∙◌, ap₂, Bool, true, false, ◌||◌, List, [], ◌∷◌, arith, ltb, ◌==◌,
  if◌then◌else◌, inl, inr, Bool-cases, All,
}
use yamaha_cli.Text.Equal.{Bytes, equal, equal_iff, equal_refl}

unfoldable pub less_text : Bytes → Bytes → Bool
less_text [] [] = false
less_text [] (y ∷ b) = true
less_text (x ∷ a) [] = false
less_text (x ∷ a) (y ∷ b) = if x == y then less_text a b else ltb x y

pub less_text_trans :
    (a b c : Bytes) → less_text a b ≡ false → less_text b c ≡ false → less_text a c ≡ false
unfolding less_text
less_text_trans [] [] c h k = k
less_text_trans [] (y ∷ b) c h k = cc
less_text_trans (x ∷ a) b [] h k = refl
less_text_trans (x ∷ a) [] (z ∷ c) h k = cc
less_text_trans (x ∷ a) (y ∷ b) (z ∷ c) h k = ground (arith, less_text_trans a b c)

pub less_text_asym : (a b : Bytes) → less_text a b ≡ true → less_text b a ≡ false
unfolding less_text
less_text_asym [] [] h = refl
less_text_asym [] (y ∷ b) h = refl
less_text_asym (x ∷ a) [] h = cc
less_text_asym (x ∷ a) (y ∷ b) h = ground (arith, less_text_asym a b)

less_text_total : (a b : Bytes) → less_text a b ≡ false → less_text b a ≡ false → equal a b ≡ true
unfolding less_text equal
less_text_total [] [] h k = refl
less_text_total [] (y ∷ b) h k = cc
less_text_total (x ∷ a) [] h k = cc
less_text_total (x ∷ a) (y ∷ b) h k = ground (arith, less_text_total a b)

unfoldable pub has : Bytes → List Bytes → Bool
unfolding equal
has t [] = false
has t (x ∷ xs) = equal x t || has t xs

unfoldable pub insert_text : Bytes → List Bytes → List Bytes
unfolding less_text
insert_text x [] = x ∷ []
insert_text x (y ∷ ys) = if less_text y x then y ∷ insert_text x ys else x ∷ y ∷ ys

-- `sort.Strings`
unfoldable pub sort_texts : List Bytes → List Bytes
unfolding insert_text
sort_texts [] = []
sort_texts (x ∷ xs) = insert_text x (sort_texts xs)

-- No text stands twice.
abbrev pub Unrepeated : List Bytes → Type 0
Unrepeated [] = Unit
Unrepeated (x ∷ xs) = (has x xs ≡ false) × Unrepeated xs

-- Each text is below those behind it.
abbrev Below : Bytes → List Bytes → Type 0
Below x = All (λ y. less_text x y ≡ true)

abbrev Ascending : List Bytes → Type 0
Ascending [] = Unit
Ascending (x ∷ xs) = Below x xs × Ascending xs

pub has-append : (t : Bytes) (xs ys : List Bytes) → has t (xs ++ ys) ≡ (has t xs || has t ys)
unfolding has
has-append t [] ys = refl
has-append t (x ∷ xs) ys = ground (arith, has-append t xs ys)

pub has-insert_text :
    (t x : Bytes) (ys : List Bytes) → has t (insert_text x ys) ≡ (equal x t || has t ys)
unfolding has insert_text
has-insert_text t x [] = refl
has-insert_text t x (y ∷ ys) = ground (arith, has-insert_text t x ys)

pub has-sort_texts : (t : Bytes) (xs : List Bytes) → has t (sort_texts xs) ≡ has t xs
unfolding has sort_texts
has-sort_texts t [] = refl
has-sort_texts t (x ∷ xs) = ground (arith, has-insert_text t x (sort_texts xs), has-sort_texts t xs)

less_text_step :
    (a b c : Bytes) → less_text a b ≡ true → less_text b c ≡ true → less_text a c ≡ true
unfolding less_text
less_text_step [] [] c h k = k
less_text_step [] (y ∷ b) [] h k = k
less_text_step [] (y ∷ b) (z ∷ c) h k = refl
less_text_step (x ∷ a) [] c h k = ground arith
less_text_step (x ∷ a) (y ∷ b) [] h k = k
less_text_step (x ∷ a) (y ∷ b) (z ∷ c) h k = ground (arith, less_text_step a b c)

Below-step : (a b : Bytes) (ys : List Bytes) → less_text a b ≡ true → Below b ys → Below a ys
Below-step a b [] h all = tt
Below-step a b (y ∷ ys) h all = (less_text_step a b y h all.0, Below-step a b ys h all.1)

Below-insert_text :
    (a x : Bytes) (ys : List Bytes) → less_text a x ≡ true → Below a ys → Below a (insert_text x ys)
unfolding insert_text
Below-insert_text a x [] h all = (h, tt)
Below-insert_text a x (y ∷ ys) h all = elim (Bool-cases (less_text y x)) [
  | inl e ↦ rw e (all.0, Below-insert_text a x ys h all.1)
  | inr e ↦ rw e (h, all)
]

insert_text-Ascending :
    (x : Bytes) (ys : List Bytes) → has x ys ≡ false → Ascending ys → Ascending (insert_text x ys)
unfolding insert_text has
insert_text-Ascending x [] n h = (tt, tt)
insert_text-Ascending x (y ∷ ys) n h = elim (Bool-cases (less_text y x)) [
  | inl e ↦ rw e (Below-insert_text y x ys e h.0, insert_text-Ascending x ys (ground arith) h.1)
  | inr e ↦
      let l : less_text x y ≡ true = ground (arith, less_text_total y x) in
      rw e ((l, Below-step x y ys l h.0), h)
]

pub sort_texts-Ascending : (xs : List Bytes) → Unrepeated xs → Ascending (sort_texts xs)
unfolding sort_texts
sort_texts-Ascending [] h = tt
sort_texts-Ascending (x ∷ xs) h =
    insert_text-Ascending x (sort_texts xs) (has-sort_texts x xs ∙ h.0)
      (sort_texts-Ascending xs h.1)

has-Below : (a t : Bytes) (ys : List Bytes) → Below a ys → has t ys ≡ true → less_text a t ≡ true
unfolding has
has-Below a t [] all e = ground arith
has-Below a t (y ∷ ys) all e = elim (Bool-cases (equal y t)) [
  | inl q ↦ rw (← (equal_iff y t).0 q) all.0
  | inr q ↦ has-Below a t ys all.1 (ground arith)
]

-- A text is not among those it is below.
absent : (a : Bytes) (ys : List Bytes) → Below a ys → has a ys ≡ false
absent a ys all = ground (arith, has-Below a a ys all, less_text_asym a a)

Ascending-Unrepeated : (xs : List Bytes) → Ascending xs → Unrepeated xs
Ascending-Unrepeated [] h = tt
Ascending-Unrepeated (x ∷ xs) h = (absent x xs h.0, Ascending-Unrepeated xs h.1)

pub sort_texts-Unrepeated : (xs : List Bytes) → Unrepeated xs → Unrepeated (sort_texts xs)
sort_texts-Unrepeated xs h = Ascending-Unrepeated (sort_texts xs) (sort_texts-Ascending xs h)

same_head :
    (x y : Bytes) (xs ys : List Bytes)
    → Below x xs
    → Below y ys
    → has x (y ∷ ys) ≡ true
    → has y (x ∷ xs) ≡ true
    → x ≡ y
unfolding has
same_head x y xs ys hx hy e f = (equal_iff x y).0 (
    ground (
      arith,
      equal_iff x y,
      equal_iff y x,
      has-Below y x ys hy,
      has-Below x y xs hx,
      less_text_asym x y,
    ))

-- Ascending lists of the same texts are equal.
pub Ascending-unique :
    (xs ys : List Bytes)
    → Ascending xs
    → Ascending ys
    → ((t : Bytes) → has t xs ≡ has t ys)
    → xs ≡ ys
unfolding has
Ascending-unique [] [] h k same = refl
Ascending-unique [] (y ∷ ys) h k same = ground (arith, same y, equal_refl y)
Ascending-unique (x ∷ xs) [] h k same = ground (arith, same x, equal_refl x)
Ascending-unique (x ∷ xs) (y ∷ ys) h k same =
    let q : x ≡ y =
      same_head x y xs ys h.0 k.0 (ground (arith, same x, equal_refl x))
        (ground (arith, same y, equal_refl y)) in
    ap₂ ◌∷◌ q (
      Ascending-unique xs ys h.1 k.1
        λ t. ground (arith, same t, equal_iff x t, equal_iff y t, absent x xs h.0, absent y ys k.0))
