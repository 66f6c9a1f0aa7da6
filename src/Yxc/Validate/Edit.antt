-- ===== src/Yxc/Validate/Edit.antt =====
-- What an edit distance means: a script of insertions, deletions and substitutions, each of cost 1.
use yamaha_cli.Prelude.{ℕ, suc, ◌+◌, ◌≤◌, ◌≡◌, refl, subst, [], ◌∷◌, ◌++◌, arith, length, ap}
use yamaha_cli.Text.{Bytes}
use mathlib.Core.List.{reverse, reverse_aux}

-- `Edit a b n`: a script of cost `n` takes `a` to `b`.
pub data Edit : Bytes → Bytes → ℕ → Type 0 where
  done : Edit [] [] 0
  same : {a b : Bytes} {n : ℕ} (x : ℕ) → Edit a b n → Edit (x ∷ a) (x ∷ b) n
  substitute : {a b : Bytes} {n : ℕ} (x y : ℕ) → Edit a b n → Edit (x ∷ a) (y ∷ b) (suc n)
  insert : {a b : Bytes} {n : ℕ} (y : ℕ) → Edit a b n → Edit a (y ∷ b) (suc n)
  delete : {a b : Bytes} {n : ℕ} (x : ℕ) → Edit a b n → Edit (x ∷ a) b (suc n)

pub Edit-sym : {a b : Bytes} {n : ℕ} → Edit a b n → Edit b a n
Edit-sym done = done
Edit-sym (same x e) = same x (Edit-sym e)
Edit-sym (substitute x y e) = substitute y x (Edit-sym e)
Edit-sym (insert y e) = delete y (Edit-sym e)
Edit-sym (delete x e) = insert x (Edit-sym e)

pub Edit-refl : (a : Bytes) → Edit a a 0
Edit-refl [] = done
Edit-refl (x ∷ a) = same x (Edit-refl a)

pub Edit-zero : {a b : Bytes} {n : ℕ} → Edit a b n → n ≡ 0 → a ≡ b
Edit-zero done h = refl
Edit-zero (same x e) h = ap (λ s. x ∷ s) (Edit-zero e h)
Edit-zero (substitute x y e) h = absurd (omega arith)
Edit-zero (insert y e) h = absurd (omega arith)
Edit-zero (delete x e) h = absurd (omega arith)

pub costing : {a b : Bytes} {m n : ℕ} → m ≡ n → Edit a b m → Edit a b n
costing {a} {b} h e = subst (Edit a b) h e

pub Edit-append :
    {a b c d : Bytes} {m n : ℕ} → Edit a b m → Edit c d n → Edit (a ++ c) (b ++ d) (m + n)
Edit-append done f = costing (omega arith) f
Edit-append (same x e) f = same x (Edit-append e f)
Edit-append (substitute x y e) f = costing (omega arith) (substitute x y (Edit-append e f))
Edit-append (insert y e) f = costing (omega arith) (insert y (Edit-append e f))
Edit-append (delete x e) f = costing (omega arith) (delete x (Edit-append e f))

-- A script of cost at most `n`.
abbrev pub Within : Bytes → Bytes → ℕ → Type 0
Within a b n = (k : ℕ) × (k ≤ n) × Edit a b k

-- Two scripts one after the other make one that costs no more.
pub Edit-trans : {a b c : Bytes} {m n : ℕ} → Edit a b m → Edit b c n → Within a c (m + n)
Edit-trans done done = (0, omega arith, done)
Edit-trans (delete x e) f = let (k, le, g) = Edit-trans e f in (suc k, omega arith, delete x g)
Edit-trans e (insert y f) = let (k, le, g) = Edit-trans e f in (suc k, omega arith, insert y g)
Edit-trans (same x e) (same y f) = let (k, le, g) = Edit-trans e f in (k, omega arith, same x g)
Edit-trans (same x e) (substitute y z f) =
    let (k, le, g) = Edit-trans e f in (suc k, omega arith, substitute x z g)
Edit-trans (same x e) (delete y f) =
    let (k, le, g) = Edit-trans e f in (suc k, omega arith, delete x g)
Edit-trans (substitute x y e) (same z f) =
    let (k, le, g) = Edit-trans e f in (suc k, omega arith, substitute x y g)
Edit-trans (substitute x y e) (substitute z w f) =
    let (k, le, g) = Edit-trans e f in (suc k, omega arith, substitute x w g)
Edit-trans (substitute x y e) (delete z f) =
    let (k, le, g) = Edit-trans e f in (suc k, omega arith, delete x g)
Edit-trans (insert y e) (same z f) =
    let (k, le, g) = Edit-trans e f in (suc k, omega arith, insert y g)
Edit-trans (insert y e) (substitute z w f) =
    let (k, le, g) = Edit-trans e f in (suc k, omega arith, insert w g)
Edit-trans (insert y e) (delete z f) = let (k, le, g) = Edit-trans e f in (k, omega arith, g)

-- A script read backwards.
pub Edit-reverse : {a b : Bytes} {n : ℕ} → Edit a b n → Edit (reverse a) (reverse b) n
Edit-reverse {a} {b} {n} e = costing (omega arith) (go e done)
  where
    go :
        {a b c d : Bytes} {m n : ℕ}
        → Edit a b m
        → Edit c d n
        → Edit (reverse_aux a c) (reverse_aux b d) (m + n)
    go done f = costing (omega arith) f
    go (same x e) f = go e (same x f)
    go (substitute x y e) f = costing (omega arith) (go e (substitute x y f))
    go (insert y e) f = costing (omega arith) (go e (insert y f))
    go (delete x e) f = costing (omega arith) (go e (delete x f))

pub Edit-inserts : (b : Bytes) → Edit [] b (length b)
Edit-inserts [] = done
Edit-inserts (y ∷ b) = insert y (Edit-inserts b)

pub Edit-deletes : (a : Bytes) → Edit a [] (length a)
Edit-deletes [] = done
Edit-deletes (x ∷ a) = delete x (Edit-deletes a)

-- A script costs at least the difference in length.
pub Edit-length :
    {a b : Bytes} {n : ℕ} → Edit a b n → (length b ≤ length a + n) × (length a ≤ length b + n)
Edit-length done = omega arith
Edit-length (same x e) = omega (arith, Edit-length e)
Edit-length (substitute x y e) = omega (arith, Edit-length e)
Edit-length (insert y e) = omega (arith, Edit-length e)
Edit-length (delete x e) = omega (arith, Edit-length e)
