-- ===== src/Text/Index.antt =====
-- Laws of `strings.IndexByte` and of the slices that a program cuts at its answer.
use yamaha_cli.Prelude.{
  ℕ, zero, suc, ◌≡◌, ◌<◌, ◌-◌, refl, ap, [], ◌∷◌, ◌++◌, some, arith, ◌==◌, take, drop, length,
  Bool-cases, Option-cases, inl, inr,
}
use yamaha_cli.Text.Equal.{Bytes, Lacks}
use yamaha_cli.Text.Search.{index_byte}

pub index_byte-append :
    (p r : Bytes) (b : ℕ) → Lacks b p → index_byte (p ++ b ∷ r) b ≡ some (length p)
unfolding index_byte
index_byte-append [] r b h = ground arith
index_byte-append (c ∷ p) r b h = ground (arith, index_byte-append p r b h.1)

pub take-length-append : (p r : Bytes) → take (length p) (p ++ r) ≡ p
take-length-append [] r = refl
take-length-append (c ∷ p) r = ap (◌∷◌ c) (take-length-append p r)

pub drop-length-append : (p r : Bytes) → drop (length p) (p ++ r) ≡ r
drop-length-append [] r = refl
drop-length-append (c ∷ p) r = drop-length-append p r

pub drop-suc-length-append : (p r : Bytes) (b : ℕ) → drop (suc (length p)) (p ++ b ∷ r) ≡ r
drop-suc-length-append [] r b = refl
drop-suc-length-append (c ∷ p) r b = drop-suc-length-append p r b

-- A longer slice, cut at a place inside it.
pub take_cut :
    (s : Bytes) (i j : ℕ) (b : ℕ)
    → drop i s ≡ b ∷ drop (suc i) s
    → i < j
    → take j s ≡ take i s ++ b ∷ take (j - suc i) (drop (suc i) s)
take_cut [] zero j b h lt = cc
take_cut [] (suc i) j b h lt = cc
take_cut (c ∷ s) i zero b h lt = absurd (omega arith)
take_cut (c ∷ s) zero (suc j) b h lt = ground arith
take_cut (c ∷ s) (suc i) (suc j) b h lt = ground (arith, take_cut s i j b h (omega arith))

-- What is known of a byte that was found.
pub record FoundAt (s : Bytes) (b i : ℕ) : Type 0 where
  pub splits : s ≡ take i s ++ b ∷ drop (suc i) s
  pub here : drop i s ≡ b ∷ drop (suc i) s
  pub absent : Lacks b (take i s)

pub index_byte-FoundAt : (s : Bytes) (b : ℕ) {i : ℕ} → index_byte s b ≡ some i → FoundAt s b i
unfolding index_byte
index_byte-FoundAt [] b h = cc
index_byte-FoundAt (c ∷ s) b h = elim (Bool-cases (c == b)) [
  | inl e ↦ ground arith
  | inr e ↦ elim (Option-cases (index_byte s b)) [
    | inl e' ↦ ground arith
    | inr (j, e') ↦ ground (arith, index_byte-FoundAt s b e')
  ]
]

-- One place holds one byte.
pub FoundAt-unique : {s : Bytes} {b c i j : ℕ} → FoundAt s b i → FoundAt s c j → i ≡ j → b ≡ c
FoundAt-unique {s} {b} {c} {i} {j} f g e = cc (f.here, rw (← e) at g.here)
