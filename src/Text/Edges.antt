-- ===== src/Text/Edges.antt =====
-- Trimming at the two ends of a text.
use mathlib.Core.List.{reverse, reverse-cons, reverse-append}
use yamaha_cli.Prelude.{
  ℕ, Bool, true, false, [], ◌∷◌, ◌++◌, ◌≡◌, refl, ap, ◌∙◌, sym, ◌⊎◌, inl, inr, Bool-cases,
}
use yamaha_cli.Text.Equal.{Bytes}
use yamaha_cli.Text.Search.{drop_while, trim_right_by, trim_space, is_space}

module _ (p : ℕ → Bool) where
  drop_while-snoc_no :
      (s : Bytes) (c : ℕ) → p c ≡ false → (t : Bytes) × (drop_while p (s ++ c ∷ []) ≡ t ++ c ∷ [])
  unfolding drop_while
  drop_while-snoc_no [] c h = ([], rw h refl)
  drop_while-snoc_no (d ∷ s) c h = elim (Bool-cases (p d)) [
    | inl e ↦ rw e (drop_while-snoc_no s c h)
    | inr e ↦ rw e (d ∷ s, refl)
  ]

  -- What is not trimmed away stays at the front.
  pub trim_right_by-keeps :
      (c : ℕ) (s : Bytes) → p c ≡ false → (t : Bytes) × (trim_right_by p (c ∷ s) ≡ c ∷ t)
  unfolding trim_right_by
  trim_right_by-keeps c s h =
      let (t, e) = drop_while-snoc_no (reverse s) c h in
      (
        reverse t,
        ap (λ x. reverse (drop_while p x)) (reverse-cons c s)
            ∙ ap reverse e
            ∙ reverse-append t (c ∷ []),
      )

  pub trim_right_by-snoc :
      (s : Bytes) (c : ℕ) → p c ≡ true → trim_right_by p (s ++ c ∷ []) ≡ trim_right_by p s
  unfolding trim_right_by drop_while
  trim_right_by-snoc s c h =
      ap (λ x. reverse (drop_while p x)) (reverse-append s (c ∷ [])) ∙ rw h refl

  drop_while-snoc :
      (s : Bytes) (c : ℕ)
      → p c ≡ true
      → ((drop_while p (s ++ c ∷ []) ≡ []) × (drop_while p s ≡ []))
        ⊎ (drop_while p (s ++ c ∷ []) ≡ drop_while p s ++ c ∷ [])
  unfolding drop_while
  drop_while-snoc [] c h = inl (rw h refl, refl)
  drop_while-snoc (d ∷ s) c h = elim (Bool-cases (p d)) [
    | inl e ↦ rw e (drop_while-snoc s c h)
    | inr e ↦ rw e (inr refl)
  ]

pub trim_space-snoc :
    (s : Bytes) (c : ℕ) → is_space c ≡ true → trim_space (s ++ c ∷ []) ≡ trim_space s
unfolding trim_space
trim_space-snoc s c h = elim (drop_while-snoc is_space s c h) [
  | inl (e, f) ↦ ap (trim_right_by is_space) (e ∙ sym f)
  | inr e ↦ ap (trim_right_by is_space) e ∙ trim_right_by-snoc is_space (drop_while is_space s) c h
]

pub trim_space-keeps :
    (c : ℕ) (s : Bytes) → is_space c ≡ false → (t : Bytes) × (trim_space (c ∷ s) ≡ c ∷ t)
unfolding trim_space drop_while
trim_space-keeps c s h = let (t, e) = trim_right_by-keeps is_space c s h in (t, rw h e)
