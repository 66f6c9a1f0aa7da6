-- ===== src/Ynca/Scenes/Index.antt =====
-- The number in a scene function's name.
use mathlib.Core.List.{reverse, reverse-append, map-append}
use yamaha_cli.Prelude.{
  ℕ, zero, suc, ◌+◌, ◌-◌, ◌≤◌, true, [], ◌∷◌, ◌++◌, none, some, ◌≡◌, ◌≢◌, refl, subst, ap, ap₂, ◌∙◌,
  arith, length, take, drop, length-append, Bool-cases, inl, inr, pos,
}
use yamaha_cli.Text.{
  Bytes, codes, has_prefix, has_prefix-append, has_suffix, upper, to_upper, atoi, itoa, atoi-itoa,
  max_int, take-length-append, to_upper-itoa,
}
use yamaha_cli.Ynca.Scenes.{slice, at_least_one, number_of, scene_index, scene_name_index}

prefixed : (s p : Bytes) → has_prefix s p ≡ true → (r : Bytes) × (s ≡ p ++ r)
unfolding has_prefix
prefixed s [] h = (s, refl)
prefixed [] (c ∷ p) h = cc
prefixed (d ∷ s) (c ∷ p) h =
    let (r, e) = prefixed s p (ground arith) in (r, ap₂ ◌∷◌ (ground arith) e)

-- The prefix and the suffix of a name cannot overlap.
apart : (r : Bytes) → has_suffix (codes "SCENE" ++ r) (codes "NAME") ≡ true → 4 ≤ length r
unfolding has_suffix has_prefix
apart [] h = absurd (ground arith)
apart (a ∷ []) h = absurd (ground arith)
apart (a ∷ b ∷ []) h = absurd (ground arith)
apart (a ∷ b ∷ c ∷ []) h = absurd (ground arith)
apart (a ∷ b ∷ c ∷ d ∷ r) h = omega arith

slice_within :
    (lo hi : ℕ) (s : Bytes)
    → lo ≤ hi
    → hi ≤ length s
    → slice lo hi s ≡ some (take (hi - lo) (drop lo s))
unfolding slice
slice_within lo hi s h k = ground arith

scene_index_some : (u : Bytes) → scene_index u ≢ none
unfolding scene_index number_of
scene_index_some u = elim (Bool-cases (has_prefix u (codes "SCENE"))) [
  | inr e ↦ λ h. ground arith
  | inl e ↦ elim (Bool-cases (has_suffix u (codes "NAME"))) [
    | inr e' ↦ λ h. ground arith
    | inl e' ↦
        let (r, split) = prefixed u (codes "SCENE") e in
        let far = apart r (subst (λ u. has_suffix u (codes "NAME") ≡ true) split e') in
        let size = ap length split in λ h. ground (arith, slice_within 5 (length u - 4) u)
  ]
]

has_suffix-append : (s p : Bytes) → has_suffix (s ++ p) p ≡ true
unfolding has_suffix
has_suffix-append s p = rw reverse-append (has_prefix-append (reverse p) (reverse s))

cut :
    (m : Bytes) (n : ℕ)
    → n ≡ 5 + length m
    → slice 5 n (codes "SCENE" ++ (m ++ codes "NAME")) ≡ some m
cut m n e =
    slice_within 5 n (codes "SCENE" ++ (m ++ codes "NAME")) (omega arith)
      (ground (arith, length-append m (codes "NAME")))
    ∙ ap (λ k. some (take k (m ++ codes "NAME"))) (ground arith)
    ∙ ap some (take-length-append m (codes "NAME"))

named :
    (u : Bytes)
    → has_prefix u (codes "SCENE") ≡ true
    → has_suffix u (codes "NAME") ≡ true
    → scene_index u ≡ number_of (slice 5 (length u - 4) u)
unfolding scene_index
named u h k = ground arith

middle :
    (m : Bytes) → scene_index (codes "SCENE" ++ (m ++ codes "NAME")) ≡ some (at_least_one (atoi m))
unfolding number_of
middle m =
    named (codes "SCENE" ++ (m ++ codes "NAME"))
      (has_prefix-append (codes "SCENE") (m ++ codes "NAME"))
      (has_suffix-append (codes "SCENE" ++ m) (codes "NAME"))
    ∙ ap number_of (
        cut m (length (codes "SCENE" ++ (m ++ codes "NAME")) - 4)
          (ground (arith, length-append m (codes "NAME"))))

upper_middle :
    (m : Bytes)
    → to_upper (codes "SCENE" ++ (m ++ codes "NAME"))
      ≡ codes "SCENE" ++ (to_upper m ++ codes "NAME")
unfolding to_upper upper
upper_middle m = ap (λ s. codes "SCENE" ++ s) (map-append upper m (codes "NAME"))

-- The slice behind the tests of prefix and suffix is never out of range, whatever the function's
-- name, and a scene's number from 1 up is read back from the name that is made of it.
pub scene_name_index-itoa :
    (function : Bytes) (n : ℕ)
    → 1 ≤ n
    → n ≤ max_int
    → (scene_name_index function ≢ none)
      × (scene_name_index (codes "SCENE" ++ (itoa n ++ codes "NAME")) ≡ some (some n))
unfolding scene_name_index at_least_one
scene_name_index-itoa function n positive bounded = (
  scene_index_some (to_upper function),
  ap scene_index
        (upper_middle (itoa n) ∙ ap (λ s. codes "SCENE" ++ (s ++ codes "NAME")) (to_upper-itoa n))
      ∙ middle (itoa n)
      ∙ ap (λ r. some (at_least_one r)) (atoi-itoa n bounded)
      ∙ at_least n positive,
)
  where
    at_least : (n : ℕ) → 1 ≤ n → some (at_least_one (some (pos n))) ≡ some (some n)
    at_least zero h = absurd (omega arith)
    at_least (suc n) h = refl
