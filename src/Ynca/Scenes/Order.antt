-- ===== src/Ynca/Scenes/Order.antt =====
-- The order of the scenes.
use mathlib.Core.List.{Perm}
use mathlib.Core.List.Perm as Perms
use yamaha_cli.Prelude.{ℕ, ◌≤◌, List, [], ◌∷◌, arith, leb, Bool-cases, inl, inr, All}
use yamaha_cli.Text.{Bytes}
use yamaha_cli.Ynca.Reports.{reports_of}
use yamaha_cli.Ynca.Scenes.{SceneName, scenes_in, insert_scene, sort_scenes, decode_scene_names}

-- No scene has a lower number than one in front of it.
abbrev pub InOrder : List SceneName → Type 0
InOrder [] = Unit
InOrder (x ∷ xs) = All (λ y. x.num ≤ y.num) xs × InOrder xs

above : (m n : ℕ) (xs : List SceneName) → m ≤ n → All (λ y. n ≤ y.num) xs → All (λ y. m ≤ y.num) xs
above m n [] le h = tt
above m n (x ∷ xs) le h = (ground arith, above m n xs le h.1)

All-insert_scene :
    (m : ℕ) (x : SceneName) (ys : List SceneName)
    → m ≤ x.num
    → All (λ y. m ≤ y.num) ys
    → All (λ y. m ≤ y.num) (insert_scene x ys)
unfolding insert_scene
All-insert_scene m x [] le h = (le, tt)
All-insert_scene m x (y ∷ ys) le h = elim (Bool-cases (leb x.num y.num)) [
  | inl e ↦ rw e (le, h)
  | inr e ↦ rw e (h.0, All-insert_scene m x ys le h.1)
]

insert_scene-InOrder :
    (x : SceneName) (ys : List SceneName) → InOrder ys → InOrder (insert_scene x ys)
unfolding insert_scene
insert_scene-InOrder x [] h = (tt, tt)
insert_scene-InOrder x (y ∷ ys) h = elim (Bool-cases (leb x.num y.num)) [
  | inl e ↦ rw e ((ground arith, above x.num y.num ys (ground arith) h.0), h)
  | inr e ↦ rw e (All-insert_scene y.num x ys (ground arith) h.0, insert_scene-InOrder x ys h.1)
]

sort_scenes-InOrder : (xs : List SceneName) → InOrder (sort_scenes xs)
unfolding sort_scenes
sort_scenes-InOrder [] = tt
sort_scenes-InOrder (x ∷ xs) = insert_scene-InOrder x (sort_scenes xs) (sort_scenes-InOrder xs)

insert_scene-Perm : (x : SceneName) (ys : List SceneName) → Perm (insert_scene x ys) (x ∷ ys)
unfolding insert_scene
insert_scene-Perm x [] = Perms.refl (x ∷ [])
insert_scene-Perm x (y ∷ ys) = elim (Bool-cases (leb x.num y.num)) [
  | inl e ↦ rw e (Perms.refl (x ∷ y ∷ ys))
  | inr e ↦ rw e (Perms.trans (Perms.cons y (insert_scene-Perm x ys)) (Perms.swap x y ys))
]

sort_scenes-Perm : (xs : List SceneName) → Perm (sort_scenes xs) xs
unfolding sort_scenes
sort_scenes-Perm [] = Perms.refl []
sort_scenes-Perm (x ∷ xs) =
    Perms.trans (insert_scene-Perm x (sort_scenes xs)) (Perms.cons x (sort_scenes-Perm xs))

-- The scene names come in the order of their numbers, and they are, each as often as it was
-- reported, those that the subunit's reports name.
pub decode_scene_names-InOrder :
    (subunit : Bytes) (lines : List Bytes)
    → InOrder (decode_scene_names subunit lines)
      × Perm (decode_scene_names subunit lines) (scenes_in (reports_of subunit lines))
unfolding decode_scene_names
decode_scene_names-InOrder subunit lines = (
  sort_scenes-InOrder (scenes_in (reports_of subunit lines)),
  sort_scenes-Perm (scenes_in (reports_of subunit lines)),
)
