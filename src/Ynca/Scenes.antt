-- ===== src/Ynca/Scenes.antt =====
-- pkg/ynca/zone_control.go: the names of a zone's scenes, from a fan-out.
pub mod Order
pub mod Index
use yamaha_cli.Prelude.{
  ℕ, zero, suc, ◌-◌, Bool, true, false, ◌&&◌, List, [], ◌∷◌, ◌++◌, Option, none, some, leb, length,
  take, drop, if◌then◌else◌, ℤ, pos, negsuc,
}
use yamaha_cli.Text.{Bytes, codes, equal_fold, has_prefix, has_suffix, to_upper, atoi}
use yamaha_cli.Ynca.Client.{Client, send_multi}
use yamaha_cli.Ynca.Control.{Call, command, followed_by}
use yamaha_cli.Ynca.Errors.{Result, ok, err}
use yamaha_cli.Ynca.Reports.{reports_of}
use yamaha_cli.Ynca.Wire.{Line}

pub record SceneName : Type 0 where
  pub num : ℕ
  pub name : Bytes

-- `s[lo:hi]`; nothing stands for the run-time panic on bounds that are out of range.
unfoldable pub slice : ℕ → ℕ → Bytes → Option Bytes
slice lo hi s = if leb lo hi && leb hi (length s) then some (take (hi - lo) (drop lo s)) else none

pub at_least_one : Option ℤ → Option ℕ
at_least_one none = none
at_least_one (some (pos zero)) = none
at_least_one (some (pos (suc n))) = some (suc n)
at_least_one (some (negsuc n)) = none

pub number_of : Option Bytes → Option (Option ℕ)
unfolding atoi at_least_one
number_of none = none
number_of (some mid) = some (at_least_one (atoi mid))

-- The number in an upper-case name. The outer nothing is a panic, the inner one `false`.
pub scene_index : Bytes → Option (Option ℕ)
unfolding has_prefix has_suffix slice number_of
scene_index u =
    if has_prefix u (codes "SCENE") && has_suffix u (codes "NAME")
    then number_of (slice 5 (length u - 4) u)
    else some none

unfoldable pub scene_name_index : Bytes → Option (Option ℕ)
unfolding scene_index to_upper
scene_name_index function = scene_index (to_upper function)

scene_of : Line → Option (Option ℕ) → List SceneName
scene_of l (some (some n)) = record { num = n; name = l.value } ∷ []
scene_of l _ = []

-- The scenes among the reports, as they came.
pub scenes_in : List Line → List SceneName
unfolding scene_of scene_name_index
scenes_in [] = []
scenes_in (l ∷ ls) = scene_of l (scene_name_index l.function) ++ scenes_in ls

-- `sort.Slice` by number, which leaves open the order of scenes with one number: an insertion sort.
pub insert_scene : SceneName → List SceneName → List SceneName
insert_scene x [] = x ∷ []
insert_scene x (y ∷ ys) = if leb x.num y.num then x ∷ y ∷ ys else y ∷ insert_scene x ys

pub sort_scenes : List SceneName → List SceneName
unfolding insert_scene
sort_scenes [] = []
sort_scenes (x ∷ xs) = insert_scene x (sort_scenes xs)

unfoldable pub decode_scene_names : Bytes → List Bytes → List SceneName
unfolding reports_of scenes_in sort_scenes
decode_scene_names subunit lines = sort_scenes (scenes_in (reports_of subunit lines))

unfoldable pub get_scene_names : Bytes → Call (List SceneName)
unfolding send_multi decode_scene_names
get_scene_names subunit c =
    followed_by (send_multi (command subunit (codes "SCENENAME") (codes "?")) c)
      (λ lines. ok (decode_scene_names subunit lines))
