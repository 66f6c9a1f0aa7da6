-- ===== src/Yxc/Cache/Inside.antt =====
-- The file of a device lies in the directory of the cache, whatever the device calls itself.
use yamaha_cli.Prelude.{
  ◌≡◌, ◌≢◌, refl, sym, ap, ◌∙◌, subst, ◌⊎◌, inl, inr, [], ◌∷◌, ◌++◌, Option, none, some, arith,
  ◌==◌, Bool-cases, All-append, length, length-append,
}
use yamaha_cli.Text.{Bytes, codes, equal, equal_iff, Lacks, trim_right_by}
use yamaha_cli.Yxc.Cache.{last_part, base_of_trimmed, base, features_name, path_for}

last_part-Lacks : (part s : Bytes) → Lacks b'/' part → Lacks b'/' (last_part part s)
unfolding last_part
last_part-Lacks part [] h = h
last_part-Lacks part (c ∷ s) h = elim (Bool-cases (c == b'/')) [
  | inl e ↦ rw e (last_part-Lacks [] s tt)
  | inr e ↦ rw e (
      last_part-Lacks (part ++ c ∷ []) s
        (All-append (λ d. d ≢ b'/') part (c ∷ []) h (ground arith, tt)))
]

base_of_trimmed-Lacks :
    (s : Bytes) → (base_of_trimmed s ≡ codes "/") ⊎ Lacks b'/' (base_of_trimmed s)
unfolding base_of_trimmed
base_of_trimmed-Lacks [] = inl refl
base_of_trimmed-Lacks (c ∷ s) = inr (last_part-Lacks [] (c ∷ s) tt)

-- The path of a file in the directory, with no slash in its name.
abbrev pub IsInside : Bytes → Bytes → Option Bytes → Type 0
IsInside dir device_id none = Unit
IsInside dir device_id (some path) =
    (path ≡ dir ++ b'/' ∷ features_name device_id) × Lacks b'/' (features_name device_id)

-- Whatever a device calls itself, its file lies in the directory of the cache and not below or above
-- it: the name of the file has no slash; or the device is refused.
pub path_for-IsInside : (dir device_id : Bytes) → IsInside dir device_id (path_for dir device_id)
unfolding path_for base
path_for-IsInside dir [] = tt
path_for-IsInside dir (c ∷ device_id) =
    let name = features_name (c ∷ device_id) in
    elim (Bool-cases (equal (base name) name)) [
      | inr e ↦ rw (IsInside, e) tt
      | inl e ↦
          rw (IsInside, e)
            (
              refl,
              elim (base_of_trimmed-Lacks (trim_right_by (λ d. d == b'/') name)) [
                | inr l ↦ subst (Lacks b'/') ((equal_iff (base name) name).0 e) l
                | inl s ↦
                    let short : length name ≡ 1 =
                      ap length (sym ((equal_iff (base name) name).0 e) ∙ s) in
                    absurd
                      (omega (arith, short, length-append (c ∷ device_id) (codes "-features.json")))
              ],
            )
    ]
