-- ===== src/Text/Maps.antt =====
-- A `map[string]V`.
use yamaha_cli.Prelude.{List, [], ◌∷◌, Option, none, some, ◌≡◌, refl, arith, if◌then◌else◌}
use yamaha_cli.Text.Equal.{Bytes, equal, equal_iff}

abbrev pub Dict {ℓ} : Type ℓ → Type ℓ
Dict V = List (Bytes × V)

-- A `map[string]string`.
abbrev pub Table : Type 0
Table = Dict Bytes

unfoldable pub lookup {ℓ} : {V : Type ℓ} → Bytes → Dict V → Option V
lookup k [] = none
lookup k ((j, v) ∷ t) = if equal j k then some v else lookup k t

unfoldable pub insert {ℓ} : {V : Type ℓ} → Bytes → V → Dict V → Dict V
insert k v [] = (k, v) ∷ []
insert k v ((j, w) ∷ t) = if equal j k then (k, v) ∷ t else (j, w) ∷ insert k v t

pub lookup-insert {ℓ} :
    {V : Type ℓ} (k j : Bytes) (v : V) (t : Dict V)
    → lookup j (insert k v t) ≡ (if equal k j then some v else lookup j t)
unfolding lookup insert
lookup-insert k j v [] = refl
lookup-insert k j v ((i, w) ∷ t) =
    ground (arith, equal_iff i k, equal_iff i j, equal_iff k j, lookup-insert k j v t)
