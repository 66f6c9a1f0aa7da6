-- ===== src/Yxc/Zone/Given.antt =====
-- The parameters that the calls of pkg/yxc/zone.go send, told from their arguments.
use yamaha_cli.Prelude.{
  Bool, true, false, ◌&&◌, ◌||◌, [], ◌∷◌, ◌++◌, Option, none, some, is_some, not, ℤ, pos, negsuc,
  zero, suc, ◌≡◌, refl, inl, inr, if◌then◌else◌, Bool-cases, Option-cases,
}
use yamaha_cli.Text.{Bytes, codes, equal, Table, insert, itoa}
use yamaha_cli.Yxc.Errors.{invalid, Result, ok, err}
use yamaha_cli.Yxc.Zone.{
  one, bool_text, itoa_ℤ, VolumeArg, absolute, up, down, empty, ToneControlArg, volume_values,
  power_values, scene_values, tone_values, set_if,
}

-- What was accepted.
abbrev pub accepted {ℓ} : {A : Type ℓ} → Result A → Option A
accepted (ok a) = some a
accepted (err e) = none

abbrev pub if_given : Bytes → Bytes → Option Table
if_given k v = if equal v [] then none else some ((k, v) ∷ [])

abbrev pub power_given : Bytes → Option Table
power_given p =
    if equal p (codes "on") || (equal p (codes "standby") || equal p (codes "toggle"))
    then some ((codes "power", p) ∷ [])
    else none

abbrev pub switch_given : Bool → Option Table
switch_given true = some ((codes "enable", codes "true") ∷ [])
switch_given false = some ((codes "enable", codes "false") ∷ [])

-- A step of 0 or below is not sent.
abbrev pub volume_given : VolumeArg → Option Table
volume_given (absolute n) = some ((codes "volume", itoa_ℤ n) ∷ [])
volume_given (up (pos (suc n))) =
    some ((codes "volume", codes "up") ∷ (codes "step", itoa (suc n)) ∷ [])
volume_given (up _) = some ((codes "volume", codes "up") ∷ [])
volume_given (down (pos (suc n))) =
    some ((codes "volume", codes "down") ∷ (codes "step", itoa (suc n)) ∷ [])
volume_given (down _) = some ((codes "volume", codes "down") ∷ [])
volume_given empty = none

abbrev pub scene_given : ℤ → Option Table
scene_given (pos (suc n)) = some ((codes "num", itoa (suc n)) ∷ [])
scene_given _ = none

pub power_values-given :
    (code : Bytes → Option ℤ) (p : Bytes) → accepted (power_values code p) ≡ power_given p
unfolding power_values
power_values-given code p = elim (Bool-cases (equal p (codes "on"))) [
  | inl e ↦ rw e refl
  | inr e ↦ rw e (elim (Bool-cases (equal p (codes "standby"))) [
    | inl e' ↦ rw e' refl
    | inr e' ↦ rw e' (elim (Bool-cases (equal p (codes "toggle"))) [
      | inl e'' ↦ rw e'' refl
      | inr e'' ↦ rw e'' refl
    ])
  ])
]

pub volume_values-given : (vol : VolumeArg) → accepted (volume_values vol) ≡ volume_given vol
unfolding volume_values insert itoa_ℤ equal
volume_values-given (absolute n) = refl
volume_values-given (up (pos zero)) = refl
volume_values-given (up (pos (suc n))) = refl
volume_values-given (up (negsuc n)) = refl
volume_values-given (down (pos zero)) = refl
volume_values-given (down (pos (suc n))) = refl
volume_values-given (down (negsuc n)) = refl
volume_values-given empty = refl

pub scene_values-given :
    (code : Bytes → Option ℤ) (n : ℤ) → accepted (scene_values code n) ≡ scene_given n
unfolding scene_values
scene_values-given code (pos zero) = refl
scene_values-given code (pos (suc n)) = refl
scene_values-given code (negsuc n) = refl

pub required-given :
    (k v : Bytes) → accepted (if equal v [] then err (invalid k) else ok (one k v)) ≡ if_given k v
required-given k v = elim (Bool-cases (equal v [])) [ inl e ↦ rw e refl | inr e ↦ rw e refl ]

pub switch-given : (on : Bool) → some (one (codes "enable") (bool_text on)) ≡ switch_given on
switch-given true = refl
switch-given false = refl

abbrev pub when_given : Bytes → Option Bytes → Table
when_given k none = []
when_given k (some v) = (k, v) ∷ []

abbrev level : Option ℤ → Option Bytes
level none = none
level (some n) = some (itoa_ℤ n)

abbrev named : Bytes → Option Bytes
named s = if equal s [] then none else some s

-- What of the three is given, and at least one.
abbrev pub tone_given : ToneControlArg → Option Table
tone_given arg =
    if equal arg.mode [] && not (is_some arg.bass) && not (is_some arg.treble)
    then none
    else some (
        when_given (codes "mode") (named arg.mode)
        ++ when_given (codes "bass") (level arg.bass)
        ++ when_given (codes "treble") (level arg.treble))

pub tone_values-given :
    (code : Bytes → Option ℤ) (arg : ToneControlArg)
    → accepted (tone_values code arg) ≡ tone_given arg
unfolding tone_values set_if insert
tone_values-given code arg = elim (Bool-cases (equal arg.mode [])) [
  | inl e ↦ rw e (elim (Option-cases arg.bass) [
    | inl b ↦ rw b (elim (Option-cases arg.treble) [ inl t ↦ rw t refl | inr (m, t) ↦ rw t refl ])
    | inr (n, b) ↦
        rw b (elim (Option-cases arg.treble) [ inl t ↦ rw t refl | inr (m, t) ↦ rw t refl ])
  ])
  | inr e ↦ rw e (elim (Option-cases arg.bass) [
    | inl b ↦ rw b (elim (Option-cases arg.treble) [ inl t ↦ rw t refl | inr (m, t) ↦ rw t refl ])
    | inr (n, b) ↦
        rw b (elim (Option-cases arg.treble) [ inl t ↦ rw t refl | inr (m, t) ↦ rw t refl ])
  ])
]
