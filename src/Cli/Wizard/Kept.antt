-- ===== src/Cli/Wizard/Kept.antt =====
-- A wizard keeps the entries of the file.
use yamaha_cli.Prelude.{
  ℕ, zero, suc, ◌+◌, ◌≤◌, ◌<◌, ◌==◌, ◌≡◌, refl, ap, subst, ◌⊎◌, inl, inr, Bool, true, false, List,
  [], ◌∷◌, Option, none, some, is_some, arith, Bool-cases, Option-cases,
}
use yamaha_cli.Text.{Bytes, codes, lookup, lookup-insert, equal_iff, equal_refl, Dict}
use yamaha_cli.Config.Schema.{Device, Config}
use yamaha_cli.Discover.Fetch as Fetch
use yamaha_cli.Cli.Wizard.{
  numbered, first_free, unique_alias, read_line, prompt_default, Index, chosen, unread, invalid,
  End, saved, search_failed, no_receiver, aborted, read_failed, invalid_selection, alias_taken,
  save_failed, is_saved, with_picked, device_of, says_no, Answers, save_as, confirmed, named,
  named_by, name_and_save, at_index, of_list, agreed, run_wizard, discover_add,
}

-- Every entry is there as before.
abbrev pub KeepsEntries : Config → Config → Type 0
KeepsEntries before after =
    (k : Bytes) (d : Device) → lookup k before.devices ≡ some d → lookup k after.devices ≡ some d

-- The alias and all its numbered forms stand for a device.
abbrev pub AllTaken : Bytes → Config → Type 0
AllTaken base cfg =
    (is_some (lookup base cfg.devices) ≡ true)
    × ((i : ℕ) → 2 ≤ i → i < 1000 → is_some (lookup (numbered base i) cfg.devices) ≡ true)

abbrev pub Kept : Config → Config → Type 0
Kept before after = KeepsEntries before after ⊎ ((base : Bytes) × AllTaken base before)

first_free-lookup :
    (base : Bytes) (devices : Dict Device) (n i : ℕ)
    → (lookup (first_free base devices i n) devices ≡ none)
      ⊎ ((j : ℕ) → i ≤ j → j < i + n → is_some (lookup (numbered base j) devices) ≡ true)
unfolding first_free
first_free-lookup base devices zero i = inr (λ j h k. absurd (omega arith))
first_free-lookup base devices (suc n) i = elim (Option-cases (lookup (numbered base i) devices)) [
  | inl e ↦ inl (rw (first_free, e) e)
  | inr (d, e) ↦
      rw (first_free, e)
        (elim (first_free-lookup base devices n (suc i)) [
          | inl f ↦ inl f
          | inr taken ↦ inr (λ j h k. elim (Bool-cases (j == i)) [
            | inl q ↦
                let same : i ≡ j = ground arith in
                subst (λ m. is_some (lookup (numbered base m) devices) ≡ true) same (ap is_some e)
            | inr q ↦ taken j (ground arith) (ground arith)
          ])
        ])
]

-- A unique alias is free, or there is no free one.
unique_alias-lookup :
    (base : Bytes) (cfg : Config)
    → (lookup (unique_alias base cfg) cfg.devices ≡ none) ⊎ AllTaken base cfg
unfolding unique_alias
unique_alias-lookup base cfg = elim (Option-cases (lookup base cfg.devices)) [
  | inl e ↦ inl (rw (unique_alias, e) e)
  | inr (d, e) ↦
      rw (unique_alias, e)
        (elim (first_free-lookup base cfg.devices 998 2) [
          | inl f ↦ inl f
          | inr taken ↦ inr (refl, λ i h k. taken i h (omega arith))
        ])
]

KeepsEntries-insert :
    (alias : Bytes) (picked : Fetch.Device) (cfg : Config)
    → lookup alias cfg.devices ≡ none
    → KeepsEntries cfg (with_picked alias picked cfg)
KeepsEntries-insert alias picked cfg free k d e =
    ground (arith, lookup-insert alias k (device_of picked) cfg.devices, equal_iff alias k)

-- An alias that a device may be saved under.
abbrev pub Open : Config → Bytes → Type 0
Open cfg alias = (lookup alias cfg.devices ≡ none) ⊎ ((base : Bytes) × AllTaken base cfg)

-- What holds of every end that saves nothing, and of every save under an open alias, holds of both
-- commands.
module _ (save_fails : Config → Bool) (cfg : Config) (P : End × Config → Type 0)
    (stays : (e : End) → is_saved e ≡ false → P (e, cfg))
    (saves : (picked : Fetch.Device) (alias : Bytes)
      → Open cfg alias
      → P (save_as save_fails picked cfg alias)) where
  confirmed-holds :
      (picked : Fetch.Device) (alias : Bytes) (o : Option Bytes)
      → P (confirmed save_fails picked cfg alias o)
  unfolding confirmed
  confirmed-holds picked alias none = stays read_failed refl
  confirmed-holds picked alias (some ans) = elim (Bool-cases (says_no ans)) [
    | inl e ↦ rw (confirmed, e) (stays alias_taken refl)
    | inr e ↦
        rw (confirmed, e)
          (saves picked (unique_alias alias cfg) (elim (unique_alias-lookup alias cfg) [
            | inl f ↦ inl f
            | inr taken ↦ inr (alias, taken)
          ]))
  ]

  named-holds :
      (picked : Fetch.Device) (answers : Answers) (alias : Bytes)
      → P (named save_fails picked cfg answers alias)
  unfolding named
  named-holds picked answers alias = elim (Option-cases (lookup alias cfg.devices)) [
    | inl e ↦ rw (named, e) (saves picked alias (inl e))
    | inr (d, e) ↦
        rw (named, e)
          (confirmed-holds picked alias (prompt_default (codes "y") (read_line answers)).0)
  ]

  named_by-holds :
      (picked : Fetch.Device) (def : Bytes) (x : Option Bytes × Answers)
      → P (named_by save_fails picked cfg def x)
  unfolding named_by
  named_by-holds picked def (none, answers) = stays read_failed refl
  named_by-holds picked def (some raw, answers) = named-holds picked answers _

  name_and_save-holds :
      (picked : Fetch.Device) (answers : Answers) → P (name_and_save save_fails picked cfg answers)
  unfolding name_and_save
  name_and_save-holds picked answers = named_by-holds picked _ _

  at_index-holds :
      (devs : List Fetch.Device) (i : ℕ) (answers : Answers)
      → P (at_index save_fails devs cfg i answers)
  unfolding at_index
  at_index-holds [] i answers = stays invalid_selection refl
  at_index-holds (d ∷ devs) zero answers = name_and_save-holds d answers
  at_index-holds (d ∷ devs) (suc i) answers = at_index-holds devs i answers

  of_list-holds :
      (devs : List Fetch.Device) (x : Index × Answers) → P (of_list save_fails devs cfg x)
  unfolding of_list
  of_list-holds devs (chosen i, answers) = at_index-holds devs i answers
  of_list-holds devs (unread, answers) = stays read_failed refl
  of_list-holds devs (invalid, answers) = stays invalid_selection refl

  agreed-holds :
      (picked : Fetch.Device) (x : Option Bytes × Answers) → P (agreed save_fails picked cfg x)
  unfolding agreed
  agreed-holds picked (none, answers) = stays read_failed refl
  agreed-holds picked (some ans, answers) = elim (Bool-cases (says_no ans)) [
    | inl e ↦ rw (agreed, e) (stays aborted refl)
    | inr e ↦ rw (agreed, e) (name_and_save-holds picked answers)
  ]

  pub run_wizard-holds :
      (found : Option (List Fetch.Device)) (answers : Answers)
      → P (run_wizard save_fails found answers cfg)
  unfolding run_wizard
  run_wizard-holds none answers = stays search_failed refl
  run_wizard-holds (some []) answers = stays no_receiver refl
  run_wizard-holds (some (d ∷ [])) answers = agreed-holds d _
  run_wizard-holds (some (d ∷ e ∷ devs)) answers = of_list-holds (d ∷ e ∷ devs) _

  pub discover_add-holds :
      (found : Option (List Fetch.Device)) (answers : Answers)
      → P (discover_add save_fails found answers cfg)
  unfolding discover_add
  discover_add-holds none answers = stays search_failed refl
  discover_add-holds (some []) answers = stays no_receiver refl
  discover_add-holds (some (d ∷ [])) answers = name_and_save-holds d answers
  discover_add-holds (some (d ∷ e ∷ devs)) answers = of_list-holds (d ∷ e ∷ devs) _

module _ (save_fails : Config → Bool) (cfg : Config) where
  save_as-Kept :
      (picked : Fetch.Device) (alias : Bytes)
      → Open cfg alias
      → Kept cfg (save_as save_fails picked cfg alias).1
  unfolding save_as
  save_as-Kept picked alias (inr taken) = inr taken
  save_as-Kept picked alias (inl free) =
      elim (Bool-cases (save_fails (with_picked alias picked cfg))) [
        | inl f ↦ rw (save_as, f) (inl (λ k d e. e))
        | inr f ↦ rw (save_as, f) (inl (KeepsEntries-insert alias picked cfg free))
      ]

  -- What is said to be saved stands in the file.
  abbrev pub SavedIn : End × Config → Type 0
  SavedIn (saved alias d, after) = lookup alias after.devices ≡ some d
  SavedIn _ = Unit

  save_as-SavedIn :
      (picked : Fetch.Device) (alias : Bytes) → SavedIn (save_as save_fails picked cfg alias)
  unfolding save_as
  save_as-SavedIn picked alias = elim (Bool-cases (save_fails (with_picked alias picked cfg))) [
    | inl f ↦ rw (SavedIn, f) tt
    | inr f ↦
        rw (SavedIn, f)
          (ground
            (arith, lookup-insert alias alias (device_of picked) cfg.devices, equal_refl alias))
  ]

  stays-SavedIn : (e : End) → is_saved e ≡ false → SavedIn (e, cfg)
  stays-SavedIn (saved alias d) h = cc
  stays-SavedIn search_failed h = tt
  stays-SavedIn no_receiver h = tt
  stays-SavedIn aborted h = tt
  stays-SavedIn read_failed h = tt
  stays-SavedIn invalid_selection h = tt
  stays-SavedIn alias_taken h = tt
  stays-SavedIn save_failed h = tt

  pub run_wizard-SavedIn :
      (found : Option (List Fetch.Device)) (answers : Answers)
      → SavedIn (run_wizard save_fails found answers cfg)
  run_wizard-SavedIn =
      run_wizard-holds save_fails cfg SavedIn stays-SavedIn
        (λ picked alias o. save_as-SavedIn picked alias)

-- Whatever is found and answered, the wizard and `discover --add` keep every entry of the file, unless
-- some alias and its numbered forms up to 999 are all taken.
pub wizards-Kept :
    (save_fails : Config → Bool) (cfg : Config) (found : Option (List Fetch.Device))
    (answers : List (Option Bytes))
    → Kept cfg (run_wizard save_fails found answers cfg).1
      × Kept cfg (discover_add save_fails found answers cfg).1
wizards-Kept save_fails cfg found answers =
    let P = λ (x : End × Config). Kept cfg x.1 in
    let stays = λ (e : End) (h : is_saved e ≡ false). inl (λ k d e. e) in
    let saves = save_as-Kept save_fails cfg in
    (
      run_wizard-holds save_fails cfg P stays saves found answers,
      discover_add-holds save_fails cfg P stays saves found answers,
    )
