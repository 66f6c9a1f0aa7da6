-- ===== src/Cli/Add/Store.antt =====
-- `config add` against a map from aliases to devices.
use yamaha_cli.Prelude.{
  Bool, true, false, ◌||◌, ◌&&◌, not, Option, none, some, is_some, if◌then◌else◌, ◌≡◌, refl, ◌⊎◌,
  inl, inr, arith, Bool-cases, Option-cases,
}
use yamaha_cli.Text.{Bytes, is_empty, trim_space, lookup, lookup-insert, equal}
use yamaha_cli.Config.Schema.{Device, Config}
use yamaha_cli.Cli.Args.{canonical_zone, validate_config_host}
use yamaha_cli.Cli.Add.{
  Request, Probe, Described, receiver, not_yamaha, unreadable, Outcome, load_config_for_add,
  host_of, device_of, with_entry, run_config_add, store_entry, save_new, after_probe, probing,
  in_zone, is_saved, outcome_of,
}

-- The abstract store: what stands under an alias, and the default.
pub record Store : Type 0 where
  pub at : Bytes → Option Device
  pub default : Bytes

abbrev pub view : Config → Store
view cfg = record { at = λ k. lookup k cfg.devices; default = cfg.default_device }

abbrev pub set_at : Bytes → Device → (Bytes → Option Device) → Bytes → Option Device
set_at alias d at k = if equal alias k then some d else at k

-- The step that the store allows: an entry under an alias that is free, or forced.
pub record Adds (r : Request) (d : Device) (before after : Store) : Type 0 where
  pub free : (before.at (trim_space r.alias) ≡ none) ⊎ (r.force ≡ true)
  pub entry : (k : Bytes) → after.at k ≡ set_at (trim_space r.alias) d before.at k
  pub default :
      after.default
      ≡ (if is_empty before.default || r.set_default then trim_space r.alias else before.default)

-- The run leaves the file alone, before the probe or behind it, or it takes one step of the store,
-- from what the file holds behind the probe.
abbrev pub Refines :
    Request → Described → Option Config → Option Config → Outcome × Option Config → Type 0
Refines r described file behind (outcome, after) =
    ((is_saved outcome ≡ false) × ((after ≡ file) ⊎ (after ≡ behind)))
    ⊎ ((cfg : Config) × (cfg' : Config) × (zone : Bytes) × (is_saved outcome ≡ true)
        × (behind ≡ some cfg)
        × (after ≡ some cfg')
        × (canonical_zone r.zone_flag ≡ some zone)
        × (validate_config_host (host_of r) ≡ true)
        × Adds r (device_of (host_of r) zone described) (view cfg) (view cfg'))

is_free :
    (alias : Bytes) (force : Bool) (cfg : Config)
    → (is_some (lookup alias cfg.devices) && not force) ≡ false
    → (lookup alias cfg.devices ≡ none) ⊎ (force ≡ true)
is_free alias force cfg h = elim (Option-cases (lookup alias cfg.devices)) [
  | inl e ↦ inl e
  | inr (d, e) ↦ inr (ground arith)
]

outcome-is_saved : (d : Described) → is_saved (outcome_of d) ≡ true
outcome-is_saved (receiver udn) = refl
outcome-is_saved not_yamaha = refl
outcome-is_saved unreadable = refl

module _ (save_fails : Config → Bool) (r : Request) (file : Option Config) where
  module _ (zone : Bytes) (in_form : canonical_zone r.zone_flag ≡ some zone)
      (bare : validate_config_host (host_of r) ≡ true) where
    save_new-Refines :
        (described : Described) (behind : Option Config)
        → Refines r described file behind
            (save_new save_fails r (trim_space r.alias) (host_of r) zone described behind)
    unfolding save_new store_entry load_config_for_add
    save_new-Refines described none = inl (refl, inr refl)
    save_new-Refines described (some cfg) =
        let d = device_of (host_of r) zone described in
        let cfg' = with_entry (trim_space r.alias) r.set_default d cfg in
        elim (Bool-cases (is_some (lookup (trim_space r.alias) cfg.devices) && not r.force)) [
          | inl taken ↦ rw (save_new, taken) (inl (refl, inr refl))
          | inr new ↦ elim (Bool-cases (save_fails cfg')) [
            | inl f ↦ rw (save_new, new, f) (inl (refl, inr refl))
            | inr f ↦
                rw (save_new, new, f)
                  (inr (
                    cfg,
                    cfg',
                    zone,
                    outcome-is_saved described,
                    refl,
                    refl,
                    in_form,
                    bare,
                    record {
                      free = is_free (trim_space r.alias) r.force cfg new;
                      entry = λ k. lookup-insert (trim_space r.alias) k d cfg.devices;
                      default = refl;
                    },
                  ))
          ]
        ]

    after_probe-Refines :
        (described : Described) (interrupted : Bool) (behind : Option Config)
        → Refines r described file behind (
            after_probe save_fails r
              (trim_space r.alias)
              (host_of r)
              zone
              described
              interrupted
              behind)
    unfolding after_probe
    after_probe-Refines (receiver udn) i behind = save_new-Refines (receiver udn) behind
    after_probe-Refines not_yamaha true behind = inl (refl, inr refl)
    after_probe-Refines not_yamaha false behind = inl (refl, inr refl)
    after_probe-Refines unreadable true behind = inl (refl, inr refl)
    after_probe-Refines unreadable false behind = save_new-Refines unreadable behind

    probing-Refines :
        (p : Probe) (o : Option Config)
        → Refines r p.described file (p.meanwhile file) (
            probing save_fails r
              (trim_space r.alias)
              (host_of r)
              zone
              p
              file
              (load_config_for_add (trim_space r.alias) r.force o))
    unfolding probing load_config_for_add
    probing-Refines p none = inl (refl, inl refl)
    probing-Refines p (some cfg) =
        elim (Bool-cases (is_some (lookup (trim_space r.alias) cfg.devices) && not r.force)) [
          | inl taken ↦ rw (probing, taken) (inl (refl, inl refl))
          | inr new ↦
              rw (probing, new) (after_probe-Refines p.described p.interrupted (p.meanwhile file))
        ]

in_zone-Refines :
    (save_fails : Config → Bool) (r : Request) (p : Probe) (file : Option Config) (o : Option Bytes)
    → canonical_zone r.zone_flag ≡ o
    → validate_config_host (host_of r) ≡ true
    → Refines r p.described file
        (p.meanwhile file)
        (in_zone save_fails r (trim_space r.alias) (host_of r) p file o)
unfolding in_zone
in_zone-Refines save_fails r p file none z bare = inl (refl, inl refl)
in_zone-Refines save_fails r p file (some zone) z bare =
    probing-Refines save_fails r file zone z bare p file

-- `config add` refines the store of devices, whatever other runs make of the file during the probe.
-- If it says that it saved, then from what the file holds behind the probe it has put the probed
-- device under the alias, which was free or forced, has left all other entries as they were, and has
-- set the default if there was none or it was asked to; the host and the zone are well-formed. In
-- every other outcome the file is what it was before the probe, or what the others made of it.
pub run_config_add-Refines :
    (save_fails : Config → Bool) (r : Request) (p : Probe) (file : Option Config)
    → Refines r p.described file (p.meanwhile file) (run_config_add save_fails r p file)
unfolding run_config_add
run_config_add-Refines save_fails r p file =
    elim (Bool-cases (
      is_empty (trim_space r.alias)
      || is_empty (host_of r)
      || not (validate_config_host (host_of r)))) [
        | inl e ↦ rw (run_config_add, e) (inl (refl, inl refl))
        | inr e ↦
            rw (run_config_add, e)
              (in_zone-Refines save_fails r p file (canonical_zone r.zone_flag) refl (ground arith))
      ]
