-- ===== src/Cli/Root/Settled.antt =====
-- The state that a command runs in.
use yamaha_cli.Prelude.{
  Bool, true, false, ◌&&◌, [], Option, none, some, ◌≡◌, refl, ◌⊎◌, arith, inl, inr, Bool-cases,
}
use yamaha_cli.Text.{Bytes, lookup}
use yamaha_cli.Config.Schema.{Device, Config}
use yamaha_cli.Config.Resolve.{
  resolve, Resolved, device, not_found, no_device, anonymous, IsKnown, resolve-IsKnown,
}
use yamaha_cli.Cli.Args.{canonical_zone}
use yamaha_cli.Cli.Rediscover.{State}
use yamaha_cli.Cli.Wizard.{End, saved, run_wizard}
use yamaha_cli.Cli.Wizard.Kept.{SavedIn, run_wizard-SavedIn}
use yamaha_cli.Cli.Root.{
  needs_device, Invocation, Setup, ready, zone_asked, in_zone, with_device, after_wizard,
  after_resolve, loaded, setup_state,
}
use yamaha_cli.Yxc.Errors.{ok}
use yamaha_cli.Yxc.Zone.{valid_zone}
use yamaha_cli.Yxc.Zone.Requests.{IsZone, zone-valid}

-- The device is an address that was given, or the entry that the configuration has for the alias.
abbrev pub Belongs : Bytes → Bytes → Bytes → Device → Config → Type 0
Belongs host_flag host_env alias d cfg =
    ((alias ≡ []) × ((d ≡ anonymous host_flag) ⊎ (d ≡ anonymous host_env)))
    ⊎ (lookup alias cfg.devices ≡ some d)

-- The device is resolved from the file, and the state has the file's configuration.
abbrev pub IsResolved : Invocation → Option Config → State → Config → Type 0
IsResolved v file s cfg =
    (file ≡ some cfg) × (s.cfg ≡ some cfg) × Belongs v.host_flag v.host_env s.alias s.device cfg

-- No device is resolved from the file, and a wizard asks at the terminal: the device is the entry
-- that it saved. The state has what the file then loads as, which is nothing if it does not load.
abbrev pub IsAsked : Invocation → Option Config → State → Config → Type 0
IsAsked v file s cfg =
    (before : Config) × (file ≡ some before)
    × (resolve (some before) v.host_flag v.device_flag v.host_env v.device_env ≡ no_device)
    × (v.stdin_tty && v.stdout_tty ≡ true)
    × (lookup s.alias cfg.devices ≡ some s.device)
    × (s.cfg ≡ v.reload cfg)

-- The state of a command that runs, and the configuration that its device is from.
pub record Settled (client_fails : Bytes → Bool) (v : Invocation) (file : Option Config) (s : State)
    (zone : Bytes) (from : Option Config) : Type 0 where
  pub cfg : Config
  pub is_from : from ≡ some cfg
  pub client : s.client ≡ s.device.host
  pub made : client_fails s.device.host ≡ false
  -- the zone is one that no call refuses
  pub zone_valid : valid_zone zone ≡ ok zone
  pub source : IsResolved v file s cfg ⊎ IsAsked v file s cfg

abbrev pub Fine : (Bytes → Bool) → Invocation → Option Config → Setup × Option Config → Type 0
Fine client_fails v file (ready s zone, from) = Settled client_fails v file s zone from
Fine client_fails v file _ = Unit

canonical_zone-IsZone : (raw zone : Bytes) → canonical_zone raw ≡ some zone → IsZone zone
unfolding canonical_zone
canonical_zone-IsZone raw zone h = ground arith

module _ (save_fails : Config → Bool) (client_fails : Bytes → Bool) (v : Invocation)
    (file : Option Config) where
  abbrev Source : Option Config → Bytes → Device → Config → Type 0
  Source held alias d cfg =
      let s : State = record { alias = alias; device = d; cfg = held; client = d.host } in
      IsResolved v file s cfg ⊎ IsAsked v file s cfg

  in_zone-Fine :
      (held : Option Config) (cfg : Config) (alias : Bytes) (d : Device) (o : Option Bytes)
      → Source held alias d cfg
      → ((zone : Bytes) → o ≡ some zone → IsZone zone)
      → Fine client_fails v file (in_zone save_fails client_fails held alias d o, some cfg)
  unfolding in_zone
  in_zone-Fine held cfg alias d none b z = tt
  in_zone-Fine held cfg alias d (some zone) b z = elim (Bool-cases (client_fails d.host)) [
    | inl e ↦ rw (Fine, e) tt
    | inr e ↦
        rw (Fine, e)
          (record {
            cfg = cfg;
            is_from = refl;
            client = refl;
            made = e;
            zone_valid = zone-valid zone (z zone refl);
            source = b;
          })
  ]

  with_device-Fine :
      (held : Option Config) (cfg : Config) (alias : Bytes) (d : Device)
      → Source held alias d cfg
      → Fine client_fails v file (with_device save_fails client_fails v held alias d, some cfg)
  unfolding with_device
  with_device-Fine held cfg alias d b =
      in_zone-Fine held cfg alias d (canonical_zone (zone_asked v d)) b
        (canonical_zone-IsZone (zone_asked v d))

  module _ (before : Config) (read : file ≡ some before) where
    after_wizard-Fine :
        (x : End × Config)
        → resolve (some before) v.host_flag v.device_flag v.host_env v.device_env ≡ no_device
        → v.stdin_tty && v.stdout_tty ≡ true
        → SavedIn save_fails before x
        → Fine client_fails v file (after_wizard save_fails client_fails v x)
    unfolding after_wizard
    after_wizard-Fine (saved alias d, cfg) none_there at_tty h =
        with_device-Fine (v.reload cfg) cfg alias d
          (inr (before, read, none_there, at_tty, h, refl))
    after_wizard-Fine (_, cfg) none_there at_tty h = tt

    after_resolve-Fine :
        (x : Resolved)
        → resolve (some before) v.host_flag v.device_flag v.host_env v.device_env ≡ x
        → IsKnown (some before) v.host_flag v.host_env x
        → Fine client_fails v file (after_resolve save_fails client_fails v before x)
    unfolding after_resolve
    after_resolve-Fine (device alias d) r h =
        with_device-Fine (some before) before alias d (inl (read, refl, h))
    after_resolve-Fine (not_found alias) r h = tt
    after_resolve-Fine no_device r h = elim (Bool-cases (v.stdin_tty && v.stdout_tty)) [
      | inl e ↦
          rw (after_resolve, e)
            (after_wizard-Fine (run_wizard save_fails v.found v.answers before) r e
              (run_wizard-SavedIn save_fails before v.found v.answers))
      | inr e ↦ rw (after_resolve, e) tt
    ]

loaded-Fine :
    (save_fails : Config → Bool) (client_fails : Bytes → Bool) (v : Invocation)
    (file : Option Config)
    → Fine client_fails v file (loaded save_fails client_fails v file)
unfolding loaded
loaded-Fine save_fails client_fails v none = tt
loaded-Fine save_fails client_fails v (some cfg) =
    after_resolve-Fine save_fails client_fails v (some cfg) cfg refl
      (resolve (some cfg) v.host_flag v.device_flag v.host_env v.device_env) refl
      (resolve-IsKnown (some cfg) v.host_flag v.device_flag v.host_env v.device_env).0

-- A command that runs on a device has a state that is settled: its client talks to the device's host,
-- and no call refuses its zone. Either its configuration is that of the file, and its device is a bare
-- address that was given, without an alias, or the configuration's entry for its alias; or no device
-- was resolved and a wizard asked at the terminal: then its device is the entry that the wizard saved,
-- and its configuration is what the file loads as behind the wizard, or none if it does not load.
pub setup_state-Settled :
    (save_fails : Config → Bool) (client_fails : Bytes → Bool) (name : Bytes)
    (parent : Option Bytes) (v : Invocation) (file : Option Config)
    → Fine client_fails v file (setup_state save_fails client_fails name parent v file)
unfolding setup_state
setup_state-Settled save_fails client_fails name parent v file =
    elim (Bool-cases (needs_device name parent)) [
      | inl e ↦ rw (setup_state, e) (loaded-Fine save_fails client_fails v file)
      | inr e ↦ rw (setup_state, e) tt
    ]
