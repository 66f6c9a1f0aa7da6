-- ===== src/Config/Resolve.antt =====
-- `Resolve` of internal/config/config.go: the device that a command talks to.
use yamaha_cli.Prelude.{
  [], ◌∷◌, Option, none, some, ◌≡◌, ◌≢◌, ◌⊎◌, inl, inr, refl, arith, if◌then◌else◌, Bool-cases,
}
use yamaha_cli.Text.{Bytes, equal, equal_iff, equal_refl, Dict, lookup}
use yamaha_cli.Config.Schema.{Device, Config}

pub data Resolved : Type 0 where
  -- an alias, which is empty for a bare address
  device : Bytes → Device → Resolved
  not_found : Bytes → Resolved
  no_device : Resolved

abbrev pub anonymous : Bytes → Device
anonymous host = record { host = host; udn = []; device_id = []; default_zone = [] }

abbrev empty_config : Config
empty_config = record { default_device = []; devices = [] }

abbrev pub or_empty : Option Config → Config
or_empty none = empty_config
or_empty (some c) = c

by_alias : Bytes → Option Device → Resolved
by_alias name none = not_found name
by_alias name (some d) = device name d

single : Dict Device → Resolved
single ((name, d) ∷ []) = device name d
single _ = no_device

unfoldable pub resolve : Option Config → Bytes → Bytes → Bytes → Bytes → Resolved
unfolding equal by_alias single lookup
resolve config host_flag device_flag host_env device_env =
    let c = or_empty config in
    if equal host_flag []
    then (if equal host_env []
        then (if equal device_flag []
            then (if equal device_env []
                then (if equal c.default_device []
                    then single c.devices
                    else by_alias c.default_device (lookup c.default_device c.devices))
                else by_alias device_env (lookup device_env c.devices))
            else by_alias device_flag (lookup device_flag c.devices))
        else device [] (anonymous host_env))
    else device [] (anonymous host_flag)

-- What a device that was resolved is: a bare address that was given, or an entry of the file.
abbrev pub IsKnown : Option Config → Bytes → Bytes → Resolved → Type 0
IsKnown config host_flag host_env (device alias d) =
    ((alias ≡ []) × ((d ≡ anonymous host_flag) ⊎ (d ≡ anonymous host_env)))
    ⊎ (lookup alias (or_empty config).devices ≡ some d)
IsKnown config host_flag host_env _ = Unit

by_alias-IsKnown :
    (config : Option Config) (host_flag host_env name : Bytes)
    → IsKnown config host_flag host_env (by_alias name (lookup name (or_empty config).devices))
unfolding by_alias
by_alias-IsKnown config host_flag host_env name = of (lookup name (or_empty config).devices) refl
  where
    of :
        (o : Option Device)
        → lookup name (or_empty config).devices ≡ o
        → IsKnown config host_flag host_env (by_alias name o)
    of none e = tt
    of (some d) e = inr e

single-IsKnown :
    (config : Option Config) (host_flag host_env : Bytes)
    → IsKnown config host_flag host_env (single (or_empty config).devices)
unfolding single lookup
single-IsKnown config host_flag host_env = of (or_empty config).devices refl
  where
    of :
        (t : Dict Device)
        → (or_empty config).devices ≡ t
        → IsKnown config host_flag host_env (single t)
    of [] e = tt
    of ((name, d) ∷ []) e = inr (rw (e, lookup, equal_refl name) refl)
    of (p ∷ q ∷ t) e = tt

-- The device that is resolved is a bare address that was given by the flag or the environment, with
-- no alias and no UDN, or it is the entry that the file has for the alias. A host flag wins over all
-- else, and the environment's host over all but that.
pub resolve-IsKnown :
    (config : Option Config) (host_flag device_flag host_env device_env : Bytes)
    → IsKnown config host_flag host_env (resolve config host_flag device_flag host_env device_env)
      × (host_flag ≢ []
          → resolve config host_flag device_flag host_env device_env
            ≡ device [] (anonymous host_flag))
      × (host_flag ≡ []
          → host_env ≢ []
          → resolve config host_flag device_flag host_env device_env
            ≡ device [] (anonymous host_env))
unfolding resolve
resolve-IsKnown config host_flag device_flag host_env device_env = (
  known,
  λ ne. ground (arith, equal_iff host_flag []),
  λ e ne. ground (arith, equal_iff host_flag [], equal_iff host_env []),
)
  where
    known :
        IsKnown config host_flag host_env (resolve config host_flag device_flag host_env device_env)
    known = elim (Bool-cases (equal host_flag [])) [
      | inr e ↦ rw e (inl (refl, inl refl))
      | inl e ↦ rw e (elim (Bool-cases (equal host_env [])) [
        | inr e ↦ rw e (inl (refl, inr refl))
        | inl e ↦ rw e (elim (Bool-cases (equal device_flag [])) [
          | inr e ↦ rw e (by_alias-IsKnown config host_flag host_env device_flag)
          | inl e ↦ rw e (elim (Bool-cases (equal device_env [])) [
            | inr e ↦ rw e (by_alias-IsKnown config host_flag host_env device_env)
            | inl e ↦ rw e (elim (Bool-cases (equal (or_empty config).default_device [])) [
              | inr e ↦
                  rw e (by_alias-IsKnown config host_flag host_env (or_empty config).default_device)
              | inl e ↦ rw e (single-IsKnown config host_flag host_env)
            ])
          ])
        ])
      ])
    ]
