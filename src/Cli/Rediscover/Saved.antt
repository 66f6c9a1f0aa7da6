-- ===== src/Cli/Rediscover/Saved.antt =====
-- What a rediscovery changes in the configuration.
use yamaha_cli.Prelude.{
  true, Option, none, some, ◌≡◌, ◌≢◌, refl, ap, ◌∙◌, ◌⊎◌, arith, inl, inr, Bool-cases, Option-cases,
}
use yamaha_cli.Text.{Bytes, equal_ne, equal_refl, lookup, lookup-insert}
use yamaha_cli.Cli.Errors.{Error}
use yamaha_cli.Config.Schema.{Device, Config}
use yamaha_cli.Cli.Rediscover.{
  State, Lookup, found, lookup_failed, Actions, persist, persist_into, second_try, again,
  after_persist, after_lookup, after_first, run_with_rediscover, should_rediscover, with_host,
  moved,
}

-- The configuration with this address for the alias, and nothing else changed.
pub record IsMoved (alias host : Bytes) (before after : Config) : Type 0 where
  pub same_default : after.default_device ≡ before.default_device
  pub others : (k : Bytes) → k ≢ alias → lookup k after.devices ≡ lookup k before.devices
  pub here : (d : Device) × (lookup alias after.devices ≡ some d) × (d.host ≡ host)
  pub kept :
      (d : Device)
      → lookup alias before.devices ≡ some d
      → lookup alias after.devices ≡ some (record d { host = host })

pub with_host-IsMoved :
    (s : State) (cfg : Config) (host : Bytes) → IsMoved s.alias host cfg (with_host s cfg host)
with_host-IsMoved s cfg host = record {
  same_default = refl;
  others = λ k ne.
      ground (arith, lookup-insert s.alias k (moved s cfg host) cfg.devices, equal_ne s.alias k);
  here = (moved s cfg host, at_alias, refl);
  kept = λ d e. at_alias ∙ ap some (rw e refl);
}
  where
    at_alias : lookup s.alias (with_host s cfg host).devices ≡ some (moved s cfg host)
    at_alias =
        ground
          (arith, lookup-insert s.alias s.alias (moved s cfg host) cfg.devices, equal_refl s.alias)

-- The command's state is as it was, or the first try failed in a way that is looked into, and the
-- configuration is that with an address that was found.
abbrev pub Changes : {W : Type 0} → Actions W → State → W → State → Type 0
Changes act s w t =
    (t ≡ s)
    ⊎ ((e : Error) × (cfg : Config) × (after : Config) × (host : Bytes) × ((act.op s.client w).0
          ≡ some e)
        × (should_rediscover s e ≡ true)
        × (s.cfg ≡ some cfg)
        × (t.cfg ≡ some after)
        × IsMoved s.alias host cfg after)

module _ {W : Type 0} (act : Actions W) where
  open act use {op, lookup_by_udn, save, new_client}

  second_try_state : (s : State) (x : Option Error × W) → (second_try act s x).1 ≡ s
  unfolding second_try
  second_try_state s (none, w) = refl
  second_try_state s (some e, w) = refl

  again_cfg : (s : State) (host : Bytes) (w : W) → (again act s host w).1.cfg ≡ s.cfg
  unfolding again
  again_cfg s host w = elim (Option-cases (new_client host)) [
    | inl e ↦
        rw (e, again) (ap (λ t. t.cfg) (second_try_state (record s { client = host }) (op host w)))
    | inr (d, e) ↦ rw (e, again) refl
  ]

  after_persist_cfg :
      (host : Bytes) (x : Option Error × State × W) → (after_persist act host x).1.cfg ≡ x.1.cfg
  unfolding after_persist
  after_persist_cfg host (some e, s, w) = refl
  after_persist_cfg host (none, s, w) = again_cfg s host w

  -- What follows a lookup that found an address.
  Found : State → Bytes → State → Type 0
  Found s host t =
      (t ≡ s) ⊎ ((cfg : Config) × (s.cfg ≡ some cfg) × (t.cfg ≡ some (with_host s cfg host)))

  persist_into-Found :
      (s : State) (host : Bytes) (w : W) (o : Option Config)
      → s.cfg ≡ o
      → Found s host (after_persist act host (persist_into act s host w o)).1
  unfolding persist_into after_persist Found
  persist_into-Found s host w none e = inl refl
  persist_into-Found s host w (some cfg) e =
      inr (cfg, e, after_persist_cfg host (persist_into act s host w (some cfg)))

  persist-Found :
      (s : State) (host : Bytes) (w : W)
      → Found s host (after_persist act host (persist act s host w)).1
  unfolding persist
  persist-Found s host w = persist_into-Found s host w s.cfg refl

  after_lookup-Changes :
      (s : State) (w : W) (e : Error) (x : Lookup × W)
      → (op s.client w).0 ≡ some e
      → should_rediscover s e ≡ true
      → Changes act s w (after_lookup act s e x).1
  unfolding after_lookup Found
  after_lookup-Changes s w e (lookup_failed d, v) first meant = inl refl
  after_lookup-Changes s w e (found host, v) first meant = elim (persist-Found s host v) [
    | inl same ↦ inl same
    | inr (cfg, had, has_now) ↦ inr (
      e,
      cfg,
      with_host s cfg host,
      host,
      first,
      meant,
      had,
      has_now,
      with_host-IsMoved s cfg host,
    )
  ]

  after_first-Changes :
      (s : State) (w : W) (x : Option Error × W)
      → (op s.client w).0 ≡ x.0
      → Changes act s w (after_first act s x).1
  unfolding after_first
  after_first-Changes s w (none, v) same = inl refl
  after_first-Changes s w (some e, v) same = elim (Bool-cases (should_rediscover s e)) [
    | inr e' ↦ rw e' (inl refl)
    | inl e' ↦
        rw e' (after_lookup-Changes s w e (lookup_by_udn s.device.udn s.device.host v) same e')
  ]

  -- A command changes its configuration only if its first try failed on the network and the device
  -- has an alias and a UDN, and then only the address of the alias: the default device, all other
  -- aliases, and the UDN, the id and the zone of the device stay as they were.
  pub run_with_rediscover-Changes :
      (s : State) (w : W) → Changes act s w (run_with_rediscover act s w).1
  unfolding run_with_rediscover
  run_with_rediscover-Changes s w = after_first-Changes s w (op s.client w) refl
