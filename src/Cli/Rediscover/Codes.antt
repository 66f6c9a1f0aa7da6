-- ===== src/Cli/Rediscover/Codes.antt =====
-- The exit code of a command whose device does not answer.
use yamaha_cli.Prelude.{true, false, Option, none, some, ◌≡◌, refl, sym, subst, ap, arith}
use yamaha_cli.Text.{Bytes, is_empty}
use yamaha_cli.Cli.Errors.{
  Error, has, is_interrupt, is_no_device, is_unavailable, ranked, is_yxc_transport,
  is_context_canceled, exit_code, error_exit_code,
}
use yamaha_cli.Config.Schema.{Config}
use yamaha_cli.Cli.Rediscover.{
  State, Lookup, found, lookup_failed, Actions, persist, persist_into, with_host, second_try, again,
  after_persist, after_lookup, after_first, run_with_rediscover, unreachable_error,
  should_rediscover,
}

-- A failure of the network that no interrupt is behind, and no missing device.
pub record IsDead (e : Error) : Type 0 where
  pub transport : has is_yxc_transport e.chain ≡ true
  pub no_interrupt : has is_interrupt e.chain ≡ false
  pub has_device : has is_no_device e.chain ≡ false

exit_code-unreachable_error : (e : Error) → IsDead e → exit_code (unreachable_error e) ≡ 69
unfolding exit_code ranked has is_interrupt is_no_device is_unavailable
exit_code-unreachable_error e h = let i = h.no_interrupt in let n = h.has_device in ground arith

-- The address that is tried last: the one that was found, or the one the command had.
abbrev pub tried_last : State → Lookup → Bytes
tried_last s (found host) = host
tried_last s (lookup_failed e) = s.client

module _ {W : Type 0} (act : Actions W) where
  open act use {op, lookup_by_udn, is_done, save, new_client}

  -- No client reaches the device, and nothing else goes wrong: no interrupt, and a file that can be
  -- written.
  pub record AllDead (s : State) : Type 0 where
    pub dead : (host : Bytes) (w : W) → (e : Error) × ((op host w).0 ≡ some e) × IsDead e
    pub quiet :
        (udn host : Bytes) (w : W) (e : Error)
        → (lookup_by_udn udn host w).0 ≡ lookup_failed e
        → has is_context_canceled e.chain ≡ false
    pub awake : (w : W) → is_done w ≡ false
    pub saves : (cfg : Config) (w : W) → (save cfg w).0 ≡ none
    pub clients : (host : Bytes) → new_client host ≡ none
    pub has_config : (cfg : Config) × (s.cfg ≡ some cfg)

  -- The error is that of a try at this address, wrapped as unreachable; the client talks to that
  -- address, and the exit code says that the device is unavailable.
  pub record GivesUp (host : Bytes) (x : Option Error × State × W) : Type 0 where
    pub error : Error
    pub world : W
    pub tried : (op host world).0 ≡ some error
    pub wrapped : x.0 ≡ some (unreachable_error error)
    pub client : x.1.client ≡ host
    pub code : error_exit_code x.0 ≡ 69

  second_try-GivesUp :
      (s : State) (host : Bytes) (w : W) (x : Option Error × W) (e : Error)
      → op host w ≡ x
      → x.0 ≡ some e
      → IsDead e
      → s.client ≡ host
      → GivesUp host (second_try act s x)
  unfolding second_try error_exit_code
  second_try-GivesUp s host w (none, w') e r h dead at = cc
  second_try-GivesUp s host w (some d, w') e r h dead at =
      let it : d ≡ e = ground arith in
      let dead' : IsDead d = subst IsDead (sym it) dead in
      rw (dead'.transport, second_try)
        (record {
          error = d;
          world = w;
          tried = ap (λ (y : Option Error × W). y.0) r;
          wrapped = refl;
          client = at;
          code = exit_code-unreachable_error d dead';
        })

  module _ (s : State) (h : AllDead s) where
    again-GivesUp : (t : State) (host : Bytes) (w : W) → GivesUp host (again act t host w)
    unfolding again
    again-GivesUp t host w =
        let (e, found_e, dead) = h.dead host w in
        rw (h.clients host, again)
          (second_try-GivesUp (record t { client = host }) host w (op host w) e refl found_e dead
            refl)

    after_persist-GivesUp :
        (host : Bytes) (x : Option Error × State × W)
        → x.0 ≡ none
        → GivesUp host (after_persist act host x)
    unfolding after_persist
    after_persist-GivesUp host (none, t, w) e = again-GivesUp t host w
    after_persist-GivesUp host (some d, t, w) e = cc

    persist-saved : (host : Bytes) (w : W) → (persist act s host w).0 ≡ none
    unfolding persist persist_into
    persist-saved host w =
        let (cfg, e) = h.has_config in
        subst (λ o. (persist_into act s host w o).0 ≡ none) (sym e)
          (h.saves (with_host s cfg host) w)

    after_lookup-GivesUp :
        (e : Error) (before : W) (x : Lookup × W)
        → (op s.client before).0 ≡ some e
        → IsDead e
        → ((d : Error) → x.0 ≡ lookup_failed d → has is_context_canceled d.chain ≡ false)
        → GivesUp (tried_last s x.0) (after_lookup act s e x)
    unfolding after_lookup error_exit_code
    after_lookup-GivesUp e before (lookup_failed d, w) tried dead quiet =
        rw (quiet d refl, h.awake w)
          (record {
            error = e;
            world = before;
            tried = tried;
            wrapped = refl;
            client = refl;
            code = exit_code-unreachable_error e dead;
          })
    after_lookup-GivesUp e before (found host, w) tried dead quiet =
        after_persist-GivesUp host (persist act s host w) (persist-saved host w)

    should_rediscover-named :
        (e : Error)
        → IsDead e
        → is_empty s.alias ≡ false
        → is_empty s.device.udn ≡ false
        → should_rediscover s e ≡ true
    unfolding should_rediscover
    should_rediscover-named e dead alias udn = rw (dead.transport, alias, udn) refl

    after_first-GivesUp :
        (w : W) (x : Option Error × W) (e : Error)
        → op s.client w ≡ x
        → x.0 ≡ some e
        → IsDead e
        → is_empty s.alias ≡ false
        → is_empty s.device.udn ≡ false
        → GivesUp
            (tried_last s (lookup_by_udn s.device.udn s.device.host x.1).0)
            (after_first act s x)
    unfolding after_first
    after_first-GivesUp w (none, w1) e r same dead alias udn = cc
    after_first-GivesUp w (some d, w1) e r same dead alias udn =
        let it : d ≡ e = ground arith in
        let dead' : IsDead d = subst IsDead (sym it) dead in
        rw (should_rediscover-named d dead' alias udn, after_first)
          (after_lookup-GivesUp d w (lookup_by_udn s.device.udn s.device.host w1)
            (ap (λ (y : Option Error × W). y.0) r) dead' (h.quiet s.device.udn s.device.host w1))

    -- A device that has an alias and a UDN, and that no client reaches, is looked up, and tried at the
    -- address that is found: the command ends with the error of the last try, wrapped as unreachable,
    -- and exit code 69, if the errors are of the transport and no interrupt or missing device is
    -- behind them, and the file can be written.
    pub run_with_rediscover-exit_code :
        (w : W)
        → is_empty s.alias ≡ false
        → is_empty s.device.udn ≡ false
        → GivesUp
            (tried_last s (lookup_by_udn s.device.udn s.device.host (op s.client w).1).0)
            (run_with_rediscover act s w)
    unfolding run_with_rediscover
    run_with_rediscover-exit_code w alias udn =
        let (e, same, dead) = h.dead s.client w in
        after_first-GivesUp w (op s.client w) e refl same dead alias udn
