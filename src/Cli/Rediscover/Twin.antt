-- ===== src/Cli/Rediscover/Twin.antt =====
-- internal/cli/dhcp.go: the twin of the rediscovery for YNCA, which makes its client anew for each
-- try.
use yamaha_cli.Prelude.{
  Bool, true, false, ◌||◌, ◌&&◌, not, Option, none, some, if◌then◌else◌, ◌≡◌, refl,
}
use yamaha_cli.Text.{Bytes, is_empty}
use yamaha_cli.Config.Schema.{Config}
use yamaha_cli.Cli.Errors.{Kind, ynca, Error, has, is_context_canceled}
use yamaha_cli.Cli.Rediscover.{
  State, Lookup, found, lookup_failed, Actions, persist, persist_into, with_host, moved,
  cancelled_error, unreachable_error,
}
use yamaha_cli.Cli.Rediscover.Saved.{IsMoved, with_host-IsMoved}
use yamaha_cli.Ynca.Errors as Ynca

-- `ynca.IsTransport`
unfoldable pub is_ynca_transport : Kind → Bool
unfolding Ynca.is_transport
is_ynca_transport (ynca e) = Ynca.is_transport e
is_ynca_transport _ = false

-- `shouldRediscoverYNCA`
unfoldable pub should_rediscover_ynca : State → Error → Bool
unfolding has is_ynca_transport
should_rediscover_ynca s e =
    has is_ynca_transport e.chain && not (is_empty s.alias) && not (is_empty s.device.udn)

module _ {W : Type 0} (act : Actions W) where
  -- `run`: a client for the address, and the operation.
  run_at : Bytes → W → Option Error × W
  run_at host w = elim (act.new_client host) [ some e ↦ (some e, w) | none ↦ act.op host w ]

  last_try : State → Option Error × W → Option Error × State × W
  unfolding has is_ynca_transport
  last_try s (none, w) = (none, s, w)
  last_try s (some e, w) =
      (some (if has is_ynca_transport e.chain then unreachable_error e else e), s, w)

  once_saved : Bytes → Option Error × State × W → Option Error × State × W
  unfolding last_try run_at
  once_saved host (some e, s, w) = (some e, s, w)
  once_saved host (none, s, w) = last_try s (run_at host w)

  once_found : State → Error → Lookup × W → Option Error × State × W
  unfolding has is_context_canceled once_saved persist
  once_found s e (lookup_failed e', w) = (
    some (
        if has is_context_canceled e'.chain || act.is_done w
        then cancelled_error
        else unreachable_error e),
    s,
    w,
  )
  once_found s e (found host, w) = once_saved host (persist act s host w)

  once_run : State → Option Error × W → Option Error × State × W
  unfolding should_rediscover_ynca once_found
  once_run s (none, w) = (none, s, w)
  once_run s (some e, w) =
      if should_rediscover_ynca s e
      then once_found s e (act.lookup_by_udn s.device.udn s.device.host w)
      else (some e, s, w)

  -- `runYNCAWithRediscover`
  unfoldable pub run_ynca_with_rediscover : State → W → Option Error × State × W
  unfolding once_run run_at
  run_ynca_with_rediscover s w = once_run s (run_at s.device.host w)

  -- A receiver that has moved is reached within the one command, and its new address, and nothing
  -- else, is saved.
  run_ynca_with_rediscover-Recovers :
      (s : State) (cfg : Config) (host : Bytes) (e : Error) (w w₁ w₂ w₃ w₄ : W)
      → s.cfg ≡ some cfg
      → run_at s.device.host w ≡ (some e, w₁)
      → should_rediscover_ynca s e ≡ true
      → act.lookup_by_udn s.device.udn s.device.host w₁ ≡ (found host, w₂)
      → act.save (with_host s cfg host) w₂ ≡ (none, w₃)
      → run_at host w₃ ≡ (none, w₄)
      → ((run_ynca_with_rediscover s w)
          ≡ (none, record s { device = moved s cfg host; cfg = some (with_host s cfg host) }, w₄))
        × IsMoved s.alias host cfg (with_host s cfg host)
  unfolding run_ynca_with_rediscover persist persist_into
  run_ynca_with_rediscover-Recovers s cfg host e w w₁ w₂ w₃ w₄ c r m l v a = (
    rw (run_ynca_with_rediscover, r, m, l, persist, c, v) (rw (once_saved, a) refl),
    with_host-IsMoved s cfg host,
  )
