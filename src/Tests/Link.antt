-- ===== src/Tests/Link.antt =====
-- Runs of internal/cli/link.go and power.go, and of the order of SSDP results.
use yamaha_cli.Prelude.{◌≤◌, ◌≡◌, refl, Bool, true, false, [], ◌∷◌, none, some, ltb, if◌then◌else◌}
use yamaha_cli.Text.{codes, equal, to_lower}
use yamaha_cli.Cli.Link.{Peer, Call, set_client, Log, Net, call_failed, link_create}
use yamaha_cli.Cli.Link.Atomic.{Settles, link_create-Settles}
use yamaha_cli.Cli.Power.{is_on, is_off, Script, Outcome, turned_on, State, wait_for_power_on}
use yamaha_cli.Cli.Power.Wait.{Tells, wait_for_power_on-Tells}
use yamaha_cli.Discover.Locations.{SearchResult}

abbrev kitchen : Peer
kitchen = record { alias = codes "kitchen"; host = codes "10.0.0.2"; zone = codes "main" }

abbrev bedroom : Peer
bedroom = record { alias = codes "bedroom"; host = codes "10.0.0.3"; zone = codes "main" }

abbrev lounge : Peer
lounge = record { alias = codes "lounge"; host = codes "10.0.0.1"; zone = codes "main" }

abbrev confirms_most : Log → Call → Bool
confirms_most log (set_client host group_id zone server_ip) = equal host (codes "10.0.0.2")
confirms_most log _ = true

-- Every receiver but the bedroom's does as it is told.
abbrev most_agree : Net
most_agree = record {
  confirms = confirms_most;
  tells = λ log host. some (record { group_id = []; role = codes "none" });
  random_id = some (codes "00ff");
}

rolls_back :
    (link_create most_agree lounge (kitchen ∷ bedroom ∷ []) []).0
    ≡ some (call_failed (codes "bedroom"))
unfolding link_create equal to_lower
rolls_back = refl

link_create-Settles_example :
    Settles most_agree
      (codes "10.0.0.2")
      (λ log h group_id zone. refl)
      lounge
      (kitchen ∷ bedroom ∷ [])
      (link_create most_agree lounge (kitchen ∷ bedroom ∷ []) [])
link_create-Settles_example =
    link_create-Settles most_agree (codes "10.0.0.2") (λ log h group_id zone. refl) lounge
      (kitchen ∷ bedroom ∷ [])

-- The third poll finds the zone on; each takes 300 milliseconds.
abbrev third_time : Script
third_time = record {
  poll = λ n. if ltb n 2 then is_off else is_on;
  takes = λ n. 300;
  cancel_at = none;
}

third_poll :
    wait_for_power_on third_time 0
    ≡ some (turned_on, record { now = 900; next_tick = 800; polls = 3 })
unfolding wait_for_power_on
third_poll = refl

wait_for_power_on-Tells_example :
    (o : Outcome) × (s : State) × (wait_for_power_on third_time 0 ≡ some (o, s))
    × Tells third_time 0 o s
    × (s.polls ≤ 52)
wait_for_power_on-Tells_example = wait_for_power_on-Tells third_time 0

abbrev first_result : SearchResult
first_result = record { locs = codes "http://b" ∷ codes "http://a" ∷ []; failed = false }

abbrev second_result : SearchResult
second_result = record { locs = codes "http://a" ∷ []; failed = true }
