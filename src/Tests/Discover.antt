-- ===== src/Tests/Discover.antt =====
-- Runs of pkg/discover: a search over a network of two receivers, and a probe of a home subnet.
use yamaha_cli.Prelude.{
  ℕ, ◌+◌, ◌*◌, ◌≡◌, refl, Bool, true, false, [], ◌∷◌, Option, none, some, inr, ◌⊎◌, ◌≤◌, length,
  arith, if◌then◌else◌, ◌==◌, inl, Bool-cases,
}
use yamaha_cli.Text.{Bytes, codes, equal, trim_space}
use yamaha_cli.Discover.Exchange.{
  datagram, Net, Ending, elapsed, State, second, m_search_exchange, resend_interval, read_until,
  wait_until,
}
use yamaha_cli.Discover.Exchange.Deadline.{InTime, m_search_exchange-InTime}
use yamaha_cli.Discover.Exchange.Waited.{Undisturbed, Waited, m_search_exchange-Waited}
use yamaha_cli.Discover.Fetch.{
  Device, Fetched, fetched, failed, bad_request, Reply, broken, answered, Url, fetch_with_retry,
}
use yamaha_cli.Discover.Fetch.Sound.{Only, IsReceiver, fetch_with_retry-IsReceiver}
use yamaha_cli.Discover.Find.{ok, Lan, found_none, unique, search, search_all, lookup_by_udn}
use yamaha_cli.Discover.Find.Merged.{IsExact, on_lan, results, search-IsExact}
use yamaha_cli.Discover.Sweep.{Addr, ip_net, IfaceAddrs, mem, pull, dialled, sweep_max_targets}
use yamaha_cli.Discover.Sweep.Exact.{own_addrs}
use yamaha_cli.Discover.Sweep.Capped.{subnets, dialled-route}
use yamaha_cli.Discover.Probe.{Surroundings, dotted, sweep}
use yamaha_cli.Discover.Probe.Renumbered.{Ran, IsAlone, description_at, lookup_by_udn-renumbered}

-- Two replies, the second after the end, and a read that returns a millisecond late.
abbrev two_replies : Net
two_replies = record {
  arrivals =
      record { at = 1_200_000_000; arrival = datagram (codes "a") (codes "one") }
      ∷ record { at = 9_000_000_000; arrival = datagram (codes "b") (codes "two") }
      ∷ [];
  write_fails = λ n. false;
  deadline_fails = λ t. false;
  cancel_at = none;
  lag = 1_000_000;
}

abbrev keep_reading : Bytes → Bytes → Bool
keep_reading from reply = false

resend_runs : resend_interval (3 * second) ≡ 666_666_666
unfolding resend_interval
resend_runs = refl

exchange_runs :
    m_search_exchange two_replies 0 (3 * second) keep_reading
    ≡ some (
      elapsed,
      record {
        now = 3_001_000_000;
        tried = 3;
        sends = 1_334_333_332 ∷ 667_666_666 ∷ 0 ∷ [];
        coming = record { at = 9_000_000_000; arrival = datagram (codes "b") (codes "two") } ∷ [];
        handed = (codes "a", codes "one") ∷ [];
      },
    )
unfolding m_search_exchange resend_interval read_until wait_until
exchange_runs = refl

m_search_exchange-InTime_example :
    (e : Ending) × (s : State) × (m_search_exchange two_replies 7 (3 * second) keep_reading
      ≡ some (e, s))
    × InTime two_replies 7 (3 * second) keep_reading s
m_search_exchange-InTime_example = m_search_exchange-InTime two_replies 7 (3 * second) keep_reading

two_replies-Undisturbed : Undisturbed two_replies keep_reading
two_replies-Undisturbed = record {
  never_done = refl;
  datagrams = (tt, (tt, tt));
  all_sent = λ k. refl;
  deadlines_set = λ t. refl;
  never_enough = λ from reply. refl;
  lag_below = omega arith;
}

m_search_exchange-Waited_example :
    (e : Ending) × (s : State) × (m_search_exchange two_replies 7 (3 * second) keep_reading
      ≡ some (e, s))
    × Waited two_replies 7 (3 * second) keep_reading e s
m_search_exchange-Waited_example =
    m_search_exchange-Waited two_replies 7 (3 * second) keep_reading (omega arith)
      two_replies-Undisturbed

-- A location whose host is between `http://` and a port.
abbrev parse_any : Bytes → Option Url
parse_any location = some (record { hostname = codes "192.168.1.77"; split_host = none })

abbrev stalled : Reply
stalled = broken (record { timeout = true; cut_short = false }) true

abbrev described : Reply
described = answered 200 (
    inr (record {
      friendly_name = codes " Living room ";
      manufacturer = codes "Yamaha Corporation";
      model_name = codes "RX-V583";
      udn = codes "uuid:1";
    }))

abbrev living_room : Device
living_room = record {
  name = codes "Living room";
  host = codes "192.168.1.77";
  model = codes "RX-V583";
  base_url = codes "http://192.168.1.77/YamahaExtendedControl/v1/";
  udn = codes "uuid:1";
}

fetch_runs :
    fetch_with_retry parse_any (codes "http://x") stalled false described ≡ fetched living_room
unfolding fetch_with_retry trim_space
fetch_runs = refl

fetch_with_retry-IsReceiver_example :
    Only
      (λ d. IsReceiver stalled d ⊎ IsReceiver described d)
      (fetch_with_retry parse_any (codes "http://x") stalled false described)
fetch_with_retry-IsReceiver_example =
    fetch_with_retry-IsReceiver parse_any (codes "http://x") stalled described false

-- 192.168.1.0 and the addresses behind it.
abbrev home : ℕ → Addr
home n = 3_232_235_776 + n

dotted_runs : dotted (home 77) ≡ codes "192.168.1.77"
unfolding dotted
dotted_runs = refl

abbrev wlan : IfaceAddrs
wlan = record {
  name = codes "wlan0";
  flags = record { up = true; multicast = true; loopback = false };
  addrs = ip_net (some (home 20)) 24 32 ∷ [];
}

-- Only the receiver is at its port, and SSDP misses it.
abbrev home_location : Bytes
home_location = codes "http://192.168.1.77:49154/MediaRenderer/desc.xml"

abbrev fetch_home : Bytes → Fetched
fetch_home location =
    if equal location home_location then fetched living_room else failed bad_request

abbrev deaf : Lan
deaf = record {
  locations = [];
  ssdp_failed = true;
  done_after_ssdp = false;
  fetch = fetch_home;
  done_after_fetch = false;
}

abbrev at_home : Surroundings
at_home = record {
  ifis = some (wlan ∷ []);
  route = some (home 20);
  listens = λ a. a == home 77;
  fetch = fetch_home;
  done_before = false;
  done_after_dial = false;
  done_after_fetch = false;
}

search-IsExact_example :
    IsExact
      (on_lan deaf (found_none (unique [] (results deaf))) (ok (living_room ∷ [])))
      (search deaf found_none (ok (living_room ∷ [])))
search-IsExact_example = search-IsExact deaf found_none (ok (living_room ∷ []))

search_all_runs : search_all deaf (ok (living_room ∷ [])) ≡ ok (living_room ∷ [])
unfolding search_all
search_all_runs = refl

abbrev none_near : Option Addr
none_near = none

dialled-route_example :
    (length (dialled none_near (wlan ∷ []) (some (home 20))).0 ≤ sweep_max_targets)
    × (mem (home 77) (dialled none_near (wlan ∷ []) (some (home 20))).0 ≡ true)
unfolding subnets own_addrs pull
dialled-route_example =
    dialled-route none_near (wlan ∷ []) (home 20) (record { addr = home 0; bits = 24 }) [] (home 77)
      refl refl refl

home-Ran : Ran deaf at_home
home-Ran = record {
  after_ssdp = refl;
  after_fetch = refl;
  before_probe = refl;
  after_dial = refl;
  after_probe = refl;
}

at_home-IsAlone : IsAlone at_home.fetch (codes "uuid:1") living_room
at_home-IsAlone y f at is_it = elim (Bool-cases (equal (description_at y) home_location)) [
  | inl e ↦ let at' = rw (fetch_home, e) at at in cc
  | inr e ↦ let at' = rw (fetch_home, e) at at in cc
]

lookup_by_udn-renumbered_example :
    lookup_by_udn deaf (codes "uuid:1") true (sweep at_home (some (home 30))) ≡ ok living_room
unfolding dialled dotted equal
lookup_by_udn-renumbered_example =
    lookup_by_udn-renumbered deaf at_home (codes "uuid:1") (home 30) (home 77) (wlan ∷ [])
      living_room home-Ran refl refl refl refl refl refl at_home-IsAlone
