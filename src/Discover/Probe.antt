-- ===== src/Discover/Probe.antt =====
-- pkg/discover/sweep.go: the subnet probe. Whether an address accepts a connection to the port of the
-- descriptions is a parameter, as is what fetching a location comes to.
pub mod Renumbered
use yamaha_cli.Prelude.{
  ℕ, ◌+◌, ◌*◌, ◌/◌, ◌%◌, ◌^◌, Bool, true, false, List, [], ◌∷◌, ◌++◌, Option, none, some, leb, ltb,
  ◌==◌, if◌then◌else◌, length, map, keep,
}
use yamaha_cli.Text.{Bytes, codes, itoa}
use yamaha_cli.Discover.Fetch.{Device, Fetched}
use yamaha_cli.Discover.Find.{Result, ok, err, ctx_error, fetch_and_filter}
use yamaha_cli.Discover.Sweep.{Addr, Prefix, IfaceAddrs, dialled}

-- `netip.Addr.String`
unfoldable pub dotted : Addr → Bytes
unfolding itoa
dotted a =
    itoa (a / 2 ^ 24 % 256)
    ++ codes "."
    ++ itoa (a / 2 ^ 16 % 256)
    ++ codes "."
    ++ itoa (a / 2 ^ 8 % 256)
    ++ codes "."
    ++ itoa (a % 256)

abbrev pub yamaha_desc_port : Bytes
yamaha_desc_port = codes "49154"

abbrev pub describe_fallback_path : Bytes
describe_fallback_path = codes "/MediaRenderer/desc.xml"

-- The well-known location of the description at an address.
unfoldable pub location_at : Addr → Bytes
unfolding dotted
location_at a =
    codes "http://" ++ dotted a ++ codes ":" ++ yamaha_desc_port ++ describe_fallback_path

unfoldable pub insert_addr : Addr → List Addr → List Addr
insert_addr a [] = a ∷ []
insert_addr a (b ∷ bs) = if leb a b then a ∷ b ∷ bs else b ∷ insert_addr a bs

-- `slices.SortFunc(open, netip.Addr.Compare)`
unfoldable pub sort_addrs : List Addr → List Addr
unfolding insert_addr
sort_addrs [] = []
sort_addrs (a ∷ addrs) = insert_addr a (sort_addrs addrs)

-- What the probe meets. The interfaces are listed or not.
pub record Surroundings : Type 0 where
  pub ifis : Option (List IfaceAddrs)
  pub route : Option Addr
  pub listens : Addr → Bool
  pub fetch : Bytes → Fetched
  pub done_before : Bool
  pub done_after_dial : Bool
  pub done_after_fetch : Bool

module _ (s : Surroundings) where
  -- The addresses that accept the connection, in order.
  unfoldable pub open_addrs : List Addr → List Addr
  unfolding sort_addrs
  open_addrs targets = sort_addrs (keep s.listens targets)

  unfoldable pub probe_targets : List Addr → Result (List Device)
  unfolding open_addrs location_at fetch_and_filter
  probe_targets [] = ok []
  probe_targets (t ∷ targets) =
      if s.done_after_dial
      then err ctx_error
      else fetch_and_filter s.fetch s.done_after_fetch (map location_at (open_addrs (t ∷ targets)))

  unfoldable pub sweep_from : Option Addr → Option (List IfaceAddrs) → Result (List Device)
  unfolding probe_targets dialled
  sweep_from near none = ok []
  sweep_from near (some ifis) = probe_targets (dialled near ifis s.route).0

  unfoldable pub sweep : Option Addr → Result (List Device)
  unfolding sweep_from
  sweep near = if s.done_before then err ctx_error else sweep_from near s.ifis
