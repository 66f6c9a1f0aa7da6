-- ===== src/Discover/Locations.antt =====
-- pkg/discover/discover.go, search.go and describe.go: the locations that searches report. What
-- `http.ReadResponse` and `Header.Get` make of a datagram is a parameter.
pub mod Order
use yamaha_cli.Prelude.{
  ℕ, Bool, true, false, ◌&&◌, ◌||◌, not, List, [], ◌∷◌, ◌++◌, Option, none, some, if◌then◌else◌,
  ◌==◌, ◌/◌, ◌^◌,
}
use yamaha_cli.Text.{Bytes, codes, equal, has, sort_texts}
use yamaha_cli.Discover.Sweep.{
  Addr, NetAddr, ip_net, ip_addr, other_addr, IfaceAddrs, searchable_iface,
}

-- `locationFromSSDPResponse`; no header is an empty one.
unfoldable pub location_from_ssdp_response : (Bytes → Option Bytes) → Bytes → Option Bytes
location_from_ssdp_response read_response msg = elim (read_response msg) [
  | none ↦ none
  | some [] ↦ none
  | some (c ∷ loc) ↦ some (c ∷ loc)
]

-- A location joins the list unless it is there: `seen` has what the list has.
unfoldable pub add_location : Bytes → List Bytes → List Bytes
unfolding has
add_location loc locs = if has loc locs then locs else locs ++ loc ∷ []

unfoldable pub add_locations : List Bytes → List Bytes → List Bytes
unfolding add_location
add_locations [] locs = locs
add_locations (loc ∷ more) locs = add_locations more (add_location loc locs)

abbrev pub add_found : Option Bytes → List Bytes → List Bytes
unfolding add_location
add_found none locs = locs
add_found (some loc) locs = add_location loc locs

-- The callback of `searchIface`, over the datagrams in the order of their arrival.
unfoldable pub iface_locations :
    (Bytes → Option Bytes) → List (Bytes × Bytes) → List Bytes → List Bytes
unfolding location_from_ssdp_response add_found
iface_locations read_response [] locs = locs
iface_locations read_response ((from, reply) ∷ replies) locs =
    iface_locations read_response replies
      (add_found (location_from_ssdp_response read_response reply) locs)

-- What the search from one address comes to.
pub record SearchResult : Type 0 where
  pub locs : List Bytes
  pub failed : Bool

pub data Locations : Type 0 where
  located : List Bytes → Locations
  ssdp_failed : Locations

-- The results in the order in which the searches end.
unfoldable pub join_results : List SearchResult → List Bytes → List Bytes
unfolding add_locations
join_results [] locs = locs
join_results (r ∷ results) locs = join_results results (add_locations r.locs locs)

unfoldable pub any_failed : List SearchResult → Bool
any_failed [] = false
any_failed (r ∷ results) = r.failed || any_failed results

abbrev pub sorted_or_failed : Bool → List Bytes → Locations
unfolding sort_texts
sorted_or_failed true [] = ssdp_failed
sorted_or_failed _ locs = located (sort_texts locs)

-- `defaultSearchLocations`, when all searches have ended.
unfoldable pub search_locations : List SearchResult → Locations
unfolding join_results any_failed sorted_or_failed
search_locations results = sorted_or_failed (any_failed results) (join_results results [])

-- An address to search from; the zero value is the wildcard.
pub record BindAddr : Type 0 where
  pub ip : Option Addr
  pub ifi : Option Bytes

-- `ipv4FromAddr`
unfoldable pub ipv4_from_addr : NetAddr → Option Addr
ipv4_from_addr (ip_net ip ones bits) = ip
ipv4_from_addr (ip_addr ip) = ip
ipv4_from_addr other_addr = none

-- `IsLoopback` is 127.0.0.0/8, `IsUnspecified` is 0.0.0.0.
unfoldable pub usable_addr : Option Addr → Bool
usable_addr none = false
usable_addr (some ip) = not (ip / 2 ^ 24 == 127 || ip == 0)

unfoldable pub iface_bind_addrs : Bytes → List NetAddr → List BindAddr
unfolding ipv4_from_addr usable_addr
iface_bind_addrs name [] = []
iface_bind_addrs name (a ∷ addrs) =
    let rest = iface_bind_addrs name addrs in
    if usable_addr (ipv4_from_addr a)
    then record { ip = ipv4_from_addr a; ifi = some name } ∷ rest
    else rest

unfoldable pub bind_addrs : List IfaceAddrs → List BindAddr
unfolding iface_bind_addrs searchable_iface
bind_addrs [] = []
bind_addrs (i ∷ ifis) =
    (if searchable_iface i.flags then iface_bind_addrs i.name i.addrs else []) ++ bind_addrs ifis

abbrev pub or_wildcard : List BindAddr → List BindAddr
or_wildcard [] = record { ip = none; ifi = none } ∷ []
or_wildcard (b ∷ bs) = b ∷ bs

-- `searchAddrs`
unfoldable pub search_addrs : List IfaceAddrs → List BindAddr
unfolding bind_addrs
search_addrs ifis = or_wildcard (bind_addrs ifis)
