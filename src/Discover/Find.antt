-- ===== src/Discover/Find.antt =====
-- pkg/discover/discover.go: the devices at the locations that SSDP and the subnet probe report,
-- without doubles, and the device with a given UDN.
pub mod Merged
pub mod Located
use yamaha_cli.Prelude.{
  Bool, true, false, ◌&&◌, not, List, [], ◌∷◌, ◌++◌, Option, none, some, if◌then◌else◌, map,
  is_some,
}
use yamaha_cli.Text.{Bytes, equal}
use yamaha_cli.Discover.Fetch.{Device, Fetched, fetched, failed}

pub data Failure : Type 0 where
  ctx_error : Failure
  ssdp_error : Failure
  udn_not_found : Bytes → Failure

pub data Result (A : Type 0) : Type 0 where
  ok : A → Result A
  err : Failure → Result A

-- The key of `seen`.
unfoldable pub is_seen : Bytes → List Bytes → Bool
unfolding equal
is_seen u [] = false
is_seen u (v ∷ seen) = if equal v u then true else is_seen u seen

-- `findUDN`
unfoldable pub find_udn : List Device → Bytes → Option Device
unfolding equal
find_udn [] udn = none
find_udn (d ∷ devs) udn = if equal d.udn udn then some d else find_udn devs udn

-- The devices among the results, each UDN once.
unfoldable pub unique : List Bytes → List Fetched → List Device
unfolding is_seen
unique seen [] = []
unique seen (failed e ∷ results) = unique seen results
unique seen (fetched d ∷ results) =
    let rest = unique (d.udn ∷ seen) results in
    if is_seen d.udn seen then unique seen results else d ∷ rest

-- The swept devices whose UDN is not among `devs`, behind these.
unfoldable pub merge : List Device → List Device → List Device
unfolding find_udn
merge devs [] = devs
merge devs (d ∷ swept) =
    merge (if is_some (find_udn devs d.udn) then devs else devs ++ d ∷ []) swept

-- What the network and the context do during a search: the locations from SSDP or its error, what
-- fetching a location comes to, and whether the context is done by the end of each of the two.
pub record Lan : Type 0 where
  pub locations : List Bytes
  pub ssdp_failed : Bool
  pub done_after_ssdp : Bool
  pub fetch : Bytes → Fetched
  pub done_after_fetch : Bool

-- `fetchAndFilter`
unfoldable pub fetch_and_filter : (Bytes → Fetched) → Bool → List Bytes → Result (List Device)
unfolding unique
fetch_and_filter fetch done locations =
    if done then err ctx_error else ok (unique [] (map fetch locations))

abbrev at_end : Bool → List Device → Result (List Device)
at_end true [] = err ssdp_error
at_end _ devs = ok devs

unfoldable pub after_sweep : Bool → List Device → Result (List Device) → Result (List Device)
unfolding merge
after_sweep ssdp_failed devs (err e) = err e
after_sweep ssdp_failed devs (ok swept) = at_end ssdp_failed (merge devs swept)

abbrev pub found_none : List Device → Bool
found_none [] = true
found_none (d ∷ devs) = false

unfoldable pub pick : Bytes → Result (List Device) → Result Device
unfolding find_udn
pick udn (err e) = err e
pick udn (ok devs) = elim (find_udn devs udn) [ some d ↦ ok d | none ↦ err (udn_not_found udn) ]

module _ (lan : Lan) where
  unfoldable pub probe_if_needed :
      (List Device → Bool) → Result (List Device) → Result (List Device) → Result (List Device)
  unfolding after_sweep
  probe_if_needed need_probe swept (err e) = err e
  probe_if_needed need_probe swept (ok devs) =
      if need_probe devs
      then after_sweep lan.ssdp_failed devs swept
      else at_end lan.ssdp_failed devs

  -- `search`; `swept` is what the probe comes to where it runs.
  unfoldable pub search : (List Device → Bool) → Result (List Device) → Result (List Device)
  unfolding probe_if_needed fetch_and_filter
  search need_probe swept =
      if lan.done_after_ssdp
      then err ctx_error
      else probe_if_needed need_probe swept
          (fetch_and_filter lan.fetch lan.done_after_fetch lan.locations)

  -- `Search`
  unfoldable pub search_all : Result (List Device) → Result (List Device)
  unfolding search
  search_all = search found_none

  -- `LookupByUDN`; `probe` says whether the last host is an IPv4 address.
  unfoldable pub lookup_by_udn : Bytes → Bool → Result (List Device) → Result Device
  unfolding search find_udn pick
  lookup_by_udn udn probe swept =
      pick udn (search (λ devs. probe && not (is_some (find_udn devs udn))) swept)
