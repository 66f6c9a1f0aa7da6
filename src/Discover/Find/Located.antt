-- ===== src/Discover/Find/Located.antt =====
-- A receiver that is on the network is found by its UDN.
use yamaha_cli.Prelude.{
  ◌≡◌, refl, sym, ◌∙◌, subst, Bool, true, false, ◌&&◌, not, List, [], ◌∷◌, Option, none, some,
  if◌then◌else◌, is_some, arith,
}
use yamaha_cli.Text.{Bytes}
use yamaha_cli.Discover.Fetch.{Device}
use yamaha_cli.Discover.Find.{
  Result, ok, err, find_udn, unique, merge, Lan, fetch_and_filter, at_end, after_sweep,
  probe_if_needed, search, pick, lookup_by_udn, is_seen,
}
use yamaha_cli.Discover.Find.Merged.{first_with, results, find_udn-unique, find_udn-merge}

abbrev pub IsErr : Result Device → Type 0
IsErr (ok d) = ⊥
IsErr (err e) = Unit

abbrev pub IsFound : Option Device → Result Device → Type 0
IsFound (some d) r = r ≡ ok d
IsFound none r = IsErr r

module _ (udn : Bytes) where
  -- The result for the first device that a location came to with the UDN, the probe's leave to run,
  -- and what it comes to.
  abbrev pub IsLocated : Option Device → Bool → Result (List Device) → Result Device → Type 0
  IsLocated (some d) probe swept r = r ≡ ok d
  IsLocated none false swept r = IsErr r
  IsLocated none true (err e) r = r ≡ err e
  IsLocated none true (ok swept) r = IsFound (find_udn swept udn) r

  picked-IsFound :
      (o : Option Device) (devs : List Device)
      → find_udn devs udn ≡ o
      → IsFound o (pick udn (ok devs))
  unfolding pick
  picked-IsFound none devs e = rw (IsErr, pick, e) tt
  picked-IsFound (some d) devs e = rw (pick, e) refl

  pick-at_end :
      (failed_too : Bool) (o : Option Device) (devs : List Device)
      → find_udn devs udn ≡ o
      → IsFound o (pick udn (at_end failed_too devs))
  unfolding pick find_udn
  pick-at_end true none [] e = tt
  pick-at_end true (some d) [] e = ground arith
  pick-at_end true o (d ∷ devs) e = picked-IsFound o (d ∷ devs) e
  pick-at_end false o devs e = picked-IsFound o devs e

  module _ (lan : Lan) where
    abbrev fetched_devices : List Device
    fetched_devices = unique [] (results lan)

    -- What the probe's test of the device that was found comes to.
    abbrev probed_for : Bool → Result (List Device) → Option Device → Result (List Device)
    probed_for probe swept o =
        if probe && not (is_some o)
        then after_sweep lan.ssdp_failed fetched_devices swept
        else at_end lan.ssdp_failed fetched_devices

    probed_for-IsLocated :
        (o : Option Device) (probe : Bool) (swept : Result (List Device))
        → find_udn fetched_devices udn ≡ o
        → IsLocated o probe swept (pick udn (probed_for probe swept o))
    unfolding pick after_sweep
    probed_for-IsLocated (some d) true swept e =
        pick-at_end lan.ssdp_failed (some d) fetched_devices e
    probed_for-IsLocated (some d) false swept e =
        pick-at_end lan.ssdp_failed (some d) fetched_devices e
    probed_for-IsLocated none false swept e = pick-at_end lan.ssdp_failed none fetched_devices e
    probed_for-IsLocated none true (err f) e = refl
    probed_for-IsLocated none true (ok swept) e =
        pick-at_end lan.ssdp_failed (find_udn swept udn) (merge fetched_devices swept)
          (find_udn-merge fetched_devices swept udn ∙ rw e refl)

    -- While the context lives, a lookup finds the first device that a location came to with the UDN,
    -- if there is one. If not, and the last host is an IPv4 address, it comes to what the probe
    -- comes to: its error, or the first swept device with the UDN. Else it is an error.
    pub lookup_by_udn-IsLocated :
        (probe : Bool) (swept : Result (List Device))
        → lan.done_after_ssdp ≡ false
        → lan.done_after_fetch ≡ false
        → IsLocated (first_with udn (results lan)) probe swept (lookup_by_udn lan udn probe swept)
    unfolding lookup_by_udn search fetch_and_filter probe_if_needed is_seen
    lookup_by_udn-IsLocated probe swept e f =
        let o = first_with udn (results lan) in
        let u : find_udn fetched_devices udn ≡ o = find_udn-unique [] (results lan) udn in
        simp (e, f)
          (subst (λ p. IsLocated o probe swept (pick udn (probed_for probe swept p))) (sym u)
            (probed_for-IsLocated o probe swept u))
