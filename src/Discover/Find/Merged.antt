-- ===== src/Discover/Find/Merged.antt =====
-- What a search finds: each receiver once, and every receiver that was fetched.
use yamaha_cli.Prelude.{
  ◌≡◌, refl, ◌∙◌, Bool, true, false, List, [], ◌∷◌, ◌++◌, Option, none, some, inl, inr, arith,
  if◌then◌else◌, map, Bool-cases, Option-cases,
}
use yamaha_cli.Text.{Bytes, equal, equal_iff, equal_refl}
use yamaha_cli.Discover.Fetch.{Device, Fetched, fetched, failed}
use yamaha_cli.Discover.Find.{
  Result, ok, err, is_seen, find_udn, unique, merge, Lan, fetch_and_filter, at_end, after_sweep,
  probe_if_needed, search,
}

-- The first device that was fetched with the UDN.
abbrev pub first_with : Bytes → List Fetched → Option Device
first_with udn [] = none
first_with udn (failed e ∷ results) = first_with udn results
first_with udn (fetched d ∷ results) = if equal d.udn udn then some d else first_with udn results

abbrev pub or_else : Option Device → Option Device → Option Device
or_else (some d) o = some d
or_else none o = o

-- No two devices have the same UDN.
abbrev pub Distinct : List Device → Type 0
Distinct [] = Unit
Distinct (d ∷ devs) = (find_udn devs d.udn ≡ none) × Distinct devs

pub find_udn-unique :
    (seen : List Bytes) (results : List Fetched) (udn : Bytes)
    → find_udn (unique seen results) udn
      ≡ (if is_seen udn seen then none else first_with udn results)
unfolding find_udn unique is_seen
find_udn-unique seen [] udn = ground arith
find_udn-unique seen (failed e ∷ results) udn = find_udn-unique seen results udn
find_udn-unique seen (fetched d ∷ results) udn = ground (
  arith,
  equal_iff d.udn udn,
  find_udn-unique seen results udn,
  find_udn-unique (d.udn ∷ seen) results udn,
)

find_udn-append :
    (devs more : List Device) (udn : Bytes)
    → find_udn (devs ++ more) udn ≡ or_else (find_udn devs udn) (find_udn more udn)
unfolding find_udn
find_udn-append [] more udn = refl
find_udn-append (d ∷ devs) more udn = ground (arith, find_udn-append devs more udn)

pub find_udn-merge :
    (devs swept : List Device) (udn : Bytes)
    → find_udn (merge devs swept) udn ≡ or_else (find_udn devs udn) (find_udn swept udn)
unfolding merge find_udn
find_udn-merge devs [] udn = ground arith
find_udn-merge devs (d ∷ swept) udn = elim (Option-cases (find_udn devs d.udn)) [
  | inl e ↦ rw e (
      ground (
        arith,
        equal_iff d.udn udn,
        find_udn-merge (devs ++ d ∷ []) swept udn,
        find_udn-append devs (d ∷ []) udn,
      ))
  | inr (_, e) ↦ rw e (ground (arith, equal_iff d.udn udn, find_udn-merge devs swept udn))
]

unique-Distinct : (seen : List Bytes) (results : List Fetched) → Distinct (unique seen results)
unfolding unique is_seen
unique-Distinct seen [] = tt
unique-Distinct seen (failed e ∷ results) = unique-Distinct seen results
unique-Distinct seen (fetched d ∷ results) = elim (Bool-cases (is_seen d.udn seen)) [
  | inl e ↦ rw (Distinct, e) (unique-Distinct seen results)
  | inr e ↦
      rw (Distinct, e)
        (
          find_udn-unique (d.udn ∷ seen) results d.udn ∙ rw (equal_refl d.udn) refl,
          unique-Distinct (d.udn ∷ seen) results,
        )
]

Distinct-append :
    (devs : List Device) (d : Device)
    → Distinct devs
    → find_udn devs d.udn ≡ none
    → Distinct (devs ++ d ∷ [])
unfolding find_udn
Distinct-append [] d h n = (refl, tt)
Distinct-append (e ∷ devs) d h n =
    let rest : find_udn devs d.udn ≡ none = ground arith in
    (
      ground (
        arith,
        find_udn-append devs (d ∷ []) e.udn,
        equal_iff e.udn d.udn,
        equal_iff d.udn e.udn,
        equal_refl d.udn,
        h.0,
      ),
      Distinct-append devs d h.1 rest,
    )

merge-Distinct : (devs swept : List Device) → Distinct devs → Distinct (merge devs swept)
unfolding merge
merge-Distinct devs [] h = h
merge-Distinct devs (d ∷ swept) h = elim (Option-cases (find_udn devs d.udn)) [
  | inl e ↦ rw e (merge-Distinct (devs ++ d ∷ []) swept (Distinct-append devs d h e))
  | inr (_, e) ↦ rw e (merge-Distinct devs swept h)
]

abbrev pub swept_with : Bytes → Result (List Device) → Option Device
swept_with udn (ok swept) = find_udn swept udn
swept_with udn (err e) = none

-- The devices of a result: each UDN once, and for each UDN the device that `with` says.
abbrev pub IsExact : (Bytes → Option Device) → Result (List Device) → Type 0
IsExact with_udn (ok devs) = Distinct devs × ((udn : Bytes) → find_udn devs udn ≡ with_udn udn)
IsExact with_udn (err e) = Unit

at_end-IsExact :
    (failed_too : Bool) (with_udn : Bytes → Option Device) (devs : List Device)
    → IsExact with_udn (ok devs)
    → IsExact with_udn (at_end failed_too devs)
at_end-IsExact true with_udn [] h = tt
at_end-IsExact true with_udn (d ∷ devs) h = h
at_end-IsExact false with_udn devs h = h

module _ (lan : Lan) where
  abbrev pub results : List Fetched
  results = map lan.fetch lan.locations

  -- The first device that a location came to, or the first that was swept if the probe ran.
  abbrev pub on_lan : Bool → Result (List Device) → Bytes → Option Device
  on_lan probed swept udn =
      or_else (first_with udn results) (if probed then swept_with udn swept else none)

  after_sweep-IsExact :
      (swept : Result (List Device))
      → IsExact (on_lan true swept) (after_sweep lan.ssdp_failed (unique [] results) swept)
  unfolding after_sweep is_seen
  after_sweep-IsExact (err e) = tt
  after_sweep-IsExact (ok swept) =
      at_end-IsExact lan.ssdp_failed (on_lan true (ok swept)) (merge (unique [] results) swept) (
        merge-Distinct (unique [] results) swept (unique-Distinct [] results),
        λ udn.
            find_udn-merge (unique [] results) swept udn ∙ rw (find_udn-unique [] results udn) refl,
      )

  unswept-IsExact :
      (swept : Result (List Device))
      → IsExact (on_lan false swept) (at_end lan.ssdp_failed (unique [] results))
  unfolding is_seen
  unswept-IsExact swept = at_end-IsExact lan.ssdp_failed (on_lan false swept) (unique [] results) (
    unique-Distinct [] results,
    λ udn. find_udn-unique [] results udn ∙ or_else_none (first_with udn results),
  )
    where
      or_else_none : (o : Option Device) → o ≡ or_else o none
      or_else_none none = refl
      or_else_none (some d) = refl

  by_probe :
      (swept : Result (List Device)) (probed : Bool)
      → IsExact (on_lan probed swept) (
          if probed
          then after_sweep lan.ssdp_failed (unique [] results) swept
          else at_end lan.ssdp_failed (unique [] results))
  by_probe swept true = after_sweep-IsExact swept
  by_probe swept false = unswept-IsExact swept

  -- A search that comes to devices has each UDN once. With a UDN it has the first device that a
  -- location came to, or, when no location came to one and the probe ran, the first that was swept;
  -- it has no other.
  pub search-IsExact :
      (need_probe : List Device → Bool) (swept : Result (List Device))
      → IsExact (on_lan (need_probe (unique [] results)) swept) (search lan need_probe swept)
  unfolding search fetch_and_filter probe_if_needed
  search-IsExact need_probe swept = elim (Bool-cases lan.done_after_ssdp) [
    | inl e ↦ rw (IsExact, e) tt
    | inr e ↦ elim (Bool-cases lan.done_after_fetch) [
      | inl f ↦ rw (IsExact, e, f) tt
      | inr f ↦ simp (e, f) (by_probe swept (need_probe (unique [] results)))
    ]
  ]
