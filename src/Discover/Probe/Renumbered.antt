-- ===== src/Discover/Probe/Renumbered.antt =====
-- A receiver whose address has changed is found at its new one.
use yamaha_cli.Prelude.{
  ◌≡◌, refl, sym, ap, ◌∙◌, subst, Bool, true, false, ◌||◌, List, [], ◌∷◌, ◌++◌, append_assoc, none,
  some, inl, inr, arith, ◌==◌, ==_iff, if◌then◌else◌, map, keep, Bool-cases,
}
use yamaha_cli.Text.{Bytes, codes, equal, equal_iff}
use yamaha_cli.Discover.Fetch.{Device, Fetched, fetched, failed}
use yamaha_cli.Discover.Find.{
  Result, ok, err, ctx_error, find_udn, is_seen, Lan, fetch_and_filter, lookup_by_udn,
}
use yamaha_cli.Discover.Find.Merged.{first_with, results, find_udn-unique}
use yamaha_cli.Discover.Find.Located.{IsFound, IsLocated, lookup_by_udn-IsLocated}
use yamaha_cli.Discover.Sweep.{Addr, IfaceAddrs, any, mem, dialled}
use yamaha_cli.Discover.Probe.{
  dotted, yamaha_desc_port, describe_fallback_path, location_at, insert_addr, sort_addrs,
  Surroundings, open_addrs, probe_targets, sweep_from, sweep,
}

module _ (x : Addr) where
  mem-keep :
      (test : Addr → Bool) (xs : List Addr)
      → test x ≡ true
      → mem x xs ≡ true
      → mem x (keep test xs) ≡ true
  unfolding any
  mem-keep test [] t m = ground arith
  mem-keep test (y ∷ xs) t m = elim (Bool-cases (y == x)) [
    | inl e ↦ let e' : y ≡ x = (==_iff y x).0 e in rw (e', t) (ground arith)
    | inr e ↦ ground (arith, mem-keep test xs t)
  ]

  mem-insert_addr : (a : Addr) (xs : List Addr) → mem x (insert_addr a xs) ≡ (a == x || mem x xs)
  unfolding any insert_addr
  mem-insert_addr a [] = refl
  mem-insert_addr a (b ∷ xs) = ground (arith, mem-insert_addr a xs)

  mem-sort_addrs : (xs : List Addr) → mem x (sort_addrs xs) ≡ mem x xs
  unfolding any sort_addrs
  mem-sort_addrs [] = refl
  mem-sort_addrs (a ∷ xs) = ground (arith, mem-insert_addr a (sort_addrs xs), mem-sort_addrs xs)

-- The well-known location of the description at an address.
abbrev pub description_at : Addr → Bytes
description_at a = codes "http://" ++ dotted a ++ codes ":49154/MediaRenderer/desc.xml"

location_at-description_at : (a : Addr) → location_at a ≡ description_at a
unfolding location_at
location_at-description_at a =
    let host = codes "http://" ++ dotted a in
    append_assoc (host ++ codes ":") yamaha_desc_port describe_fallback_path
    ∙ append_assoc host (codes ":") (yamaha_desc_port ++ describe_fallback_path)

-- No address serves another device with the UDN.
abbrev pub IsAlone : (Bytes → Fetched) → Bytes → Device → Type 0
IsAlone fetch udn d =
    (y : Addr) (f : Device) → fetch (description_at y) ≡ fetched f → f.udn ≡ udn → f ≡ d

module _ (fetch : Bytes → Fetched) (udn : Bytes) (x : Addr) (d : Device)
    (at : fetch (description_at x) ≡ fetched d) (is_it : d.udn ≡ udn)
    (alone : IsAlone fetch udn d) where
  first_with-here :
      (y : Addr) (rs : List Fetched) → y ≡ x → first_with udn (fetch (location_at y) ∷ rs) ≡ some d
  first_with-here y rs e =
      let served : fetch (location_at y) ≡ fetched d =
        ap (λ a. fetch (location_at a)) e ∙ ap fetch (location_at-description_at x) ∙ at in
      let named : equal d.udn udn ≡ true = (equal_iff d.udn udn).1 is_it in rw (served, named) refl

  first_with-there :
      (y : Addr) (r : Fetched) (rs : List Fetched)
      → fetch (location_at y) ≡ r
      → first_with udn rs ≡ some d
      → first_with udn (r ∷ rs) ≡ some d
  first_with-there y (failed e) rs at_y h = h
  first_with-there y (fetched f) rs at_y h = elim (Bool-cases (equal f.udn udn)) [
    | inr i ↦ rw i h
    | inl i ↦
        let same =
          alone y f (ap fetch (sym (location_at-description_at y)) ∙ at_y)
            ((equal_iff f.udn udn).0 i) in
        rw i (ap some same)
  ]

  first_with-fetched :
      (xs : List Addr) → mem x xs ≡ true → first_with udn (map fetch (map location_at xs)) ≡ some d
  unfolding any
  first_with-fetched [] m = ground arith
  first_with-fetched (y ∷ xs) m = elim (Bool-cases (y == x)) [
    | inl e ↦ first_with-here y _ ((==_iff y x).0 e)
    | inr e ↦
        first_with-there y (fetch (location_at y)) _ refl (first_with-fetched xs (ground arith))
  ]

-- The device is the one that the sweep found under the UDN.
abbrev pub HasSwept : Bytes → Device → Result (List Device) → Type 0
HasSwept udn d (ok devs) = find_udn devs udn ≡ some d
HasSwept udn d (err e) = ⊥

module _ (s : Surroundings) (udn : Bytes) (x : Addr) (d : Device) (accepted : s.listens x ≡ true)
    (at : s.fetch (description_at x) ≡ fetched d) (is_it : d.udn ≡ udn)
    (alone : IsAlone s.fetch udn d) (undone : s.done_after_dial ≡ false)
    (unended : s.done_after_fetch ≡ false) where
  probe_targets-HasSwept :
      (targets : List Addr) → mem x targets ≡ true → HasSwept udn d (probe_targets s targets)
  unfolding probe_targets open_addrs fetch_and_filter any is_seen
  probe_targets-HasSwept [] m = ground arith
  probe_targets-HasSwept (t ∷ targets) m =
      let xs = sort_addrs (keep s.listens (t ∷ targets)) in
      let here : mem x xs ≡ true =
        mem-sort_addrs x (keep s.listens (t ∷ targets))
        ∙ mem-keep x s.listens (t ∷ targets) accepted m in
      simp (HasSwept, undone, unended)
        (find_udn-unique [] (map s.fetch (map location_at xs)) udn
          ∙ first_with-fetched s.fetch udn x d at is_it alone xs here)

-- The lookup of a receiver whose last address was `near`, over a network where SSDP and the probe run
-- to their ends.
pub record Ran (lan : Lan) (s : Surroundings) : Type 0 where
  pub after_ssdp : lan.done_after_ssdp ≡ false
  pub after_fetch : lan.done_after_fetch ≡ false
  pub before_probe : s.done_before ≡ false
  pub after_dial : s.done_after_dial ≡ false
  pub after_probe : s.done_after_fetch ≡ false

module _ (lan : Lan) (s : Surroundings) (udn : Bytes) where
  found_by_sweep :
      (d : Device) (swept : Result (List Device))
      → HasSwept udn d swept
      → first_with udn (results lan) ≡ none
      → IsLocated udn (first_with udn (results lan)) true swept (lookup_by_udn lan udn true swept)
      → lookup_by_udn lan udn true swept ≡ ok d
  found_by_sweep d (err f) h m l = absurd h
  found_by_sweep d (ok devs) f m l =
      let l' =
        subst (λ o. IsLocated udn o true (ok devs) (lookup_by_udn lan udn true (ok devs))) m l in
      subst (λ o. IsFound o (lookup_by_udn lan udn true (ok devs))) f l'

  sweep_runs :
      (near : Addr) (ifis : List IfaceAddrs)
      → s.done_before ≡ false
      → s.ifis ≡ some ifis
      → sweep s (some near) ≡ probe_targets s (dialled (some near) ifis s.route).0
  unfolding sweep sweep_from
  sweep_runs near ifis live listed =
      ap (λ b. if b then err ctx_error else sweep_from s (some near) s.ifis) live
      ∙ ap (sweep_from s (some near)) listed

  -- A receiver that SSDP misses is found at its new address: the lookup returns what is served at
  -- `http://<address>:49154/MediaRenderer/desc.xml`, if nothing is cancelled, the address is one that
  -- the probe around its last address dials, it accepts the connection, what it serves there is a
  -- device with the UDN, and no address serves another device with that UDN.
  pub lookup_by_udn-renumbered :
      (near x : Addr) (ifis : List IfaceAddrs) (d : Device)
      → Ran lan s
      → first_with udn (results lan) ≡ none
      → s.ifis ≡ some ifis
      → mem x (dialled (some near) ifis s.route).0 ≡ true
      → s.listens x ≡ true
      → s.fetch (description_at x) ≡ fetched d
      → d.udn ≡ udn
      → IsAlone s.fetch udn d
      → lookup_by_udn lan udn true (sweep s (some near)) ≡ ok d
  lookup_by_udn-renumbered near x ifis d ran missed listed m accepted at is_it alone =
      found_by_sweep d (sweep s (some near))
        (subst (HasSwept udn d) (sym (sweep_runs near ifis ran.before_probe listed)) (
          probe_targets-HasSwept s udn x d accepted at is_it alone ran.after_dial ran.after_probe _
            m))
        missed
        (lookup_by_udn-IsLocated udn lan true (sweep s (some near)) ran.after_ssdp ran.after_fetch)
