-- ===== src/Discover/Sweep/Subnets.antt =====
-- The subnets that are probed: what holds of each masked prefix holds of them all.
use yamaha_cli.Prelude.{
  ℕ, ◌≤◌, Bool, true, false, ◌||◌, not, List, [], ◌∷◌, Option, none, some, inl, inr, arith, ltb,
  ◌==◌, if◌then◌else◌, Bool-cases, All, All-append,
}
use yamaha_cli.Discover.Sweep.{
  Addr, Prefix, NetAddr, ip_net, ip_addr, other_addr, IfaceAddrs, Found, is_private, contains, any,
  same_prefix, add, add_subnet, add_addr, add_addrs, searchable_iface, add_ifaces, is_before,
  insert_sorted, sort_prefixes, pull, behind, in_front, route_first,
}

module _ {κ} (P : Prefix → Type κ) where
  pub add-All : (p : Prefix) (ps : List Prefix) → P p → All P ps → All P (add p ps)
  unfolding add
  add-All p ps h hs = elim (Bool-cases (any (same_prefix p) ps)) [
    | inl e ↦ rw e hs
    | inr e ↦ rw e (All-append P ps (p ∷ []) hs (h, tt))
  ]

  insert_sorted-All : (p : Prefix) (ps : List Prefix) → P p → All P ps → All P (insert_sorted p ps)
  unfolding insert_sorted
  insert_sorted-All p [] h hs = (h, tt)
  insert_sorted-All p (q ∷ qs) h hs = elim (Bool-cases (is_before p q)) [
    | inl e ↦ rw e (h, hs)
    | inr e ↦ rw e (hs.0, insert_sorted-All p qs h hs.1)
  ]

  sort_prefixes-All : (ps : List Prefix) → All P ps → All P (sort_prefixes ps)
  unfolding sort_prefixes
  sort_prefixes-All [] h = tt
  sort_prefixes-All (p ∷ ps) h =
      insert_sorted-All p (sort_prefixes ps) h.0 (sort_prefixes-All ps h.1)

  abbrev pub AllPulled : Option (Prefix × List Prefix) → Type κ
  AllPulled none = Unit
  AllPulled (some (p, ps)) = P p × All P ps

  behind-All :
      (p : Prefix) (o : Option (Prefix × List Prefix)) → P p → AllPulled o → AllPulled (behind p o)
  behind-All p none h hs = tt
  behind-All p (some (q, ps)) h hs = (hs.0, (h, hs.1))

  pub pull-All : (a : Addr) (ps : List Prefix) → All P ps → AllPulled (pull a ps)
  unfolding pull
  pull-All a [] h = tt
  pull-All a (p ∷ ps) h = elim (Bool-cases (contains p a)) [
    | inl e ↦ rw (AllPulled, e) h
    | inr e ↦ rw (AllPulled, e) (behind-All p (pull a ps) h.0 (pull-All a ps h.1))
  ]

  in_front-All :
      (ps : List Prefix) (o : Option (Prefix × List Prefix))
      → All P ps
      → AllPulled o
      → All P (in_front ps o)
  in_front-All ps none h hs = h
  in_front-All ps (some (p, others)) h hs = hs

  pub route_first-All : (o : Option Addr) (ps : List Prefix) → All P ps → All P (route_first o ps)
  unfolding route_first
  route_first-All none ps h = h
  route_first-All (some route) ps h = in_front-All ps (pull route ps) h (pull-All route ps h)

  module _ (near : Option Addr)
      (subnet : (addr ones : ℕ) (ps : List Prefix)
        → All P ps
        → ones ≤ 30
        → All P (add_subnet near addr ones ps)) where
    add_addr-All : (a : NetAddr) (s : Found) → All P s.prefixes → All P (add_addr near a s).prefixes
    unfolding add_addr
    add_addr-All other_addr s h = h
    add_addr-All (ip_addr ip) s h = h
    add_addr-All (ip_net none ones bits) s h = h
    add_addr-All (ip_net (some addr) ones bits) s h =
        elim (Bool-cases (not (is_private addr) || not (bits == 32) || ltb 30 ones)) [
          | inl e ↦ rw e h
          | inr e ↦ rw e (subnet addr ones s.prefixes h (ground arith))
        ]

    add_addrs-All :
        (addrs : List NetAddr) (s : Found)
        → All P s.prefixes
        → All P (add_addrs near addrs s).prefixes
    unfolding add_addrs
    add_addrs-All [] s h = h
    add_addrs-All (a ∷ addrs) s h = add_addrs-All addrs (add_addr near a s) (add_addr-All a s h)

    add_ifaces-All :
        (ifis : List IfaceAddrs) (s : Found)
        → All P s.prefixes
        → All P (add_ifaces near ifis s).prefixes
    unfolding add_ifaces
    add_ifaces-All [] s h = h
    add_ifaces-All (i ∷ ifis) s h = add_ifaces-All ifis _ (kept (searchable_iface i.flags))
      where
        kept : (b : Bool) → All P (if b then add_addrs near i.addrs s else s).prefixes
        kept true = add_addrs-All i.addrs s h
        kept false = h

    -- The sorted subnets of a probe are as each masked subnet is.
    pub sorted-All :
        (ifis : List IfaceAddrs)
        → All P
            (sort_prefixes (add_ifaces near ifis (record { self = []; prefixes = [] })).prefixes)
    sorted-All ifis =
        sort_prefixes-All _ (add_ifaces-All ifis (record { self = []; prefixes = [] }) tt)
