-- ===== src/Discover/Sweep/Capped.antt =====
-- The cap on the addresses that are dialled spares the default route's subnet.
use yamaha_cli.Prelude.{
  ℕ, zero, suc, ◌+◌, ◌-◌, ◌≤◌, ◌≡◌, refl, sym, ap, ◌∙◌, subst, true, false, ◌||◌, List, [], ◌∷◌,
  ◌++◌, Option, none, some, inl, inr, arith, ltb, min, Bool-cases, All, take, length, length-append,
  length-take, append-nil, append_assoc,
}
use yamaha_cli.Discover.Sweep.{
  Addr, Prefix, IfaceAddrs, size, masked, contains, any, mem, add_subnet, add_ifaces, sort_prefixes,
  sweep_widest_bits, capped, dialled, pull, in_front, route_first, add_hosts, targets_of,
  sweep_targets, cap_targets, sweep_max_targets,
}
use yamaha_cli.Discover.Sweep.Hosts.{IsSubnet, is_host, with_host, mem-add_hosts}
use yamaha_cli.Discover.Sweep.Subnets.{add-All, sorted-All, pull-All, AllPulled}
use yamaha_cli.Discover.Sweep.Exact.{own_addrs, add_subnet-IsSubnet}
use native.Mathlib.Nat.{pow-le-pow_right}

-- A list with members behind.
abbrev IsFront : List Addr → List Addr → Type 0
IsFront xs ys = (zs : List Addr) × (ys ≡ xs ++ zs)

IsFront-trans : (xs : List Addr) {ys zs : List Addr} → IsFront xs ys → IsFront ys zs → IsFront xs zs
IsFront-trans xs (us, e) (vs, f) = (us ++ vs, f ∙ ap (λ l. l ++ vs) e ∙ append_assoc xs us vs)

module _ (self : List Addr) where
  with_host-IsFront :
      (a : Addr) (targets : List Addr)
      → IsFront targets (with_host self a targets)
        × (length (with_host self a targets) ≤ length targets + 1)
  with_host-IsFront a targets = elim (Bool-cases (mem a self || mem a targets)) [
    | inl e ↦ rw e (([], sym (append-nil targets)), omega arith)
    | inr e ↦ rw e ((a ∷ [], refl), omega (arith, length-append targets (a ∷ [])))
  ]

  add_hosts-IsFront :
      (p : Prefix) (fuel a : ℕ) (targets : List Addr)
      → IsFront targets (add_hosts self p fuel a targets)
        × (length (add_hosts self p fuel a targets) ≤ length targets + fuel)
  unfolding add_hosts
  add_hosts-IsFront p zero a targets = (([], sym (append-nil targets)), omega arith)
  add_hosts-IsFront p (suc fuel) a targets =
      let step = with_host-IsFront a targets in
      let rest = add_hosts-IsFront p fuel (a + 1) (with_host self a targets) in
      elim (Bool-cases (contains p (a + 1))) [
        | inl e ↦ rw e (IsFront-trans targets step.0 rest.0, omega (arith, step.1, rest.1))
        | inr e ↦ rw e (([], sym (append-nil targets)), omega arith)
      ]

  targets_of-IsFront :
      (ps : List Prefix) (targets : List Addr) → IsFront targets (targets_of self ps targets)
  unfolding targets_of
  targets_of-IsFront [] targets = ([], sym (append-nil targets))
  targets_of-IsFront (p ∷ ps) targets =
      IsFront-trans targets (add_hosts-IsFront p (size p) (p.addr + 1) targets).0
        (targets_of-IsFront ps (add_hosts self p (size p) (p.addr + 1) targets))

mem-take :
    (x : Addr) (n : ℕ) (xs zs : List Addr)
    → length xs ≤ n
    → mem x xs ≡ true
    → mem x (take n (xs ++ zs)) ≡ true
unfolding any
mem-take x n [] zs h e = ground arith
mem-take x zero (y ∷ xs) zs h e = absurd (omega arith)
mem-take x (suc n) (y ∷ xs) zs h e = ground (arith, mem-take x n xs zs)

-- No wider than a /24.
abbrev IsNarrow : Prefix → Type 0
IsNarrow p = sweep_widest_bits ≤ p.bits

add_subnet-IsNarrow :
    (near : Option Addr) (addr ones : ℕ) (ps : List Prefix)
    → All IsNarrow ps
    → ones ≤ 30
    → All IsNarrow (add_subnet near addr ones ps)
unfolding add_subnet masked
add_subnet-IsNarrow none addr ones ps h le = add-All IsNarrow _ ps (omega arith) h
add_subnet-IsNarrow (some near) addr ones ps h le =
    elim (Bool-cases (contains (masked (record { addr = addr; bits = ones })) near)) [
      | inl e ↦ rw e (add-All IsNarrow _ ps (omega arith) h)
      | inr e ↦ rw e h
    ]

size-IsNarrow : (p : Prefix) → IsNarrow p → size p ≤ 256
size-IsNarrow p h =
    omega (arith, pow-le-pow_right {n = 2} (omega arith) {i = 32 - p.bits} {j = 8} (omega arith))

-- The subnets of a probe, before the default route's moves to the front.
unfoldable pub subnets : Option Addr → List IfaceAddrs → List Prefix
unfolding add_ifaces sort_prefixes
subnets near ifis =
    sort_prefixes (add_ifaces near ifis (record { self = []; prefixes = [] })).prefixes

length-capped : (x : List Addr × List Prefix) → length (capped x).0 ≤ sweep_max_targets
unfolding capped cap_targets
length-capped (targets, prefixes) = elim (Bool-cases (ltb sweep_max_targets (length targets))) [
  | inl e ↦ rw e (omega (arith, length-take (min sweep_max_targets (length targets)) targets))
  | inr e ↦ rw e (ground arith)
]

mem-front : (x : Addr) (xs zs : List Addr) → mem x xs ≡ true → mem x (xs ++ zs) ≡ true
unfolding any
mem-front x [] zs e = ground arith
mem-front x (y ∷ xs) zs e = ground (arith, mem-front x xs zs)

mem-capped :
    (x : Addr) (xs zs : List Addr) (prefixes : List Prefix)
    → length xs ≤ sweep_max_targets
    → mem x xs ≡ true
    → mem x (capped (xs ++ zs, prefixes)).0 ≡ true
unfolding capped cap_targets
mem-capped x xs zs prefixes h m = elim (Bool-cases (ltb sweep_max_targets (length (xs ++ zs)))) [
  | inl e ↦ rw e (mem-take x _ xs zs (omega (arith, length-append xs zs)) m)
  | inr e ↦ rw e (mem-front x xs zs m)
]

module _ (near : Option Addr) (ifis : List IfaceAddrs) where
  sweep_targets_from :
      (route : Addr) (p : Prefix) (others : List Prefix)
      → pull route (subnets near ifis) ≡ some (p, others)
      → sweep_targets near ifis (some route)
        ≡ (targets_of (own_addrs near ifis) (p ∷ others) [], p ∷ others)
  unfolding sweep_targets route_first subnets own_addrs
  sweep_targets_from route p others e =
      ap (λ ps. (targets_of (own_addrs near ifis) ps [], ps)) (ap (in_front (subnets near ifis)) e)

  first_hosts :
      (p : Prefix) (others : List Prefix) (x : Addr)
      → IsSubnet p
      → IsNarrow p
      → is_host x p ≡ true
      → mem x (own_addrs near ifis) ≡ false
      → mem x (capped (targets_of (own_addrs near ifis) (p ∷ others) [], p ∷ others)).0 ≡ true
  unfolding targets_of
  first_hosts p others x i n h o =
      let self = own_addrs near ifis in
      let first = add_hosts self p (size p) (p.addr + 1) [] in
      let (zs, z) = targets_of-IsFront self others first in
      subst (λ ts. mem x (capped (ts, p ∷ others)).0 ≡ true) (sym z)
        (mem-capped x first zs (p ∷ others)
          (omega (arith, (add_hosts-IsFront self p (size p) (p.addr + 1) []).1, size-IsNarrow p n))
          (ground
            (arith, mem-add_hosts self p i x (size p) (p.addr + 1) [] (omega arith) (omega arith))))

  -- If the default route is in a subnet of the probe, each host of the first such subnet is dialled, but
  -- for this computer's own addresses, however many subnets there are; and at most 1024 addresses are.
  pub dialled-route :
      (route : Addr) (p : Prefix) (others : List Prefix) (x : Addr)
      → pull route (subnets near ifis) ≡ some (p, others)
      → is_host x p ≡ true
      → mem x (own_addrs near ifis) ≡ false
      → (length (dialled near ifis (some route)).0 ≤ sweep_max_targets)
        × (mem x (dialled near ifis (some route)).0 ≡ true)
  unfolding dialled subnets
  dialled-route route p others x e h o =
      let i : All IsSubnet (subnets near ifis) =
        sorted-All IsSubnet near (add_subnet-IsSubnet near) ifis in
      let n : All IsNarrow (subnets near ifis) =
        sorted-All IsNarrow near (add_subnet-IsNarrow near) ifis in
      let (ip, _) = subst (AllPulled IsSubnet) e (pull-All IsSubnet route _ i) in
      let (np, _) = subst (AllPulled IsNarrow) e (pull-All IsNarrow route _ n) in
      (
        length-capped (sweep_targets near ifis (some route)),
        subst (λ t. mem x (capped t).0 ≡ true) (sym (sweep_targets_from route p others e))
            (first_hosts p others x ip np h o),
      )
