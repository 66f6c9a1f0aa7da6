-- ===== src/Discover/Sweep.antt =====
-- pkg/discover/sweep.go: the addresses that the subnet probe dials. An IPv4 address is its number
-- below 2^32; the interfaces and the default route are what the system reports.
pub mod Subnets
pub mod Hosts
pub mod Exact
pub mod Capped
use yamaha_cli.Prelude.{
  ℕ, zero, suc, ◌+◌, ◌-◌, ◌*◌, ◌/◌, ◌^◌, max, min, Bool, true, false, ◌&&◌, ◌||◌, not, List, [],
  ◌∷◌, ◌++◌, Option, none, some, leb, ltb, ◌==◌, if◌then◌else◌, take, length, keep,
}
use yamaha_cli.Text.{Bytes}

abbrev pub Addr : Type 0
Addr = ℕ

pub record Prefix : Type 0 where
  pub addr : Addr
  pub bits : ℕ

pub record Flags : Type 0 where
  pub up : Bool
  pub multicast : Bool
  pub loopback : Bool

-- An address of an interface: a `*net.IPNet` with its `To4()` and the `Size()` of its mask, a
-- `*net.IPAddr` with its `To4()`, or another type.
pub data NetAddr : Type 0 where
  ip_net : Option Addr → ℕ → ℕ → NetAddr
  ip_addr : Option Addr → NetAddr
  other_addr : NetAddr

pub record IfaceAddrs : Type 0 where
  pub name : Bytes
  pub flags : Flags
  pub addrs : List NetAddr

abbrev pub sweep_max_targets : ℕ
sweep_max_targets = 1024

abbrev pub sweep_widest_bits : ℕ
sweep_widest_bits = 24

-- `searchableIface`
unfoldable pub searchable_iface : Flags → Bool
searchable_iface f = f.up && f.multicast && not f.loopback

-- `IP.IsPrivate`, for IPv4
unfoldable pub is_private : Addr → Bool
is_private a = a / 2 ^ 24 == 10 || a / 2 ^ 20 == 172 * 16 + 1 || a / 2 ^ 16 == 192 * 256 + 168

abbrev pub size : Prefix → ℕ
size p = 2 ^ (32 - p.bits)

-- `Prefix.Masked`
unfoldable pub masked : Prefix → Prefix
masked p = record { addr = p.addr / size p * size p; bits = p.bits }

-- `Prefix.Contains`; no address is behind the last one, which the prefix of that number lacks too.
unfoldable pub contains : Prefix → Addr → Bool
contains p a = a / size p == p.addr / size p

abbrev pub same_prefix : Prefix → Prefix → Bool
same_prefix p q = p.addr == q.addr && p.bits == q.bits

unfoldable pub any {ℓ} : {A : Type ℓ} → (A → Bool) → List A → Bool
any test [] = false
any test (x ∷ xs) = test x || any test xs

-- The lookup in `self` and `seen`.
abbrev pub mem : Addr → List Addr → Bool
unfolding any
mem a = any (λ b. b == a)

-- `add`
unfoldable pub add : Prefix → List Prefix → List Prefix
unfolding any
add p prefixes = if any (same_prefix p) prefixes then prefixes else prefixes ++ p ∷ []

pub record Found : Type 0 where
  pub self : List Addr
  pub prefixes : List Prefix

-- The subnet to probe for an address of this computer.
unfoldable pub add_subnet : Option Addr → Addr → ℕ → List Prefix → List Prefix
unfolding add masked contains
add_subnet none addr ones prefixes =
    add (masked (record { addr = addr; bits = max ones sweep_widest_bits })) prefixes
add_subnet (some near) addr ones prefixes =
    if contains (masked (record { addr = addr; bits = ones })) near
    then add (masked (record { addr = near; bits = max ones sweep_widest_bits })) prefixes
    else prefixes

unfoldable pub add_addr : Option Addr → NetAddr → Found → Found
unfolding add_subnet is_private
add_addr near other_addr s = s
add_addr near (ip_addr ip) s = s
add_addr near (ip_net none ones bits) s = s
add_addr near (ip_net (some addr) ones bits) s =
    if not (is_private addr) || not (bits == 32) || ltb 30 ones
    then s
    else record { self = addr ∷ s.self; prefixes = add_subnet near addr ones s.prefixes }

unfoldable pub add_addrs : Option Addr → List NetAddr → Found → Found
unfolding add_addr
add_addrs near [] s = s
add_addrs near (a ∷ addrs) s = add_addrs near addrs (add_addr near a s)

unfoldable pub add_ifaces : Option Addr → List IfaceAddrs → Found → Found
unfolding add_addrs searchable_iface
add_ifaces near [] s = s
add_ifaces near (i ∷ ifis) s =
    add_ifaces near ifis (if searchable_iface i.flags then add_addrs near i.addrs s else s)

-- The order of `slices.SortFunc`: by address, then by bits.
abbrev pub is_before : Prefix → Prefix → Bool
is_before p q = ltb p.addr q.addr || (p.addr == q.addr && leb p.bits q.bits)

unfoldable pub insert_sorted : Prefix → List Prefix → List Prefix
insert_sorted p [] = p ∷ []
insert_sorted p (q ∷ qs) = if is_before p q then p ∷ q ∷ qs else q ∷ insert_sorted p qs

-- `slices.SortFunc`, on different prefixes
unfoldable pub sort_prefixes : List Prefix → List Prefix
unfolding insert_sorted
sort_prefixes [] = []
sort_prefixes (p ∷ ps) = insert_sorted p (sort_prefixes ps)

abbrev pub behind : Prefix → Option (Prefix × List Prefix) → Option (Prefix × List Prefix)
behind p none = none
behind p (some (q, ps)) = some (q, p ∷ ps)

abbrev pub in_front : List Prefix → Option (Prefix × List Prefix) → List Prefix
in_front ps none = ps
in_front ps (some (p, others)) = p ∷ others

-- The first prefix that contains the address, and the others.
unfoldable pub pull : Addr → List Prefix → Option (Prefix × List Prefix)
unfolding contains
pull a [] = none
pull a (p ∷ ps) = let rest = behind p (pull a ps) in if contains p a then some (p, ps) else rest

-- The default route's subnet moves to the front.
unfoldable pub route_first : Option Addr → List Prefix → List Prefix
unfolding pull
route_first none ps = ps
route_first (some route) ps = in_front ps (pull route ps)

-- The loop over the addresses of a prefix, from `a`. The targets are what `seen` has.
unfoldable pub add_hosts : List Addr → Prefix → ℕ → Addr → List Addr → List Addr
unfolding contains any
add_hosts self p zero a targets = targets
add_hosts self p (suc fuel) a targets =
    let rest =
      add_hosts self p fuel (a + 1)
        (if mem a self || mem a targets then targets else targets ++ a ∷ []) in
    if contains p (a + 1) then rest else targets

unfoldable pub targets_of : List Addr → List Prefix → List Addr → List Addr
unfolding add_hosts
targets_of self [] targets = targets
targets_of self (p ∷ ps) targets =
    targets_of self ps (add_hosts self p (size p) (p.addr + 1) targets)

-- `sweepTargets`; the interfaces could be listed.
unfoldable pub sweep_targets : Option Addr → List IfaceAddrs → Option Addr → List Addr × List Prefix
unfolding add_ifaces sort_prefixes route_first targets_of
sweep_targets near ifis route =
    let found = add_ifaces near ifis (record { self = []; prefixes = [] }) in
    let prefixes = route_first route (sort_prefixes found.prefixes) in
    (targets_of found.self prefixes [], prefixes)

-- `capTargets`
unfoldable pub cap_targets : List Addr → List Prefix → ℕ → List Addr × List Prefix
unfolding any contains
cap_targets targets prefixes n =
    let kept = take (min n (length targets)) targets in
    (kept, keep (λ p. any (contains p) kept) prefixes)

-- The cap, where there are more addresses than that.
unfoldable pub capped : List Addr × List Prefix → List Addr × List Prefix
unfolding cap_targets
capped (targets, prefixes) =
    if ltb sweep_max_targets (length targets)
    then cap_targets targets prefixes sweep_max_targets
    else (targets, prefixes)

-- The addresses that `sweep` dials, and their subnets.
unfoldable pub dialled : Option Addr → List IfaceAddrs → Option Addr → List Addr × List Prefix
unfolding sweep_targets capped
dialled near ifis route = capped (sweep_targets near ifis route)
