-- ===== src/Discover/Sweep/Exact.antt =====
-- The probe dials each host of its subnets once, and none of this computer's own addresses.
use yamaha_cli.Prelude.{
  ℕ, zero, suc, ◌-◌, ◌*◌, ◌/◌, ◌^◌, ◌≤◌, ◌≡◌, refl, sym, ap, ◌∙◌, true, ◌&&◌, not, List, [], ◌∷◌,
  Option, none, some, inl, inr, arith, ==_iff, max, Bool-cases, All,
}
use yamaha_cli.Discover.Sweep.{
  Addr, Prefix, IfaceAddrs, size, masked, contains, any, mem, add_subnet, sweep_widest_bits,
  add_ifaces, sort_prefixes, route_first, sweep_targets,
}
use yamaha_cli.Discover.Sweep.Hosts.{
  IsSubnet, contains_iff, is_host, mem-targets_of, Once, targets_of-Once,
}
use yamaha_cli.Discover.Sweep.Subnets.{add-All, route_first-All, sorted-All}
use native.Mathlib.Nat.{one-le-pow, mul-div_left, div-div-eq-div-mul}

masked-IsSubnet : (p : Prefix) → IsSubnet (masked p)
unfolding masked
masked-IsSubnet p =
    (omega (arith, one-le-pow (32 - p.bits) 2 (omega arith)), (p.addr / size p, refl))

pub add_subnet-IsSubnet :
    (near : Option Addr) (addr ones : ℕ) (ps : List Prefix)
    → All IsSubnet ps
    → ones ≤ 30
    → All IsSubnet (add_subnet near addr ones ps)
unfolding add_subnet
add_subnet-IsSubnet none addr ones ps h le = add-All IsSubnet _ ps (masked-IsSubnet _) h
add_subnet-IsSubnet (some near) addr ones ps h le =
    elim (Bool-cases (contains (masked (record { addr = addr; bits = ones })) near)) [
      | inl e ↦ rw e (add-All IsSubnet _ ps (masked-IsSubnet _) h)
      | inr e ↦ rw e h
    ]

-- The addresses of this computer that a probe passes by.
unfoldable pub own_addrs : Option Addr → List IfaceAddrs → List Addr
unfolding add_ifaces
own_addrs near ifis = (add_ifaces near ifis (record { self = []; prefixes = [] })).self

pub sweep_targets-IsExact :
    (near : Option Addr) (ifis : List IfaceAddrs) (route : Option Addr)
    → let (targets, prefixes) = sweep_targets near ifis route in
      Once targets
      × All IsSubnet prefixes
      × ((x : Addr)
          → mem x targets ≡ (not (mem x (own_addrs near ifis)) && any (is_host x) prefixes))
unfolding sweep_targets own_addrs any
sweep_targets-IsExact near ifis route =
    let ps =
      route_first route
        (sort_prefixes (add_ifaces near ifis (record { self = []; prefixes = [] })).prefixes) in
    let h : All IsSubnet ps =
      route_first-All IsSubnet route _ (sorted-All IsSubnet near (add_subnet-IsSubnet near) ifis) in
    (targets_of-Once _ ps [] tt, h, λ x. mem-targets_of _ x ps [] h)

-- 256 addresses are so many subnets of the size of a `24 + k`.
sizes_divide : (k : ℕ) → k ≤ 6 → 2 ^ (8 - k) * 2 ^ k ≡ 256
sizes_divide zero h = refl
sizes_divide (suc zero) h = refl
sizes_divide (suc (suc zero)) h = refl
sizes_divide (suc (suc (suc zero))) h = refl
sizes_divide (suc (suc (suc (suc zero)))) h = refl
sizes_divide (suc (suc (suc (suc (suc zero))))) h = refl
sizes_divide (suc (suc (suc (suc (suc (suc zero)))))) h = refl
sizes_divide (suc (suc (suc (suc (suc (suc (suc k))))))) h = absurd (omega arith)

module _ (near : Addr) where
  -- Its addresses share their first 24 bits with `near`.
  abbrev IsAround : Prefix → Type 0
  IsAround p = (x : Addr) → contains p x ≡ true → x / 256 ≡ near / 256

  masked-IsAround :
      (ones : ℕ)
      → ones ≤ 30
      → IsAround (masked (record { addr = near; bits = max ones sweep_widest_bits }))
  unfolding masked contains
  masked-IsAround ones le x h =
      let b = max ones sweep_widest_bits in
      let n = 2 ^ (32 - b) in
      let k = 2 ^ (b - 24) in
      let e : n * k ≡ 256 =
        (let r : 32 - b ≡ 8 - (b - 24) = omega arith in
          rw r (sizes_divide (b - 24) (omega arith))) in
      let m : near / n * n / n ≡ near / n =
        mul-div_left (near / n) (omega (arith, one-le-pow (32 - b) 2 (omega arith))) in
      let q : x / n ≡ near / n = (==_iff (x / n) (near / n * n / n)).0 h ∙ m in
      ap (λ w. x / w) (sym e)
      ∙ sym (div-div-eq-div-mul x n k)
      ∙ ap (λ w. w / k) q
      ∙ div-div-eq-div-mul near n k
      ∙ ap (λ w. near / w) e

  add_subnet-IsAround :
      (addr ones : ℕ) (ps : List Prefix)
      → All IsAround ps
      → ones ≤ 30
      → All IsAround (add_subnet (some near) addr ones ps)
  unfolding add_subnet
  add_subnet-IsAround addr ones ps h le =
      elim (Bool-cases (contains (masked (record { addr = addr; bits = ones })) near)) [
        | inl e ↦ rw e (add-All IsAround _ ps (masked-IsAround ones le) h)
        | inr e ↦ rw e h
      ]

  host-IsAround :
      (x : Addr) (ps : List Prefix)
      → All IsSubnet ps
      → All IsAround ps
      → any (is_host x) ps ≡ true
      → x / 256 ≡ near / 256
  unfolding any
  host-IsAround x [] i h e = ground arith
  host-IsAround x (p ∷ ps) i h e = elim (Bool-cases (is_host x p)) [
    | inl f ↦ h.0 x (ground (arith, contains_iff p x i.0))
    | inr f ↦ host-IsAround x ps i.1 h.1 (ground arith)
  ]

  -- A probe for a receiver that was at an address dials only addresses that share its first 24 bits.
  pub sweep_targets-IsNear :
      (ifis : List IfaceAddrs) (route : Option Addr) (x : Addr)
      → mem x (sweep_targets (some near) ifis route).0 ≡ true
      → x / 256 ≡ near / 256
  unfolding sweep_targets own_addrs any
  sweep_targets-IsNear ifis route x m =
      let (once, i, exact) = sweep_targets-IsExact (some near) ifis route in
      let found = add_ifaces (some near) ifis (record { self = []; prefixes = [] }) in
      host-IsAround x (route_first route (sort_prefixes found.prefixes)) i
        (route_first-All IsAround route _
          (sorted-All IsAround (some near) add_subnet-IsAround ifis))
        (ground (arith, exact x))
