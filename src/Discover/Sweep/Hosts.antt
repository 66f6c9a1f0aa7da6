-- ===== src/Discover/Sweep/Hosts.antt =====
-- The addresses that are dialled are the hosts of the subnets, each once.
use yamaha_cli.Prelude.{
  ℕ, zero, suc, ◌+◌, ◌*◌, ◌/◌, ◌≤◌, ◌<◌, ◌≡◌, refl, Bool, false, ◌&&◌, ◌||◌, not, List, [], ◌∷◌,
  ◌++◌, inl, inr, arith, leb, ltb, ◌==◌, if◌then◌else◌, Bool-cases, All,
}
use yamaha_cli.Discover.Sweep.{Addr, Prefix, size, contains, any, mem, add_hosts, targets_of}
use native.Mathlib.Nat.{div-lt_iff_lt-mul, le-div_iff_mul-le, mul-div_left}

-- A subnet: its address is a multiple of its size, as `masked` makes it.
abbrev pub IsSubnet : Prefix → Type 0
IsSubnet p = (0 < size p) × ((q : ℕ) × (p.addr ≡ q * size p))

-- The addresses of a subnet without its first and its last.
abbrev pub is_host : Addr → Prefix → Bool
is_host a p = ltb p.addr a && ltb (a + 1) (p.addr + size p)

quotient_iff : (n q x : ℕ) → 0 < n → (x / n == q) ≡ (leb (q * n) x && ltb x (q * n + n))
quotient_iff n q x h = ground (
  arith,
  (div-lt_iff_lt-mul {k = n} {x = x} {y = q} h),
  (le-div_iff_mul-le {k = n} {x = q} {y = x} h),
  (div-lt_iff_lt-mul {k = n} {x = x} {y = q + 1} h),
)

pub contains_iff :
    (p : Prefix) (x : Addr) → IsSubnet p → contains p x ≡ (leb p.addr x && ltb x (p.addr + size p))
unfolding contains
contains_iff p x (pos_size, (q, e)) =
    rw (e, mul-div_left q {n = size p} pos_size) (quotient_iff (size p) q x pos_size)

mem-append : (x a : Addr) (xs : List Addr) → mem x (xs ++ a ∷ []) ≡ (mem x xs || a == x)
unfolding any
mem-append x a [] = ground arith
mem-append x a (b ∷ xs) = ground (arith, mem-append x a xs)

module _ (self : List Addr) where
  abbrev pub with_host : Addr → List Addr → List Addr
  with_host a targets = if mem a self || mem a targets then targets else targets ++ a ∷ []

  mem-with_host :
      (x a : Addr) (targets : List Addr)
      → mem x (with_host a targets) ≡ (mem x targets || (a == x && not (mem x self)))
  unfolding any
  mem-with_host x a targets = elim (Bool-cases (a == x)) [
    | inl e ↦ let e' : a ≡ x = ground arith in rw e' (ground (arith, mem-append x x targets))
    | inr e ↦ ground (arith, mem-append x a targets)
  ]

  pub mem-add_hosts :
      (p : Prefix)
      → IsSubnet p
      → (x : Addr) (fuel a : ℕ) (targets : List Addr) → p.addr < a
      → p.addr + size p ≤ a + fuel + 1
      → mem x (add_hosts self p fuel a targets)
        ≡ (mem x targets || (not (mem x self) && leb a x && ltb (x + 1) (p.addr + size p)))
  unfolding add_hosts
  mem-add_hosts p i x zero a targets lo hi = ground arith
  mem-add_hosts p i x (suc fuel) a targets lo hi = ground (
    arith,
    contains_iff p (a + 1) i,
    mem-with_host x a targets,
    mem-add_hosts p i x fuel (a + 1) (with_host a targets),
  )

  pub mem-targets_of :
      (x : Addr) (ps : List Prefix) (targets : List Addr)
      → All IsSubnet ps
      → mem x (targets_of self ps targets)
        ≡ (mem x targets || (not (mem x self) && any (is_host x) ps))
  unfolding targets_of any
  mem-targets_of x [] targets h = ground arith
  mem-targets_of x (p ∷ ps) targets h = ground (
    arith,
    mem-targets_of x ps (add_hosts self p (size p) (p.addr + 1) targets) h.1,
    mem-add_hosts p h.0 x (size p) (p.addr + 1) targets (omega arith) (omega arith),
  )

-- No address stands twice.
abbrev pub Once : List Addr → Type 0
Once [] = Unit
Once (a ∷ xs) = (mem a xs ≡ false) × Once xs

Once-append : (xs : List Addr) (a : Addr) → Once xs → mem a xs ≡ false → Once (xs ++ a ∷ [])
unfolding any
Once-append [] a h n = (refl, tt)
Once-append (b ∷ xs) a h n =
    (ground (arith, mem-append b a xs, h.0), Once-append xs a h.1 (ground arith))

module _ (self : List Addr) where
  with_host-Once : (a : Addr) (targets : List Addr) → Once targets → Once (with_host self a targets)
  with_host-Once a targets h = elim (Bool-cases (mem a self || mem a targets)) [
    | inl e ↦ rw e h
    | inr e ↦ rw e (Once-append targets a h (ground arith))
  ]

  add_hosts-Once :
      (p : Prefix) (fuel a : ℕ) (targets : List Addr)
      → Once targets
      → Once (add_hosts self p fuel a targets)
  unfolding add_hosts
  add_hosts-Once p zero a targets h = h
  add_hosts-Once p (suc fuel) a targets h = elim (Bool-cases (contains p (a + 1))) [
    | inl e ↦
        rw e (add_hosts-Once p fuel (a + 1) (with_host self a targets) (with_host-Once a targets h))
    | inr e ↦ rw e h
  ]

  pub targets_of-Once :
      (ps : List Prefix) (targets : List Addr) → Once targets → Once (targets_of self ps targets)
  unfolding targets_of
  targets_of-Once [] targets h = h
  targets_of-Once (p ∷ ps) targets h =
      targets_of-Once ps (add_hosts self p (size p) (p.addr + 1) targets)
        (add_hosts-Once p (size p) (p.addr + 1) targets h)
