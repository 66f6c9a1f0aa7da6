-- ===== src/Discover/Exchange/Reading.antt =====
-- What one read of an SSDP search comes to.
use yamaha_cli.Prelude.{
  ℕ, ◌+◌, ◌≤◌, ◌<◌, max, ◌≡◌, refl, Bool, ◌&&◌, List, [], ◌∷◌, inl, inr, arith, ltb, leb,
  Bool-cases,
}
use yamaha_cli.Text.{Bytes}
use yamaha_cli.Discover.Exchange.{Timed, Net, State, Read, got, timed_out, wait_until, read_from}

-- The next arrival comes at `t` or later.
abbrev pub IsLate : ℕ → List Timed → Type 0
IsLate t [] = Unit
IsLate t (a ∷ coming) = t ≤ a.at

-- A read takes an arrival that comes before its deadline, or ends at its deadline.
abbrev pub IsRead : ℕ → ℕ → State → Read × State → Type 0
IsRead lag until s (got a, s') =
    (s'.now < until)
    × (s.now ≤ s'.now)
    × (s'.tried ≡ s.tried)
    × (s'.sends ≡ s.sends)
    × (s'.handed ≡ s.handed)
    × (t : ℕ) × (t < until)
    × (s.coming ≡ record { at = t; arrival = a } ∷ s'.coming)
IsRead lag until s (timed_out, s') =
    (until ≤ s'.now)
    × (s'.now ≤ max s.now (until + lag))
    × (s'.tried ≡ s.tried)
    × (s'.sends ≡ s.sends)
    × (s'.handed ≡ s.handed)
    × (s'.coming ≡ s.coming)
    × (s.now < until → IsLate until s.coming)

module _ (net : Net) (start wait : ℕ) (on_reply : Bytes → Bytes → Bool) where
  wait_until-IsRead :
      (until : ℕ) (s : State)
      → (s.now < until → IsLate until s.coming)
      → IsRead net.lag until s (wait_until net start wait on_reply until s)
  unfolding wait_until
  wait_until-IsRead until s late = elim (Bool-cases (leb until s.now)) [
    | inl e ↦ rw e (ground arith, omega arith, refl, refl, refl, refl, late)
    | inr e ↦ rw e (ground arith, omega arith, refl, refl, refl, refl, late)
  ]

  pub read_from-IsRead :
      (until : ℕ) (s : State)
      → IsRead net.lag until s (read_from net start wait on_reply until s s.coming)
  unfolding read_from
  read_from-IsRead until s = by_coming s.coming refl
    where
      by_coming :
          (coming : List Timed)
          → s.coming ≡ coming
          → IsRead net.lag until s (read_from net start wait on_reply until s coming)
      by_coming [] e = wait_until-IsRead until s λ _. rw e tt
      by_coming (a ∷ coming) e = elim (Bool-cases (ltb s.now until && ltb a.at until)) [
        | inl t ↦ rw t (ground arith, omega arith, refl, refl, refl, a.at, ground arith, e)
        | inr t ↦ rw t (wait_until-IsRead until s λ h. rw e (ground arith))
      ]
