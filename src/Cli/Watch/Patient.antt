-- ===== src/Cli/Watch/Patient.antt =====
-- How patiently `ynca watch` dials again.
use yamaha_cli.Prelude.{
  ℕ, zero, suc, ◌+◌, ◌*◌, ◌^◌, ◌%◌, ◌==◌, ◌≤◌, min, ◌≡◌, refl, ap, ap₂, ◌∙◌, subst, Bool, true,
  false, List, [], ◌∷◌, Option, none, some, leb, inl, inr, arith, Bool-cases, Option-cases, All,
  map, replicate,
}
use yamaha_cli.Cli.Watch.{
  ynca_watch_backoff_min, ynca_watch_backoff_max, ynca_watch_rediscover_after, RunEnd, dial_error,
  dropped, Round, State, Waiting, settle_address, count_failure, after_run, next_state, watch,
  begin_watch,
}
use native.Mathlib.Nat.{pow-suc}

abbrev pub IsPatient : ℕ → Type 0
IsPatient t = (ynca_watch_backoff_min ≤ t) × (t ≤ ynca_watch_backoff_max)

abbrev OfSome : Option Waiting → Type 0
OfSome none = Unit
OfSome (some w) = IsPatient w.state.backoff

settle_address-IsPatient :
    (r : Round) (s : State) → IsPatient s.backoff → OfSome (settle_address r s)
unfolding settle_address
settle_address-IsPatient r s h = elim (Bool-cases r.settles) [
  | inl e ↦ rw (OfSome, e) (omega arith, omega arith)
  | inr e ↦ elim (Bool-cases r.done_after_settle) [
    | inl d ↦ rw (OfSome, e, d) tt
    | inr d ↦ rw (OfSome, e, d) h
  ]
]

count_failure-IsPatient :
    (e : RunEnd) (r : Round) (s : State) → IsPatient s.backoff → OfSome (count_failure e r s)
unfolding count_failure
count_failure-IsPatient dropped r s h = h
count_failure-IsPatient dial_error r s h =
    elim (Bool-cases (leb ynca_watch_rediscover_after (suc s.dial_failures))) [
      | inl e ↦ rw (OfSome, e) (settle_address-IsPatient r s h)
      | inr e ↦ rw (OfSome, e) h
    ]

after_run-IsPatient : (r : Round) (s : State) → IsPatient s.backoff → OfSome (after_run r s)
unfolding after_run
after_run-IsPatient r s h = elim (Bool-cases r.done_after_run) [
  | inl e ↦ rw (OfSome, e) tt
  | inr e ↦ simp (OfSome, e) (count_failure-IsPatient r.run_end r s h)
]

abbrev AllPatient : List Waiting → Type 0
AllPatient = All (λ (w : Waiting). IsPatient w.state.backoff)

watch-AllPatient :
    (rounds : List Round) (s : State) → IsPatient s.backoff → AllPatient (watch rounds s)
unfolding watch next_state
watch-AllPatient [] s h = tt
watch-AllPatient (r ∷ rounds) s h = elim (Option-cases (after_run r s)) [
  | inl e ↦ rw (watch, e) tt
  | inr (w, e) ↦
      let p = subst OfSome e (after_run-IsPatient r s h) in
      elim (Bool-cases r.done_in_wait) [
        | inl d ↦ rw (watch, e, d) (p, tt)
        | inr d ↦
            rw (watch, e, d)
              (p, watch-AllPatient rounds (next_state w.state) (omega (arith, p.0), omega arith))
      ]
]

-- A round in which the receiver cannot be dialled, and its address cannot be settled.
abbrev pub gone : Round
gone = record {
  run_end = dial_error;
  settles = false;
  done_after_run = false;
  done_after_settle = false;
  done_in_wait = false;
}

-- The backoff after `k` waits that were not cut short.
abbrev pub doubled : ℕ → ℕ
doubled k = min (ynca_watch_backoff_min * 2 ^ k) ynca_watch_backoff_max

-- The third, the sixth and so on of the rounds from number `k` try to settle_address the address.
abbrev pub waits_from : ℕ → ℕ → List (Bool × ℕ)
waits_from k zero = []
waits_from k (suc n) = ((k + 1) % 3 == 0, doubled k) ∷ waits_from (suc k) n

abbrev pub shown : Waiting → Bool × ℕ
shown w = (w.tried, w.state.backoff)

doubled-next : (k : ℕ) → min (doubled k * 2) ynca_watch_backoff_max ≡ doubled (suc k)
doubled-next k = omega (arith, pow-suc 2 k)

third_failure :
    (b f : ℕ)
    → leb ynca_watch_rediscover_after (suc f) ≡ true
    → after_run gone (record { backoff = b; dial_failures = f })
      ≡ some (record { tried = true; state = record { backoff = b; dial_failures = 0 } })
unfolding after_run count_failure settle_address
third_failure b f e = rw e refl

other_failure :
    (b f : ℕ)
    → leb ynca_watch_rediscover_after (suc f) ≡ false
    → after_run gone (record { backoff = b; dial_failures = f })
      ≡ some (record { tried = false; state = record { backoff = b; dial_failures = suc f } })
unfolding after_run count_failure settle_address
other_failure b f e = rw e refl

gone_waits :
    (n k : ℕ)
    → map shown (watch (replicate n gone) (record { backoff = doubled k; dial_failures = k % 3 }))
      ≡ waits_from k n
unfolding watch next_state
gone_waits zero k = refl
gone_waits (suc n) k =
    let on : ℕ → ℕ → List (Bool × ℕ) =
      λ b f. map shown (watch (replicate n gone) (record { backoff = b; dial_failures = f })) in
    let later : on (doubled (suc k)) (suc k % 3) ≡ waits_from (suc k) n = gone_waits n (suc k) in
    elim (Bool-cases (leb ynca_watch_rediscover_after (suc (k % 3)))) [
      | inl e ↦
          let q : (k + 1) % 3 == 0 ≡ true = ground arith in
          let z : 0 ≡ suc k % 3 = ground arith in
          rw (watch, third_failure (doubled k) (k % 3) e, q)
            (ap (λ l. (true, doubled k) ∷ l) (ap₂ on (doubled-next k) z ∙ later))
      | inr e ↦
          let q : (k + 1) % 3 == 0 ≡ false = ground arith in
          let z : suc (k % 3) ≡ suc k % 3 = ground arith in
          rw (watch, other_failure (doubled k) (k % 3) e, q)
            (ap (λ l. (false, doubled k) ∷ l) (ap₂ on (doubled-next k) z ∙ later))
    ]

-- In whatever rounds, `ynca watch` waits for a second at least and half a minute at most. While the
-- receiver cannot be dialled and its address cannot be settled, the waits double up to half a minute,
-- and the address is looked for at every third failure.
pub watch-IsPatient :
    (rounds : List Round) (n : ℕ)
    → All (λ (w : Waiting). IsPatient w.state.backoff) (watch rounds begin_watch)
      × (map shown (watch (replicate n gone) begin_watch) ≡ waits_from 0 n)
watch-IsPatient rounds n =
    (watch-AllPatient rounds begin_watch (omega arith, omega arith), gone_waits n 0)
