-- ===== src/Cli/Power/Wait.antt =====
-- The wait for a zone ends, and its outcome is what the polls say.
use yamaha_cli.Prelude.{
  ℕ, zero, suc, ◌+◌, ◌-◌, ◌*◌, ◌%◌, max, ◌≤◌, ◌<◌, ◌≡◌, ◌≢◌, refl, sym, subst, some, ltb, ◌==◌,
  ==_iff, inl, inr, arith, Bool-cases,
}
use yamaha_cli.Cli.Power.{
  power_on_timeout, Poll, is_on, is_off, poll_failed, poll_canceled, Script, Outcome, turned_on,
  timed_out, canceled, State, is_over, Next, again, stop, tick_after, polled, by_poll, poll_once,
  ticked, wait_round, wait_loop, begin_wait, wait_for_power_on,
}

-- None of the first `n` polls found the zone on.
abbrev pub Missed : Script → ℕ → Type 0
Missed script n = (k : ℕ) → k < n → script.poll k ≢ is_on

-- What an outcome says: the last poll found the zone on, and no poll before; or none did, and the
-- time is up; or none did, and the wait was cancelled.
abbrev pub Tells : Script → ℕ → Outcome → State → Type 0
Tells script start turned_on s =
    (n : ℕ) × (s.polls ≡ suc n) × (script.poll n ≡ is_on) × Missed script n
Tells script start timed_out s = (start + power_on_timeout ≤ s.now) × Missed script s.polls
Tells script start canceled s = Missed script s.polls

module _ (script : Script) (start : ℕ) where
  -- The next tick is one of the ticker's, at most an interval away, and there was a tick for each poll.
  record OnTick (s : State) : Type 0 where
    pub begun : start ≤ s.now
    pub behind : start ≤ s.next_tick
    pub aligned : (s.next_tick - start) % 200 ≡ 0
    pub close : s.next_tick ≤ s.now + 200
    pub bounded : s.next_tick < start + power_on_timeout + 400
    pub one_each : s.polls * 200 ≤ s.next_tick - start
    pub missed : Missed script s.polls

  -- Enough rounds are left, or the wait is over.
  abbrev Ready : ℕ → Next → Type 0
  Ready fuel (again s) = OnTick s × (start + power_on_timeout + 400 ≤ s.next_tick + fuel * 200)
  Ready fuel (stop o s) = Tells script start o s × (s.polls ≤ 52)

  Missed-suc : (n : ℕ) → script.poll n ≢ is_on → Missed script n → Missed script (suc n)
  Missed-suc n h m k l = elim (Bool-cases (k == n)) [
    | inl e ↦ subst (λ j. script.poll j ≢ is_on) (sym ((==_iff k n).0 e)) h
    | inr e ↦ m k (ground arith)
  ]

  by_poll-Ready :
      (fuel : ℕ) (s : State) (p : Poll)
      → script.poll s.polls ≡ p
      → Missed script s.polls
      → (script.poll s.polls ≢ is_on
          → OnTick (polled script start s)
            × (start + power_on_timeout + 400 ≤ s.next_tick + fuel * 200))
      → s.polls < 52
      → Ready fuel (by_poll script start p (polled script start s))
  by_poll-Ready fuel s is_on e m next l = ((s.polls, refl, e, m), l)
  by_poll-Ready fuel s is_off e m next l = next (rw e (λ q. ground arith))
  by_poll-Ready fuel s poll_failed e m next l = next (rw e (λ q. ground arith))
  by_poll-Ready fuel s poll_canceled e m next l =
      (Missed-suc s.polls (rw e (λ q. ground arith)) m, l)

  tick_after-aligned :
      (t : ℕ)
      → (start ≤ tick_after script start t)
        × ((tick_after script start t - start) % 200 ≡ 0)
        × (tick_after script start t ≤ max start t + 200)
  unfolding tick_after
  tick_after-aligned t = (omega arith, omega arith, omega arith)

  tick_after-later :
      (n t : ℕ) → start ≤ n → (n - start) % 200 ≡ 0 → n ≤ t → n + 200 ≤ tick_after script start t
  unfolding tick_after
  tick_after-later n t le al h = omega arith

  -- The next poll is taken at the tick, with a tick less in front of the deadline.
  ticked-OnTick :
      (s : State)
      → OnTick s
      → s.now < start + power_on_timeout
      → script.poll s.polls ≢ is_on
      → OnTick (polled script start (ticked script start s))
        × (s.next_tick + 200 ≤ (ticked script start s).next_tick)
  unfolding ticked
  ticked-OnTick s h early n =
      let t = max s.now s.next_tick in
      let (lo, al, hi) = tick_after-aligned t in
      let later = tick_after-later s.next_tick t h.behind h.aligned (omega arith) in
      (
        record {
          begun = omega (arith, h.begun);
          behind = lo;
          aligned = al;
          close = omega (arith, h.begun, hi);
          bounded = omega (arith, h.begun, h.close, hi);
          one_each = omega (arith, h.one_each, h.behind, later);
          missed = Missed-suc s.polls n h.missed;
        },
        later,
      )

  round-Ready :
      (fuel : ℕ) (s : State)
      → OnTick s
      → start + power_on_timeout + 400 ≤ s.next_tick + suc fuel * 200
      → Ready fuel (wait_round script start s)
  unfolding wait_round ticked poll_once
  round-Ready fuel s h f = elim (Bool-cases (ltb s.now (start + power_on_timeout))) [
    | inr e ↦ rw (Ready, e) ((ground arith, h.missed), (omega arith))
    | inl e ↦ elim (Bool-cases (is_over script.cancel_at (max s.now s.next_tick))) [
      | inl c ↦ rw (Ready, e, c) (h.missed, (omega arith))
      | inr c ↦
          rw (Ready, e, c)
            (by_poll-Ready fuel (ticked script start s) (script.poll s.polls) refl h.missed
              (λ n.
                let (o, later) = ticked-OnTick s h (ground arith) n in (o, omega (arith, later, f)))
              (ground (arith, h.one_each, h.behind, h.close)))
    ]
  ]

  wait_loop-Ready :
      (fuel : ℕ) (x : Next)
      → Ready fuel x
      → (o : Outcome) × (s : State) × (wait_loop script start fuel x ≡ some (o, s))
        × Tells script start o s
        × (s.polls ≤ 52)
  unfolding wait_loop
  wait_loop-Ready fuel (stop o s) h = (o, s, refl, h.0, h.1)
  wait_loop-Ready zero (again s) (h, f) = absurd (omega (arith, h.bounded, f))
  wait_loop-Ready (suc fuel) (again s) (h, f) =
      wait_loop-Ready fuel (wait_round script start s) (round-Ready fuel s h f)

  -- The wait for a zone that was turned on ends, however long the polls take, after 52 polls at most.
  -- It reports that the zone is on exactly at the first poll that says so; it reports a timeout only
  -- when the time is up and no poll said so.
  pub wait_for_power_on-Tells :
      (o : Outcome) × (s : State) × (wait_for_power_on script start ≡ some (o, s))
      × Tells script start o s
      × (s.polls ≤ 52)
  unfolding wait_for_power_on poll_once
  wait_for_power_on-Tells = wait_loop-Ready 51 (poll_once script start (begin_wait script start)) (
      by_poll-Ready 51 (begin_wait script start) (script.poll 0) refl (λ k l. absurd (omega arith))
        (λ n. (
          record {
            begun = omega arith;
            behind = omega arith;
            aligned = omega arith;
            close = omega arith;
            bounded = omega arith;
            one_each = omega arith;
            missed = Missed-suc 0 n (λ k l. absurd (omega arith));
          },
          omega arith,
        ))
        (omega arith))
