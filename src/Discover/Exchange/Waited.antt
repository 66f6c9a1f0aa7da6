-- ===== src/Discover/Exchange/Waited.antt =====
-- What an SSDP search that nothing disturbs does in its wait.
use yamaha_cli.Prelude.{
  ℕ, zero, suc, ◌+◌, ◌*◌, ◌≤◌, ◌<◌, ◌≡◌, refl, sym, ap, ◌∙◌, Bool, true, false, List, [], ◌∷◌, none,
  some, if◌then◌else◌, inl, inr, arith, ltb, lt→ltb, subst, Bool-cases, length, All,
}
use yamaha_cli.Text.{Bytes}
use yamaha_cli.Discover.Exchange.Reading.{IsLate, IsRead, read_from-IsRead}
use yamaha_cli.Discover.Exchange.Deadline.{rounds_left, Closer, exchange_loop_ends}
use yamaha_cli.Discover.Exchange.{
  Arrival, datagram, read_error, Timed, Net, Ending, elapsed, State, is_done_at, wakes_at, Read,
  got, timed_out, second, search_sends, next_send, resend_interval, is_time_to_send, read_until,
  read_from, after_read, send_request, receive_reply, exchange_round, begin_exchange,
  m_search_exchange,
}

abbrev pub IsDatagram : Arrival → Type 0
IsDatagram (datagram from reply) = Unit
IsDatagram read_error = ⊥

-- The datagrams that come before `t`, up to the first arrival that comes later.
abbrev pub before : ℕ → List Timed → List Arrival
before t [] = []
before t (a ∷ more) = if ltb a.at t then a.arrival ∷ before t more else []

-- The replies that were handed over, the last one first, in front of `more`.
abbrev pub in_turn : List (Bytes × Bytes) → List Arrival → List Arrival
in_turn [] more = more
in_turn ((from, reply) ∷ handed) more = in_turn handed (datagram from reply ∷ more)

-- Nothing cuts the search short, and no write fails.
pub record Undisturbed (net : Net) (on_reply : Bytes → Bytes → Bool) : Type 0 where
  pub never_done : net.cancel_at ≡ none
  pub datagrams : All (λ (a : Timed). IsDatagram a.arrival) net.arrivals
  pub all_sent : (k : ℕ) → net.write_fails k ≡ false
  pub deadlines_set : (t : ℕ) → net.deadline_fails t ≡ false
  pub never_enough : (from reply : Bytes) → on_reply from reply ≡ false
  pub lag_below : net.lag < second

before_late : (t : ℕ) (coming : List Timed) → IsLate t coming → before t coming ≡ []
before_late t [] h = refl
before_late t (a ∷ coming) h = ground arith

before_early :
    (d t : ℕ) (a : Arrival) (coming : List Timed)
    → t < d
    → before d (record { at = t; arrival = a } ∷ coming) ≡ a ∷ before d coming
before_early d t a coming h = rw (lt→ltb t d h) refl

module _ (net : Net) (start wait : ℕ) (on_reply : Bytes → Bytes → Bool) where
  -- Each request leaves at its time or a lag later, the first one at the start.
  abbrev pub Spread : List ℕ → Type 0
  Spread [] = Unit
  Spread (t ∷ ts) =
      (next_send net start wait on_reply (length ts) ≤ t)
      × (t ≤ next_send net start wait on_reply (length ts) + net.lag)
      × Spread ts

  pub record OnCourse (s : State) : Type 0 where
    pub early : s.now < start + wait
    pub tried_out : s.tried ≡ length s.sends
    pub few : length s.sends ≤ search_sends
    pub due :
        length s.sends < search_sends
        → s.now ≤ next_send net start wait on_reply (length s.sends) + net.lag
    pub spread : Spread s.sends
    pub in_order :
        in_turn s.handed (before (start + wait) s.coming) ≡ before (start + wait) net.arrivals
    pub datagrams : All (λ (a : Timed). IsDatagram a.arrival) s.coming

  pub record Waited (e : Ending) (s : State) : Type 0 where
    pub ending : e ≡ elapsed
    pub waited : start + wait ≤ s.now
    pub all_sent : length s.sends ≡ search_sends
    pub spread : Spread s.sends
    pub all_handed : in_turn s.handed [] ≡ before (start + wait) net.arrivals

  module _ (long : second ≤ wait) (calm : Undisturbed net on_reply) where
    next_send_in_time :
        (k : ℕ) → k < search_sends → next_send net start wait on_reply k + second ≤ start + wait
    unfolding resend_interval
    next_send_in_time zero h = omega arith
    next_send_in_time (suc zero) h = omega arith
    next_send_in_time (suc (suc zero)) h = omega arith
    next_send_in_time (suc (suc (suc k))) h = absurd (omega arith)

    never_done : (t : ℕ) → is_done_at net.cancel_at t ≡ false
    never_done t = rw calm.never_done refl

    wakes : (until : ℕ) → wakes_at net.cancel_at until ≡ until
    wakes until = rw calm.never_done refl

    after_read-OnCourse :
        (left : ℕ) (s : State) (x : Read × State)
        → OnCourse s
        → is_time_to_send net start wait on_reply s ≡ false
        → rounds_left net start wait on_reply s ≡ left
        → IsRead net.lag (read_until net start wait on_reply s) s x
        → Closer net start wait on_reply OnCourse Waited left (after_read net start wait on_reply x)
    unfolding after_read read_until
    after_read-OnCourse left s (got (datagram from reply), s') h e l
          (early, later, count, same, old, t, b, c) =
        rw (calm.never_enough from reply) (
          record {
            early = ground arith;
            tried_out = let u = h.tried_out in rw (count, same) u;
            few = ground arith;
            due = ground arith;
            spread = rw same h.spread;
            in_order = rw old (
                ap (in_turn s.handed)
                  (sym (before_early (start + wait) t _ s'.coming (ground arith)))
                ∙ subst
                    (λ coming.
                      in_turn s.handed (before (start + wait) coming)
                      ≡ before (start + wait) net.arrivals)
                    c h.in_order);
            datagrams = (subst (All (λ (a : Timed). IsDatagram a.arrival)) c h.datagrams).1;
          },
          ground arith,
        )
    after_read-OnCourse left s (got read_error, s') h e l
          (early, later, count, same, old, t, b, c) =
        let (d, _) = subst (All (λ (a : Timed). IsDatagram a.arrival)) c h.datagrams in absurd d
    after_read-OnCourse left s (timed_out, s') h e l (over, later, count, same, old, rest, late) =
        rw (never_done s'.now) (elim (Bool-cases (ltb s'.now (start + wait))) [
          | inl b ↦ rw b (
            record {
              early = ground arith;
              tried_out = let u = h.tried_out in rw (count, same) u;
              few = ground arith;
              due = let d = h.due in ground arith;
              spread = rw same h.spread;
              in_order = rw (old, rest) h.in_order;
              datagrams = rw rest h.datagrams;
            },
            ground arith,
          )
          | inr b ↦ rw b (
              let full : length s.sends ≡ search_sends =
                let k = next_send_in_time (length s.sends) in
                let d = h.due in let l = calm.lag_below in ground arith in
              let until : read_until net start wait on_reply s ≡ start + wait = ground arith in
              record {
                ending = refl;
                waited = ground arith;
                all_sent = rw same full;
                spread = rw same h.spread;
                all_handed = rw old (
                    ap (in_turn s.handed) (
                      sym (
                        before_late (start + wait) s.coming
                          (subst (λ t. IsLate t s.coming) until (late (rw until h.early)))))
                    ∙ h.in_order);
              })
        ])

    send_request-OnCourse :
        (left : ℕ) (s : State)
        → OnCourse s
        → is_time_to_send net start wait on_reply s ≡ true
        → rounds_left net start wait on_reply s ≡ left
        → Closer net start wait on_reply OnCourse Waited left
            (send_request net start wait on_reply s)
    unfolding send_request
    send_request-OnCourse left s h e l = rw (calm.all_sent s.tried) (
      record {
        early = h.early;
        tried_out = let u = h.tried_out in ground arith;
        few = ground arith;
        due = let d = h.due in ground arith;
        spread = (ground arith, let d = h.due in ground arith, h.spread);
        in_order = h.in_order;
        datagrams = h.datagrams;
      },
      ground arith,
    )

    receive_reply-OnCourse :
        (left : ℕ) (s : State)
        → OnCourse s
        → is_time_to_send net start wait on_reply s ≡ false
        → rounds_left net start wait on_reply s ≡ left
        → Closer net start wait on_reply OnCourse Waited left
            (receive_reply net start wait on_reply s)
    unfolding receive_reply
    receive_reply-OnCourse left s h e l =
        let until = wakes_at net.cancel_at (read_until net start wait on_reply s) in
        let x = read_from net start wait on_reply until s s.coming in
        rw (calm.deadlines_set s.now, never_done s.now)
          (after_read-OnCourse left s x h e l (
            subst (λ t. IsRead net.lag t s x) (wakes (read_until net start wait on_reply s))
              (read_from-IsRead net start wait on_reply until s)))

    exchange_round-OnCourse :
        (s : State)
        → OnCourse s
        → Closer net start wait on_reply OnCourse Waited
            (rounds_left net start wait on_reply s)
            (exchange_round net start wait on_reply s)
    unfolding exchange_round
    exchange_round-OnCourse s h = elim (Bool-cases (is_time_to_send net start wait on_reply s)) [
      | inl e ↦ rw e (send_request-OnCourse _ s h e (rw e refl))
      | inr e ↦ rw e (receive_reply-OnCourse _ s h e (rw e refl))
    ]

    -- An SSDP search of a second or more that nothing disturbs (the context is never done, no write,
    -- no read and no call of `SetReadDeadline` fails, no reply is enough, a read ends less than a
    -- second late) ends at the end of its wait. It has sent three requests, each at its time, and has handed over,
    -- in their order, the datagrams that came before the end.
    pub m_search_exchange-Waited :
        (e : Ending) × (s : State) × (m_search_exchange net start wait on_reply ≡ some (e, s))
        × Waited e s
    unfolding m_search_exchange
    m_search_exchange-Waited =
        exchange_loop_ends net start wait on_reply OnCourse Waited exchange_round-OnCourse
          (2 * search_sends + length net.arrivals + 1) (begin_exchange net start wait on_reply)
          (ground arith)
          (record {
            early = ground arith;
            tried_out = refl;
            few = omega arith;
            due = λ _. omega arith;
            spread = tt;
            in_order = refl;
            datagrams = calm.datagrams;
          })
