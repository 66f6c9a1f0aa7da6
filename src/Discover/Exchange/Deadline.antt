-- ===== src/Discover/Exchange/Deadline.antt =====
-- An SSDP search ends, and it ends in time.
use yamaha_cli.Prelude.{
  ℕ, zero, suc, ◌+◌, ◌-◌, ◌*◌, ◌≤◌, ◌<◌, ◌≡◌, refl, Bool, false, Option, some, if◌then◌else◌, inl,
  inr, arith, Bool-cases, length,
}
use yamaha_cli.Text.{Bytes}
use yamaha_cli.Discover.Exchange.Reading.{IsRead, read_from-IsRead}
use yamaha_cli.Discover.Exchange.{
  datagram, read_error, Net, Ending, State, is_done_at, wakes_at, Read, got, timed_out, Next, again,
  stop, search_sends, deadline, is_time_to_send, read_until, after_read, send_request,
  receive_reply, exchange_round, exchange_loop, begin_exchange, m_search_exchange,
}

module _ (net : Net) (start wait : ℕ) (on_reply : Bytes → Bytes → Bool) where
  -- The rounds that are left, at most.
  abbrev pub rounds_left : State → ℕ
  rounds_left s =
      2 * (search_sends - s.tried)
      + length s.coming
      + (if is_time_to_send net start wait on_reply s then 0 else 1)

  module _ (Inv : State → Type 0) (End : Ending → State → Type 0) where
    -- A round keeps the invariant and comes nearer to the end, or it ends.
    abbrev pub Closer : ℕ → Next → Type 0
    Closer left (again s) = Inv s × (rounds_left s < left)
    Closer left (stop e s) = End e s

    -- The loop ends if each round comes nearer to the end.
    pub exchange_loop_ends :
        ((s : State) → Inv s → Closer (rounds_left s) (exchange_round net start wait on_reply s))
        → (fuel : ℕ) (s : State) → rounds_left s < fuel
        → Inv s
        → (e : Ending) × (s' : State) × (exchange_loop net start wait on_reply fuel s
            ≡ some (e, s'))
          × End e s'
    unfolding exchange_loop
    exchange_loop_ends closer zero s m h = absurd (omega arith)
    exchange_loop_ends closer (suc fuel) s m h =
        next_round (exchange_round net start wait on_reply s) refl (closer s h)
          λ s' i d. exchange_loop_ends closer fuel s' (omega arith) i
      where
        Ends : Option (Ending × State) → Type 0
        Ends o = (e : Ending) × (s' : State) × (o ≡ some (e, s')) × End e s'

        next_round :
            (n : Next)
            → exchange_round net start wait on_reply s ≡ n
            → Closer (rounds_left s) n
            → ((s' : State)
                → Inv s'
                → rounds_left s' < rounds_left s
                → Ends (exchange_loop net start wait on_reply fuel s'))
            → Ends (exchange_loop net start wait on_reply (suc fuel) s)
        next_round (again s') r (i, d) rest = rw (exchange_loop, r) (rest s' i d)
        next_round (stop e s') r p rest = rw (exchange_loop, r) (e, s', refl, p)

  -- Three requests at most were tried, the ones that are out among them, and the wait is over since a
  -- read's lag at most.
  abbrev pub Tried : State → Type 0
  Tried s =
      (s.now ≤ deadline net start wait on_reply + net.lag)
      × (s.tried ≤ search_sends)
      × (length s.sends ≤ s.tried)

  -- Three requests at most are out, and the wait is over since a read's lag at most.
  abbrev pub InTime : State → Type 0
  InTime s = (s.now ≤ deadline net start wait on_reply + net.lag) × (length s.sends ≤ search_sends)

  after_read-Tried :
      (left : ℕ) (s : State) (x : Read × State)
      → Tried s
      → is_time_to_send net start wait on_reply s ≡ false
      → rounds_left s ≡ left
      → IsRead net.lag (wakes_at net.cancel_at (read_until net start wait on_reply s)) s x
      → Closer Tried (λ _. Tried) left (after_read net start wait on_reply x)
  unfolding after_read read_until
  after_read-Tried left s (got (datagram from reply), s') h e l r = ground arith
  after_read-Tried left s (got read_error, s') h e l r = ground arith
  after_read-Tried left s (timed_out, s') h e l r = ground arith

  receive_reply-Tried :
      (left : ℕ) (s : State)
      → Tried s
      → is_time_to_send net start wait on_reply s ≡ false
      → rounds_left s ≡ left
      → Closer Tried (λ _. Tried) left (receive_reply net start wait on_reply s)
  unfolding receive_reply
  receive_reply-Tried left s h e l = elim (Bool-cases (net.deadline_fails s.now)) [
    | inl f ↦ rw f h
    | inr f ↦ rw f (elim (Bool-cases (is_done_at net.cancel_at s.now)) [
      | inl d ↦ rw d h
      | inr d ↦
          rw d (after_read-Tried left s _ h e l (read_from-IsRead net start wait on_reply _ s))
    ])
  ]

  exchange_round-Tried :
      (s : State)
      → Tried s
      → Closer Tried (λ _. Tried) (rounds_left s) (exchange_round net start wait on_reply s)
  unfolding exchange_round send_request
  exchange_round-Tried s h = elim (Bool-cases (is_time_to_send net start wait on_reply s)) [
    | inl e ↦ rw e (ground arith)
    | inr e ↦ rw e (receive_reply-Tried _ s h e (rw e refl))
  ]

  -- An SSDP search ends at the end of its wait, or earlier, whatever arrives: not later than a read's
  -- lag after it. Up to then it sends three requests at most.
  pub m_search_exchange-InTime :
      (e : Ending) × (s : State) × (m_search_exchange net start wait on_reply ≡ some (e, s))
      × InTime s
  unfolding m_search_exchange
  m_search_exchange-InTime =
      let (e, s, ran, (late, few, some_out)) =
        exchange_loop_ends Tried (λ _. Tried) exchange_round-Tried
          (2 * search_sends + length net.arrivals + 1) (begin_exchange net start wait on_reply)
          (ground arith) (omega arith, omega arith, omega arith) in
      (e, s, ran, (late, omega arith))
