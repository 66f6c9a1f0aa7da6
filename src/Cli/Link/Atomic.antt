-- ===== src/Cli/Link/Atomic.antt =====
-- A group is created on all followers or on none.
use yamaha_cli.Prelude.{
  ◌≡◌, refl, ◌∙◌, ◌⊎◌, inl, inr, Bool, true, false, ◌||◌, List, [], ◌∷◌, ◌++◌, Option, none, some,
  if◌then◌else◌, arith, Bool-cases, map,
}
use yamaha_cli.Text.{Bytes, codes, equal}
use yamaha_cli.Cli.Link.{
  Peer, Call, get_info, set_server, set_client, reset_client, start, stop, Log, Net, Failure,
  is_refused, perform, check_role, or_stop, check_followers, reset_all, roll_back, join_followers,
  started, after_join, after_server, form_group, after_check, link_create,
}

-- What a confirmed call leaves of the server that the receiver at `host` follows.
abbrev pub follows_after : Call → Bytes → Option Bytes → Option Bytes
unfolding equal
follows_after (set_client h group_id zone server_ip) host before =
    if equal h host then some server_ip else before
follows_after (reset_client h group_id zone) host before = if equal h host then none else before
follows_after _ host before = before

-- The server that the receiver at `host` follows, by the calls that were confirmed.
unfoldable pub server_of : Bytes → Log → Option Bytes
unfolding follows_after
server_of host [] = none
server_of host (d ∷ log) =
    if d.confirmed then follows_after d.call host (server_of host log) else server_of host log

-- The receiver is one of the peers.
abbrev pub among : Bytes → List Peer → Bool
unfolding equal
among host [] = false
among host (f ∷ fs) = equal f.host host || among host fs

-- The call leaves every receiver with the server that it follows.
abbrev IsNeutral : Call → Type 0
IsNeutral (set_client h group_id zone server_ip) = ⊥
IsNeutral (reset_client h group_id zone) = ⊥
IsNeutral _ = Unit

neutral :
    (c : Call) (host : Bytes) (before : Option Bytes)
    → IsNeutral c
    → follows_after c host before ≡ before
unfolding follows_after
neutral (get_info h) host before n = refl
neutral (set_server h info) host before n = refl
neutral (set_client h group_id zone server_ip) host before n = absurd n
neutral (reset_client h group_id zone) host before n = absurd n
neutral (start h) host before n = refl
neutral (stop h) host before n = refl

among-append :
    (host : Bytes) (fs : List Peer) (f : Peer)
    → among host (fs ++ f ∷ []) ≡ (among host fs || equal f.host host)
unfolding among
among-append host [] f = ground arith
among-append host (g ∷ fs) f = ground (arith, among-append host fs f)

module _ (net : Net) (host : Bytes) where
  server_of-neutral :
      (c : Call) (log : Log)
      → IsNeutral c
      → server_of host (perform net c log).1 ≡ server_of host log
  unfolding perform server_of
  server_of-neutral c log n = ground (arith, neutral c host (server_of host log) n)

  -- A receiver takes the server of a call that it confirms.
  server_of-set_client :
      (h group_id zone server_ip : Bytes) (log : Log)
      → server_of host (perform net (set_client h group_id zone server_ip) log).1 ≡ (
          if (perform net (set_client h group_id zone server_ip) log).0
          then if equal h host then some server_ip else server_of host log
          else server_of host log)
  unfolding perform server_of follows_after
  server_of-set_client h group_id zone server_ip log = ground arith

  module _
      (undoes : (log : Log) (h group_id zone : Bytes)
        → net.confirms log (reset_client h group_id zone) ≡ true) where
    server_of-reset_all :
        (group_id : Bytes) (fs : List Peer) (log : Log)
        → server_of host (reset_all net group_id fs log)
          ≡ (if among host fs then none else server_of host log)
    unfolding reset_all perform server_of follows_after is_refused among
    server_of-reset_all group_id [] log = refl
    server_of-reset_all group_id (f ∷ fs) log =
        server_of-reset_all group_id fs _ ∙ rw (undoes log f.host group_id f.zone) (ground arith)

    server_of-roll_back :
        (leader : Peer) (group_id : Bytes) (fs : List Peer) (log : Log)
        → (server_of host log ≡ none) ⊎ (among host fs ≡ true)
        → server_of host (roll_back net leader group_id fs log) ≡ none
    unfolding roll_back
    server_of-roll_back leader group_id fs log h =
        server_of-reset_all group_id fs (perform net (stop leader.host) log).1
        ∙ ground (arith, server_of-neutral (stop leader.host) log tt)

    -- What a step leaves of the receiver: it follows the leader if it is one of the followers and the
    -- step succeeds; it follows none if the step fails.
    abbrev Leaves : Peer → List Peer → Log → Option Failure × Log → Type 0
    Leaves leader fs log (none, log') =
        server_of host log' ≡ (if among host fs then some leader.host else server_of host log)
    Leaves leader fs log (some e, log') = server_of host log' ≡ none

    Leaves-more :
        (leader f : Peer) (fs : List Peer) (log log' : Log) (r : Option Failure × Log)
        → server_of host log' ≡ (if equal f.host host then some leader.host else server_of host log)
        → Leaves leader fs log' r
        → Leaves leader (f ∷ fs) log r
    unfolding among
    Leaves-more leader f fs log log' (none, log'') e h = ground arith
    Leaves-more leader f fs log log' (some x, log'') e h = h

    join_followers-Leaves :
        (leader : Peer) (group_id : Bytes) (joined fs : List Peer) (log : Log)
        → (server_of host log ≡ none) ⊎ (among host joined ≡ true)
        → Leaves leader fs log (join_followers net leader group_id joined fs log)
    unfolding join_followers among
    join_followers-Leaves leader group_id joined [] log h = refl
    join_followers-Leaves leader group_id joined (f ∷ fs) log h =
        let x = perform net (set_client f.host group_id f.zone leader.host) log in
        let s = server_of-set_client f.host group_id f.zone leader.host log in
        elim (Bool-cases x.0) [
          | inl e ↦
              let s' : server_of host x.1
                  ≡ (if equal f.host host then some leader.host else server_of host log) =
                ground (arith, s, e) in
              rw (Leaves, e)
                (Leaves-more leader f fs log x.1
                  (join_followers net leader group_id (joined ++ f ∷ []) fs x.1) s'
                  (join_followers-Leaves leader group_id (joined ++ f ∷ []) fs x.1
                    (ground (arith, s', among-append host joined f))))
          | inr e ↦ rw (Leaves, e) (server_of-roll_back leader group_id joined x.1 (ground arith))
        ]

    started-Leaves :
        (leader : Peer) (group_id : Bytes) (fs : List Peer) (log : Log) (x : Bool × Log)
        → server_of host log ≡ none
        → server_of host x.1 ≡ (if among host fs then some leader.host else server_of host log)
        → Leaves leader fs log (started net leader group_id fs x)
    unfolding started
    started-Leaves leader group_id fs log (true, log') n h = h
    started-Leaves leader group_id fs log (false, log') n h =
        server_of-roll_back leader group_id fs log' (ground arith)

    after_join-Leaves :
        (leader : Peer) (group_id : Bytes) (fs : List Peer) (log : Log) (r : Option Failure × Log)
        → server_of host log ≡ none
        → Leaves leader fs log r
        → Leaves leader fs log (after_join net leader group_id fs r)
    unfolding after_join
    after_join-Leaves leader group_id fs log (some e, log') n h = h
    after_join-Leaves leader group_id fs log (none, log') n h =
        started-Leaves leader group_id fs log (perform net (start leader.host) log') n
          (server_of-neutral (start leader.host) log' tt ∙ h)

    after_server-Leaves :
        (leader : Peer) (group_id : Bytes) (fs : List Peer) (x : Bool × Log)
        → server_of host x.1 ≡ none
        → Leaves leader fs x.1 (after_server net leader group_id fs x)
    unfolding after_server
    after_server-Leaves leader group_id fs (false, log) n =
        server_of-roll_back leader group_id [] log (inl n)
    after_server-Leaves leader group_id fs (true, log) n =
        after_join-Leaves leader group_id fs log (join_followers net leader group_id [] fs log) n
          (join_followers-Leaves leader group_id [] fs log (inl n))

    -- What the outcome leaves of a receiver that followed none.
    abbrev pub Settles : Peer → List Peer → Option Failure × Log → Type 0
    Settles leader fs (none, log) =
        server_of host log ≡ (if among host fs then some leader.host else none)
    Settles leader fs (some e, log) = server_of host log ≡ none

    Leaves-Settles :
        (leader : Peer) (fs : List Peer) (log : Log) (r : Option Failure × Log)
        → server_of host log ≡ none
        → Leaves leader fs log r
        → Settles leader fs r
    Leaves-Settles leader fs log (none, log') n h = h ∙ rw n refl
    Leaves-Settles leader fs log (some e, log') n h = h

    form_group-Settles :
        (leader : Peer) (fs : List Peer) (id : Option Bytes) (log : Log)
        → server_of host log ≡ none
        → Settles leader fs (form_group net leader fs id log)
    unfolding form_group
    form_group-Settles leader fs none log n = n
    form_group-Settles leader fs (some group_id) log n =
        let c = set_server leader.host (record {
          group_id = group_id;
          kind = codes "add";
          zone = leader.zone;
          client_list = map (λ (f : Peer). f.host) fs;
        }) in
        let x = perform net c log in
        let n' = server_of-neutral c log tt ∙ n in
        Leaves-Settles leader fs x.1 (after_server net leader group_id fs x) n'
          (after_server-Leaves leader group_id fs x n')

    or_stop-keeps :
        (o : Option Failure) (log log' : Log) (rest : Option Failure × Log)
        → server_of host log' ≡ server_of host log
        → server_of host rest.1 ≡ server_of host log'
        → server_of host (or_stop o log' rest).1 ≡ server_of host log
    or_stop-keeps (some e) log log' rest h k = h
    or_stop-keeps none log log' rest h k = k ∙ h

    check_followers-keeps :
        (fs : List Peer) (log : Log)
        → server_of host (check_followers net fs log).1 ≡ server_of host log
    unfolding check_followers server_of follows_after
    check_followers-keeps [] log = refl
    check_followers-keeps (f ∷ fs) log =
        or_stop-keeps (check_role f (net.tells log f.host)) log _ (check_followers net fs _)
          (ground arith) (check_followers-keeps fs _)

    after_check-Settles :
        (leader : Peer) (fs : List Peer) (r : Option Failure × Log)
        → server_of host r.1 ≡ none
        → Settles leader fs (after_check net leader fs r)
    unfolding after_check
    after_check-Settles leader fs (some e, log) n = n
    after_check-Settles leader fs (none, log) n = form_group-Settles leader fs net.random_id log n

    -- Whatever the receivers answer, if each confirms the call that resets it, a group is created on
    -- all followers or on none: after a success each of them, and no other receiver, follows the
    -- leader, and after a failure no receiver follows a server, by the calls that were confirmed.
    pub link_create-Settles :
        (leader : Peer) (fs : List Peer) → Settles leader fs (link_create net leader fs [])
    unfolding link_create server_of
    link_create-Settles leader fs =
        after_check-Settles leader fs (check_followers net fs []) (check_followers-keeps fs [])
