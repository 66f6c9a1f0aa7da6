-- ===== src/Cli/Link.antt =====
-- internal/cli/link.go: a MusicCast Link group is created on several receivers, or not at all. The
-- receivers are a `Net`: what a call comes to may depend on all calls before it.
pub mod Atomic
use yamaha_cli.Prelude.{
  ℕ, Bool, true, false, ◌||◌, not, is_some, List, [], ◌∷◌, ◌++◌, Option, none, some, if◌then◌else◌,
  map, pos,
}
use yamaha_cli.Text.{Bytes, codes, equal, is_empty, trim_space, lookup}
use yamaha_cli.Config.Schema.{Device, Config}
use yamaha_cli.Yxc.Dist.{ServerInfo, server_info_values, client_info_values, start_values}
use yamaha_cli.Yxc.Errors.{Result, ok, err}

pub record Peer : Type 0 where
  pub alias : Bytes
  pub host : Bytes
  pub zone : Bytes

-- What `getDistributionInfo` tells.
pub record Info : Type 0 where
  pub group_id : Bytes
  pub role : Bytes

-- The calls on a receiver, by its address.
pub data Call : Type 0 where
  get_info : Bytes → Call
  set_server : Bytes → ServerInfo → Call
  -- the group, the zone and the server's address
  set_client : Bytes → Bytes → Bytes → Bytes → Call
  -- `dist/setClientInfo` with no server: the group and the zone
  reset_client : Bytes → Bytes → Bytes → Call
  start : Bytes → Call
  stop : Bytes → Call

pub record Done : Type 0 where
  pub call : Call
  pub confirmed : Bool

-- The calls so far, the last one first.
abbrev pub Log : Type 0
Log = List Done

pub record Net : Type 0 where
  pub confirms : Log → Call → Bool
  pub tells : Log → Bytes → Option Info
  -- `newGroupID`
  pub random_id : Option Bytes

pub data Failure : Type 0 where
  usage : Bytes → Failure
  call_failed : Bytes → Failure
  no_group_id : Failure

abbrev pub is_err {ℓ} : {A : Type ℓ} → Result A → Bool
is_err (ok a) = false
is_err (err e) = true

-- A call whose arguments are no good fails before the network.
unfoldable pub is_refused : Call → Bool
unfolding server_info_values client_info_values start_values
is_refused (set_server host info) = is_err (server_info_values info)
is_refused (set_client host group_id zone server_ip) =
    is_err (client_info_values group_id zone server_ip)
is_refused (start host) = is_err (start_values (pos 0))
is_refused _ = false

-- The check that no follower is in a group already.
unfoldable pub check_role : Peer → Option Info → Option Failure
unfolding equal
check_role f none = some (call_failed f.alias)
check_role f (some info) =
    if equal info.role (codes "server") || equal info.role (codes "client")
    then some (usage f.alias)
    else none

-- The first follower that does not pass ends the check.
abbrev pub or_stop : Option Failure → Log → Option Failure × Log → Option Failure × Log
or_stop (some e) log rest = (some e, log)
or_stop none log rest = rest

module _ (net : Net) where
  -- A call that changes a receiver.
  unfoldable pub perform : Call → Log → Bool × Log
  unfolding is_refused
  perform c log =
      if is_refused c
      then (false, log)
      else (net.confirms log c, record { call = c; confirmed = net.confirms log c } ∷ log)

  unfoldable pub check_followers : List Peer → Log → Option Failure × Log
  unfolding check_role
  check_followers [] log = (none, log)
  check_followers (f ∷ fs) log =
      let told = net.tells log f.host in
      let log' = record { call = get_info f.host; confirmed = is_some told } ∷ log in
      or_stop (check_role f told) log' (check_followers fs log')

  unfoldable pub reset_all : Bytes → List Peer → Log → Log
  unfolding perform
  reset_all group_id [] log = log
  reset_all group_id (f ∷ fs) log =
      reset_all group_id fs (perform (reset_client f.host group_id f.zone) log).1

  -- `rollbackPartial`
  unfoldable pub roll_back : Peer → Bytes → List Peer → Log → Log
  unfolding perform reset_all
  roll_back leader group_id fs log = reset_all group_id fs (perform (stop leader.host) log).1

  -- Each follower is told its server; those that confirmed it are kept for the rollback.
  unfoldable pub join_followers : Peer → Bytes → List Peer → List Peer → Log → Option Failure × Log
  unfolding perform roll_back
  join_followers leader group_id joined [] log = (none, log)
  join_followers leader group_id joined (f ∷ fs) log =
      let (joins, log') = perform (set_client f.host group_id f.zone leader.host) log in
      let rest = join_followers leader group_id (joined ++ f ∷ []) fs log' in
      if joins then rest else (some (call_failed f.alias), roll_back leader group_id joined log')

  abbrev pub started : Peer → Bytes → List Peer → Bool × Log → Option Failure × Log
  unfolding roll_back
  started leader group_id fs (true, log) = (none, log)
  started leader group_id fs (false, log) =
      (some (call_failed leader.alias), roll_back leader group_id fs log)

  abbrev pub after_join : Peer → Bytes → List Peer → Option Failure × Log → Option Failure × Log
  unfolding perform started
  after_join leader group_id fs (some e, log) = (some e, log)
  after_join leader group_id fs (none, log) =
      started leader group_id fs (perform (start leader.host) log)

  abbrev pub after_server : Peer → Bytes → List Peer → Bool × Log → Option Failure × Log
  unfolding roll_back join_followers after_join
  after_server leader group_id fs (false, log) =
      (some (call_failed leader.alias), roll_back leader group_id [] log)
  after_server leader group_id fs (true, log) =
      after_join leader group_id fs (join_followers leader group_id [] fs log)

  unfoldable pub form_group : Peer → List Peer → Option Bytes → Log → Option Failure × Log
  unfolding perform after_server
  form_group leader fs none log = (some no_group_id, log)
  form_group leader fs (some group_id) log = after_server leader group_id fs (
      perform
        (set_server leader.host (record {
          group_id = group_id;
          kind = codes "add";
          zone = leader.zone;
          client_list = map (λ (f : Peer). f.host) fs;
        }))
        log)

  abbrev pub after_check : Peer → List Peer → Option Failure × Log → Option Failure × Log
  unfolding form_group
  after_check leader fs (some e, log) = (some e, log)
  after_check leader fs (none, log) = form_group leader fs net.random_id log

  -- `link create`, for the peers of the arguments
  unfoldable pub link_create : Peer → List Peer → Log → Option Failure × Log
  unfolding check_followers after_check
  link_create leader fs log = after_check leader fs (check_followers fs log)

  unfoldable pub dissolve_group : Peer → Option Info → Log → Option Failure × Log
  unfolding perform equal
  dissolve_group leader none log = (some (call_failed leader.alias), log)
  dissolve_group leader (some info) log =
      let (removed, log') =
        perform
          (set_server leader.host (record {
            group_id = info.group_id;
            kind = codes "remove";
            zone = leader.zone;
            client_list = [];
          }))
          log in
      let (stopped, log'') = perform (stop leader.host) log' in
      if is_empty info.group_id
      then (some (usage leader.alias), log)
      else if not (equal info.role (codes "server"))
      then (some (usage leader.alias), log)
      else if not removed
      then (some (call_failed leader.alias), log')
      else (if stopped then none else some (call_failed leader.alias), log'')

  -- `link dissolve`, for the leader of the arguments
  unfoldable pub link_dissolve : Peer → Log → Option Failure × Log
  unfolding dissolve_group
  link_dissolve leader log =
      let told = net.tells log leader.host in
      dissolve_group leader told
        (record { call = get_info leader.host; confirmed = is_some told } ∷ log)

-- The zone of a device, or "main".
abbrev pub zone_or_main : Bytes → Bytes
zone_or_main [] = codes "main"
zone_or_main (c ∷ s) = c ∷ s

abbrev pub peer_of : Bytes → Option Device → Option Peer
unfolding trim_space
peer_of alias none = none
peer_of alias (some d) =
    some (record { alias = alias; host = d.host; zone = zone_or_main (trim_space d.default_zone) })

-- `buildLinkPeer`; `none` is a usage error.
unfoldable pub build_link_peer : Config → Bytes → Option Peer
unfolding lookup peer_of
build_link_peer cfg alias = peer_of alias (lookup alias cfg.devices)

abbrev pub with_peer : Option Peer → Option (List Peer) → Option (List Peer)
with_peer (some p) (some ps) = some (p ∷ ps)
with_peer _ _ = none

-- The followers; none of them may be the leader.
unfoldable pub link_followers : Config → Bytes → List Bytes → Option (List Peer)
unfolding build_link_peer equal
link_followers cfg leader [] = some []
link_followers cfg leader (alias ∷ aliases) =
    let rest = with_peer (build_link_peer cfg alias) (link_followers cfg leader aliases) in
    if equal alias leader then none else rest
