-- ===== src/Yxc/Dist.antt =====
-- pkg/yxc/dist.go: the calls of a MusicCast Link group, as the parameters that they ask with.
use yamaha_cli.Prelude.{
  ℕ, suc, ◌||◌, not, List, [], ◌∷◌, ◌++◌, Option, ℤ, pos, negsuc, if◌then◌else◌,
}
use yamaha_cli.Text.{is_empty, Bytes, codes, equal, itoa, Table, insert}
use yamaha_cli.Yxc.Client.{do_request}
use yamaha_cli.Yxc.Errors.{invalid, Result, ok, err}
use yamaha_cli.Yxc.Zone.{Call, one, itoa_ℤ, valid_zone}

pub record ServerInfo : Type 0 where
  pub group_id : Bytes
  -- "add" or "remove"
  pub kind : Bytes
  pub zone : Bytes
  pub client_list : List Bytes

-- One parameter for each client, from number `i`.
unfoldable pub client_values : ℕ → List Bytes → Table → Result Table
unfolding itoa
client_values i [] t = ok t
client_values i ([] ∷ ips) t = err (invalid (codes "ClientList"))
client_values i ((c ∷ ip) ∷ ips) t =
    client_values (suc i) ips
      (t ++ (codes "client_list[" ++ itoa i ++ codes "].ip_address", c ∷ ip) ∷ [])

-- Behind the check of the zone.
abbrev pub with_zone : Table → List Bytes → Result Bytes → Result Table
unfolding client_values insert
with_zone t ips (err e) = err e
with_zone t ips (ok z) = client_values 0 ips (insert (codes "zone") z t)

unfoldable pub server_info_values : ServerInfo → Result Table
unfolding valid_zone client_values with_zone equal insert
server_info_values info =
    if is_empty info.group_id
    then err (invalid (codes "GroupID"))
    else if not (equal info.kind (codes "add") || equal info.kind (codes "remove"))
    then err (invalid (codes "type"))
    else let t = insert (codes "type") info.kind (one (codes "group_id") info.group_id) in
      if is_empty info.zone
      then client_values 0 info.client_list t
      else with_zone t info.client_list (valid_zone info.zone)

abbrev pub client_table : Bytes → Bytes → Result Bytes → Result Table
client_table group_id server_ip (err e) = err e
client_table group_id server_ip (ok z) =
    ok (
      (codes "group_id", group_id)
      ∷ (codes "zone", z)
      ∷ (codes "server_ip_address", server_ip)
      ∷ [])

unfoldable pub client_info_values : Bytes → Bytes → Bytes → Result Table
unfolding valid_zone
client_info_values group_id zone server_ip =
    if is_empty group_id
    then err (invalid (codes "groupID"))
    else if is_empty server_ip
    then err (invalid (codes "serverIP"))
    else client_table group_id server_ip (valid_zone zone)

unfoldable pub start_values : ℤ → Result Table
unfolding itoa_ℤ
start_values (pos n) = ok (one (codes "num") (itoa_ℤ (pos n)))
start_values (negsuc n) = err (invalid (codes "num"))

module _ (response_code : Bytes → Option ℤ) where
  -- A request with these parameters, if the arguments are good.
  unfoldable pub submit : Bytes → Result Table → Call
  unfolding do_request
  submit method (err e) c = (err e, c)
  submit method (ok params) c = do_request response_code method params c

  unfoldable pub get_distribution_info : Call
  unfolding submit
  get_distribution_info = submit (codes "dist/getDistributionInfo") (ok [])

  unfoldable pub set_server_info : ServerInfo → Call
  unfolding submit server_info_values
  set_server_info info = submit (codes "dist/setServerInfo") (server_info_values info)

  unfoldable pub set_client_info : Bytes → Bytes → Bytes → Call
  unfolding submit client_info_values
  set_client_info group_id zone server_ip =
      submit (codes "dist/setClientInfo") (client_info_values group_id zone server_ip)

  unfoldable pub start_distribution : ℤ → Call
  unfolding submit start_values
  start_distribution num = submit (codes "dist/startDistribution") (start_values num)

  unfoldable pub stop_distribution : Call
  unfolding submit
  stop_distribution = submit (codes "dist/stopDistribution") (ok [])
