-- ===== src/Client/Portals.antt =====
-- Data portals and addresses of pkg/client/hsclient.go: dataPortals, upDataPortals, GetDataPortals,
-- clusterState, NFSServerAddresses and GetPortalFloatingIp.
use csi_plugin.Base.{
  ℕ, String, ◌==◌, Bool, ◌&&◌, Option, none, some, List, [], ◌∷◌, ◌++◌, map, if◌then◌else◌,
}
use csi_plugin.Base.Dict.{lookup, insert}
use csi_plugin.Cache.{get, set_cache_data}
use csi_plugin.Client.{
  Http, Request, PortalResponse, Cluster, checked_exports, expect, nanoseconds, pure, raise, lift,
  on_option, ◌>>=◌, ◌>>◌,
}
use csi_plugin.Grpc.{Result, ok, err, plain}
use csi_plugin.Rotation.{get_round_robin_ordered_list}

-- The two lists that GetDataPortals appends to, for the portals that are left.
unfoldable pub sort_portals :
    String → List PortalResponse → List PortalResponse → List PortalResponse → List PortalResponse
sort_portals node_id [] colocated others = colocated ++ others
sort_portals node_id (p ∷ portals) colocated others =
    let here = sort_portals node_id portals (colocated ++ p ∷ []) others in
    let there = sort_portals node_id portals colocated (others ++ p ∷ []) in
    if p.node_name == node_id then here else there

unfoldable pub is_up : PortalResponse → Bool
is_up p = (p.oper_state == "UP") && ((p.admin_state == "UP") && (p.portal_type == "NFS_V3"))

unfoldable pub only_up : List PortalResponse → List PortalResponse
only_up [] = []
only_up (p ∷ portals) = let rest = only_up portals in if is_up p then p ∷ rest else rest

abbrev address_of : PortalResponse → String
address_of p = p.address

abbrev index_or_zero : Option ℕ → ℕ
index_or_zero none = 0
index_or_zero (some n) = n

module _ (h : Http) where
  unfoldable pub fetch_portals : Request (List PortalResponse)
  fetch_portals = do
    r ← expect h 200 "GET" "/data-portals/"
    portals ← lift (h.parse_portals r.body)
    (λ c. (
      ok tt,
      record c { portals = set_cache_data c.portals "DATA_PORTALS" portals 30 (nanoseconds h c) },
    ))
    pure portals

  unfoldable pub data_portals : Request (List PortalResponse)
  data_portals = do
    found ← λ c.
        let (found, cache) = get c.portals "DATA_PORTALS" (nanoseconds h c) in
        (ok found, record c { portals = cache })
    on_option found fetch_portals pure

  unfoldable pub get_data_portals : String → Request (List PortalResponse)
  get_data_portals node_id = do
    portals ← data_portals
    pure (sort_portals node_id (only_up portals) [] [])

  unfoldable pub fetch_cluster : Request Cluster
  fetch_cluster = do
    r ← expect h 200 "GET" "/cntl/state"
    cluster ← lift (h.parse_cluster r.body)
    (λ c. (
      ok tt,
      record c { cluster = set_cache_data c.cluster "CLUSTER_STATE" cluster 30 (nanoseconds h c) },
    ))
    pure cluster

  unfoldable pub cluster_state : Request Cluster
  cluster_state = do
    found ← λ c.
        let (found, cache) = get c.cluster "CLUSTER_STATE" (nanoseconds h c) in
        (ok found, record c { cluster = cache })
    on_option found fetch_cluster pure

  unfoldable pub nfs_server_addresses : Request (List String)
  nfs_server_addresses = do
    portals ← data_portals
    cluster ← cluster_state
    pure (map address_of portals ++ cluster.floating_ips ++ cluster.mgmt_ips)

  -- The first address whose exports can be seen.
  unfoldable pub first_serving : List String → Request String
  first_serving [] = raise (plain "no valid floating IPs found")
  first_serving (fip ∷ addresses) = do
    serves ← λ c. (
      ok (h.check_nfs_exports c.exchanges fip),
      record c { exchanges = checked_exports fip ∷ c.exchanges },
    )
    if serves then pure fip else first_serving addresses

  -- The addresses in turn, from the index of the cluster on; `none` would be a panic.
  abbrev or_panic : Option (List String) → Result (List String)
  or_panic none = err (plain "index out of range")
  or_panic (some ordered) = ok ordered

  unfoldable pub next_order : String → List String → Request (List String)
  next_order key addresses c =
      let (index, ordered) =
        get_round_robin_ordered_list (index_or_zero (lookup key c.fip_indices)) addresses in
      (or_panic ordered, record c { fip_indices = insert key index c.fip_indices })

  unfoldable pub cluster_key : Cluster → Request String
  cluster_key cluster c =
      (ok (if cluster.name == "" then h.new_uuid c.exchanges else cluster.name), c)

  unfoldable pub floating_of : List String → Cluster → Request String
  floating_of [] cluster = raise (plain "no floating IPs found")
  floating_of (a ∷ addresses) cluster = do
    key ← cluster_key cluster
    ordered ← next_order key (a ∷ addresses)
    first_serving ordered

  unfoldable pub get_portal_floating_ip : Request String
  get_portal_floating_ip = do cluster ← cluster_state; floating_of cluster.floating_ips cluster
