-- ===== src/Client.antt =====
-- The Hammerspace client (pkg/client/hsclient.go): its HTTP requests. What the Anvil answers is an
-- arbitrary function of what was sent before; JSON, URL escapes and regular expressions are parameters.
-- Logs, traces, metrics and headers are not modelled, and a request can always be built.
pub mod Tasks
pub mod Shares
pub mod Delete
pub mod Snapshots
pub mod Portals
pub mod Laws
pub mod Deletion
pub mod Waits
use csi_plugin.Base.{
  ℕ, ◌*◌, ◌^◌, String, ◌<>◌, Bool, true, false, not, ◌||◌, Option, none, some, List, [], ◌∷◌, eqb,
  if◌then◌else◌,
}
use csi_plugin.Base.Int.{ℤ}
unfoldable pub use csi_plugin.Effect.{
  OpOn, pure, raise, lift, attempt, continue, ◌>>=◌, ◌>>◌, on_result, on_option, finally, guard,
  map_error,
}
use csi_plugin.Base.Dict.{Dict}
use csi_plugin.Cache.{Cache, get, set_cache_data}
use csi_plugin.Grpc.{Error, Result, ok, err, plain}
use csi_plugin.Params.{ShareExportOptions}
use csi_plugin.Types.{ShareResponse, File, FileSnapshot, VolumeResponse}

-- What the client does: a request with its verb, path and body; the second use of such a request, which
-- the first has read the body of; a login, a sleep in milliseconds, and a look at the NFS exports of an
-- address.
pub data Exchange : Type 0 where
  sent : String → String → String → Exchange
  sent_again : String → String → String → Exchange
  login : Exchange
  slept : ℕ → Exchange
  checked_exports : String → Exchange

abbrev pub Exchanges : Type 0
Exchanges = List Exchange

-- `location` is the first value of the Location header.
pub record Response : Type 0 where
  pub status_code : ℕ
  pub body : String
  pub location : Option String

pub record Task : Type 0 where
  pub status : String
  pub name : String

-- An objective of the cluster, by its name.
pub record ShareRequest : Type 0 where
  pub name : String
  pub export_path : String
  pub size : ℤ
  pub objectives : List String
  pub export_options : List ShareExportOptions
  pub delete_delay : Option String
  pub comment : String

-- A data portal as the Anvil lists it.
pub record PortalResponse : Type 0 where
  pub oper_state : String
  pub admin_state : String
  pub portal_type : String
  pub node_name : String
  pub address : String

pub record Cluster : Type 0 where
  pub name : String
  pub floating_ips : List String
  pub mgmt_ips : List String

-- The Anvil, and the packages that the client uses. A parser returns what it has read with its error, as
-- json.Unmarshal does. `answer_again` is what the HTTP client answers to a request
-- that it has sent before: whether the body is sent once more, sent empty or refused is its own. `running_tasks` are the action and the ID of each match of runningTaskRe.
pub record Http : Type 0 where
  pub answer : Exchanges → String → String → String → Result Response
  pub answer_again : Exchanges → String → String → String → Result Response
  pub clock : Exchanges → ℕ
  pub path_escape : String → String
  pub url_path : String → String
  pub encode_query : List (String × String) → String
  pub encode_share : ShareRequest → String
  pub set_size : String → ℤ → String
  pub is_object : String → Bool
  pub parse_share : String → ShareResponse × Result (Unit {0})
  pub parse_shares : String → List ShareResponse
  pub parse_volumes : String → List VolumeResponse
  pub parse_file : String → File
  pub parse_task : String → Result Task
  pub parse_tasks : String → Result (List Task)
  pub parse_names : String → Result (List String)
  pub parse_file_snapshots : String → Result (List FileSnapshot)
  pub parse_portals : String → Result (List PortalResponse)
  pub parse_cluster : String → Result Cluster
  pub running_tasks : String → List (String × String)
  pub is_date_time : String → Bool
  pub parse_objectives : String → List String
  pub check_nfs_exports : Exchanges → String → Bool
  pub new_uuid : Exchanges → String

-- What was sent, and the entries of the driver-wide cache that the client alone uses, by their types;
-- and the index of each cluster in its floating addresses.
pub record Client : Type 0 where
  pub exchanges : Exchanges
  pub names : Cache (List String)
  pub portals : Cache (List PortalResponse)
  pub cluster : Cache Cluster
  pub fip_indices : Dict ℕ

abbrev pub Request : Type 0 → Type 0
Request A = OpOn Client A

abbrev pub unexpected : Error
unexpected =
    plain "unexpected HTTP response from Hammerspace API: recieved status code %d, expected %d"

-- The status with which the Anvil asks for a login.
abbrev pub is_unauthorized : ℕ → Bool
is_unauthorized code = eqb code 401 || eqb code 403

module _ (h : Http) where
  -- One request of the HTTP client.
  unfoldable pub transmit : String → String → String → Request Response
  transmit verb path body c = (
    h.answer c.exchanges verb path body,
    record c { exchanges = sent verb path body ∷ c.exchanges },
  )

  -- The same request handed to the HTTP client once more, with its body read to the end.
  unfoldable pub transmit_again : String → String → String → Request Response
  transmit_again verb path body c = (
    h.answer_again c.exchanges verb path body,
    record c { exchanges = sent_again verb path body ∷ c.exchanges },
  )

  -- EnsureLogin, whose error is dropped.
  unfoldable pub ensure_login : Request (Unit {0})
  ensure_login c = (ok tt, record c { exchanges = login ∷ c.exchanges })

  unfoldable pub pause : ℕ → Request (Unit {0})
  pause milliseconds c = (ok tt, record c { exchanges = slept milliseconds ∷ c.exchanges })

  unfoldable pub or_login : String → String → String → Response → Request Response
  or_login verb path body r =
      if is_unauthorized r.status_code
      then (do ensure_login; transmit_again verb path body)
      else pure r

  unfoldable pub do_request : String → String → String → Request Response
  do_request verb path body = do r ← transmit verb path body; or_login verb path body r

  -- A request that is to be answered with one status.
  unfoldable pub expect : ℕ → String → String → Request Response
  expect code verb path = do
    r ← do_request verb path ""
    guard (not (eqb r.status_code code)) unexpected
    pure r

  abbrev pub nanoseconds : Client → ℕ
  nanoseconds c = h.clock c.exchanges * 10 ^ 6

  -- common.GetCacheData and common.SetCacheData, for the lists of names.
  unfoldable pub cached_names : String → Request (Option (List String))
  cached_names key c =
      let (found, cache) = get c.names key (nanoseconds c) in (ok found, record c { names = cache })

  unfoldable pub remember_names : String → List String → Request (Unit {0})
  remember_names key l c =
      (ok tt, record c { names = set_cache_data c.names key l 300 (nanoseconds c) })

  -- ListObjectives, by their names; an empty list is asked for again.
  unfoldable pub fetch_objectives : Request (List String)
  fetch_objectives = do
    r ← expect 200 "GET" "/objectives"
    remember_names "OBJECTIVE_LIST" (h.parse_objectives r.body)
    pure (h.parse_objectives r.body)

  abbrev pub if_some : Option (List String) → Request (List String) → Request (List String)
  if_some none fetch = fetch
  if_some (some []) fetch = fetch
  if_some (some (o ∷ l)) fetch = pure (o ∷ l)

  unfoldable pub list_objectives : Request (List String)
  list_objectives = do found ← cached_names "OBJECTIVE_LIST"; if_some found fetch_objectives

  unfoldable pub list_objective_names : Request (List String)
  list_objective_names = do
    found ← cached_names "OBJECTIVE_LIST_NAMES"
    if_some found (do
      objectives ← list_objectives
      remember_names "OBJECTIVE_LIST_NAMES" objectives
      pure objectives)
