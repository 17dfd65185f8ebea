-- ===== src/Tests/Anvil.antt =====
-- The client of the Anvil against a small Anvil, on which every request is answered by 202 without a
-- body.
use csi_plugin.Base.{ℕ, ◌+◌, ◌≤◌, true, false, none, [], ◌∷◌, String, arith}
use csi_plugin.Cache.{csi_cache}
use csi_plugin.Client.{
  Http, Client, Response, PortalResponse, Exchange, Exchanges, sent, sent_again, login, slept,
  checked_exports,
}
use csi_plugin.Client.Waits.{Ticks, Ended, wait_for_task-Ended}
use csi_plugin.Client.Tasks.{wait_for_task}
use csi_plugin.Grpc.{ok, err, plain}
use csi_plugin.Tests.{share, file}

-- The time is what was slept.
abbrev slept_in : Exchanges → ℕ
slept_in [] = 0
slept_in (sent v p b ∷ l) = slept_in l
slept_in (sent_again v p b ∷ l) = slept_in l
slept_in (login ∷ l) = slept_in l
slept_in (slept ms ∷ l) = slept_in l + ms
slept_in (checked_exports a ∷ l) = slept_in l

abbrev accepted : Response
accepted = record { status_code = 202; body = ""; location = none }

abbrev http : Http
http = record {
  answer = λ l verb path body. ok accepted;
  answer_again = λ l verb path body. ok accepted;
  clock = slept_in;
  path_escape = λ s. s;
  url_path = λ s. s;
  encode_query = λ l. "";
  encode_share = λ r. "";
  set_size = λ s n. s;
  is_object = λ s. true;
  parse_share = λ s. (share "share", ok tt);
  parse_shares = λ s. [];
  parse_volumes = λ s. [];
  parse_file = λ s. file;
  parse_task = λ s. ok (record { status = "EXECUTING"; name = "vol" });
  parse_tasks = λ s. ok [];
  parse_names = λ s. ok [];
  parse_file_snapshots = λ s. ok [];
  parse_portals = λ s. ok [];
  parse_cluster = λ s. err (plain "syntax");
  running_tasks = λ s. [];
  is_date_time = λ s. false;
  parse_objectives = λ s. [];
  check_nfs_exports = λ l a. false;
  new_uuid = λ l. "uuid";
}

abbrev client : Client
client = record {
  exchanges = [];
  names = csi_cache;
  portals = csi_cache;
  cluster = csi_cache;
  fip_indices = [];
}

abbrev portal : String → PortalResponse
portal name = record {
  oper_state = "UP";
  admin_state = "UP";
  portal_type = "NFS_V3";
  node_name = name;
  address = name;
}

onward : (e : Exchange) (l : Exchanges) → slept_in l ≤ slept_in (e ∷ l)
onward (sent v p b) l = omega arith
onward (sent_again v p b) l = omega arith
onward login l = omega arith
onward (slept ms) l = omega arith
onward (checked_exports a) l = omega arith

ticks : Ticks http
ticks = record { onward = onward; sleeps = λ ms l. omega arith }

wait_for_task-Ended_example :
    Ended (wait_for_task http 1801 (http.clock client.exchanges) "7" client).0
wait_for_task-Ended_example = wait_for_task-Ended http ticks "7" client
