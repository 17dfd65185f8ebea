-- ===== src/Tests/Operands.antt =====
-- A small cluster for the operator: a DaemonSet that it owns and a ServiceAccount that is missing.
use csi_plugin.Base.{String, ◌==◌, ◌≡◌, true, false, none, some, [], ◌∷◌, if◌then◌else◌}
use csi_plugin.Base.Dict.{Dict}
use csi_plugin.Base.Int.{pos}
use csi_plugin.Grpc.{ok, value_or}
use csi_plugin.Params.{parse_vol_params}
use csi_plugin.Operator.{Api, Cr, Spec, Operand, Live, found, missing, StorageClass, finalizer}
use csi_plugin.Operator.Classes.{volume_parameters, parse_vol_params-class_parameters}
use csi_plugin.Operator.Conditions.{condition, next_status}
use csi_plugin.Operator.Render.{class_parameters, bare, owner_of, render}
use csi_plugin.Operator.Reconcile.{reconcile, cleanup, namespace_of}
use csi_plugin.Operator.Reconcile.Order.{cleanup-InOrder}
use csi_plugin.Operator.Reconcile.Safety.{reconcile-Justified}
use csi_plugin.Operator.Reconcile.Trace.{Justified, InOrder}
use csi_plugin.Operator.Settled.{condition-again}

abbrev block_class : StorageClass
block_class = record { name = "fast"; mode = "Block"; backing_share_name = "pool" }

abbrev spec : Spec
spec = record {
  credentials_secret_name = "credentials";
  tls_verify = none;
  log_level = "";
  node_selector = [];
  tolerations = [];
  storage_classes = [];
}

abbrev cr : Cr
cr = record {
  api_version = "v1";
  kind = "Driver";
  name = "cluster";
  uid = "u";
  generation = pos 1;
  deleting = false;
  finalizers = [];
  decoded = (spec, ok tt);
  status = none;
}

abbrev daemon : Operand
daemon = record (bare "apps/v1" "DaemonSet" "csi-node") {
  pod = some (record { containers = []; node_selector = []; tolerations = []; annotations = [] });
}

abbrev account : Operand
account = bare "v1" "ServiceAccount" "csi-node"

-- The DaemonSet as the cluster has it, with one node that is ready.
abbrev live : Live
live = record {
  kind = "DaemonSet";
  name = "csi-node";
  uid = "d";
  deleting = false;
  owners = owner_of cr ∷ [];
  generation = pos 1;
  observed_generation = pos 1;
  replicas = pos 0;
  ready_replicas = pos 0;
  updated_replicas = pos 0;
  current_revision = "";
  update_revision = "";
  desired_number_scheduled = pos 1;
  number_ready = pos 1;
  updated_number_scheduled = pos 1;
  number_unavailable = pos 0;
  selector = ok [];
}

abbrev images : Dict String
images =
    ("driver", "d")
    ∷ ("provisioner", "p")
    ∷ ("attacher", "a")
    ∷ ("snapshotter", "s")
    ∷ ("resizer", "r")
    ∷ ("registrar", "g")
    ∷ ("livenessprobe", "l")
    ∷ []

abbrev cluster : Cr → Api
cluster cr = record {
  driver = λ h. found cr;
  secret = λ h name. ok (record {
    uid = "s";
    resource_version = "1";
    values = ("username", "u") ∷ ("password", "p") ∷ ("endpoint", "e") ∷ [];
  });
  object = λ h o. if o.kind == "DaemonSet" then found live else missing;
  create = λ h o. ok tt;
  patch_managed_fields = λ h current. ok current;
  upgrade_patch = λ current. ok (some "[]");
  apply = λ h o uid. ok tt;
  delete = λ h o uid. ok tt;
  is_not_found = λ e. false;
  update_driver = λ h sent. ok sent;
  update_status = λ h status. ok tt;
  pods = λ h selector. ok [];
  now = λ h. "2026-01-01T00:00:00Z";
  operands = ok (daemon ∷ account ∷ []);
  is_subdomain = λ name. true;
  decode_base64 = λ text. some text;
}

abbrev deleted : Cr
deleted = record cr { deleting = true; finalizers = finalizer ∷ [] }

reconcile-Justified_example : Justified (cluster cr) (reconcile (cluster cr) images "" []).1
reconcile-Justified_example = reconcile-Justified (cluster cr) images ""

cleanup-InOrder_example :
    InOrder
      (cluster deleted)
      deleted
      (value_or [] (render (cluster deleted) deleted spec images "" (namespace_of "")))
      (cleanup (cluster deleted) images "" deleted spec []).1
cleanup-InOrder_example = cleanup-InOrder (cluster deleted) images "" deleted spec

condition-again_example :
    condition
      (cluster cr)
      images
      (record cr { status = some (next_status "now" cr images true false "Ready" "ready") })
      true
      false
      "Ready"
      "ready"
      []
    ≡ (ok tt, [])
condition-again_example = condition-again (cluster cr) cr images true false "Ready" "ready" "now" []

parse_vol_params-class_parameters_example :
    parse_vol_params (λ host. none) (class_parameters block_class)
    ≡ ok (volume_parameters block_class)
parse_vol_params-class_parameters_example =
    parse_vol_params-class_parameters (λ host. none) block_class
