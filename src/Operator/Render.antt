-- ===== src/Operator/Render.antt =====
-- Render of operator/internal/operator/render.go, and ContainerImageKey of
-- operator/internal/manifests/images.go. The fields that are the same in every rendered object are left
-- out.
use csi_plugin.Base.{
  String, ◌<>◌, ◌==◌, Bool, true, false, ◌||◌, Option, none, some, List, [], ◌∷◌, ◌++◌, map,
  if◌then◌else◌,
}
use csi_plugin.Base.Dict.{Dict, lookup, insert}
use csi_plugin.Grpc.{Result, ok, err, guard, plain, ◌>>=◌, ◌>>◌}
use csi_plugin.Operator.{Api, Cr, Spec, StorageClass, Env, Container, Pod, Operand, Owner, workload}
use csi_plugin.Params.{value_or_empty}

abbrev image_keys : List String
image_keys =
    "driver" ∷ "provisioner" ∷ "attacher" ∷ "snapshotter" ∷ "resizer" ∷ "registrar"
    ∷ "livenessprobe" ∷ []

unfoldable pub container_image_key : String → Option String
container_image_key name =
    if (name == "hs-csi-plugin-controller") || (name == "hs-csi-plugin-node")
    then some "driver"
    else if name == "csi-provisioner"
    then some "provisioner"
    else if name == "csi-attacher"
    then some "attacher"
    else if name == "csi-snapshotter"
    then some "snapshotter"
    else if name == "csi-resizer"
    then some "resizer"
    else if name == "driver-registrar"
    then some "registrar"
    else if name == "liveness-probe"
    then some "livenessprobe"
    else none

abbrev pub image_of : Dict String → String → String
image_of images key = value_or_empty (lookup key images)

unfoldable pub check_images : Dict String → List String → Result (Unit {0})
check_images images [] = ok tt
check_images images (key ∷ keys) = do
  guard (image_of images key == "") (plain "missing release image %s")
  check_images images keys

abbrev pub tls_verify_text : Option Bool → String
tls_verify_text none = "true"
tls_verify_text (some true) = "true"
tls_verify_text (some false) = "false"

abbrev pub from_secret : String → Option String → Option String
from_secret name none = none
from_secret name (some other) = some name

abbrev env_value : Spec → Env → String
env_value spec e =
    if e.name == "LOG_LEVEL"
    then spec.log_level
    else if e.name == "HS_TLS_VERIFY"
    then tls_verify_text spec.tls_verify
    else e.value

unfoldable pub configure_env : Spec → Env → Env
configure_env spec e = record e {
  secret = from_secret spec.credentials_secret_name e.secret;
  value = env_value spec e;
}

unfoldable pub with_image : Dict String → Spec → Container → Option String → Result Container
with_image images spec c none = err (plain "no release image for container %q")
with_image images spec c (some key) = do
  guard (image_of images key == "") (plain "no release image for container %q")
  ok (record c { image = image_of images key; env = map (configure_env spec) c.env })

unfoldable pub configure_containers : Dict String → Spec → List Container → Result (List Container)
configure_containers images spec [] = ok []
configure_containers images spec (c ∷ l) = do
  configured ← with_image images spec c (container_image_key c.name)
  rest ← configure_containers images spec l
  ok (configured ∷ rest)

-- for k, val := range from { into[k] = val }
unfoldable pub merged : Dict String → Dict String → Dict String
merged into [] = into
merged into ((k, v) ∷ from) = insert k v (merged into from)

abbrev unless_empty : List String → List String → List String
unless_empty [] old = old
unless_empty (t ∷ l) old = t ∷ l

-- A workload without a pod template would panic.
unfoldable pub configure_pod : Dict String → Spec → String → Option Pod → Result (Option Pod)
configure_pod images spec secret_version none = err (plain "interface conversion")
configure_pod images spec secret_version (some pod) = do
  containers ← configure_containers images spec pod.containers
  ok (
      some (record pod {
        containers = containers;
        node_selector = merged (("kubernetes.io/os", "linux") ∷ []) spec.node_selector;
        tolerations = unless_empty spec.tolerations pod.tolerations;
        annotations =
            insert "storage.hammerspace.com/credentials-version" secret_version pod.annotations;
      }))

abbrev namespaced : String → Bool
namespaced kind =
    (kind == "Service") || ((kind == "ServiceAccount") || ((kind == "ConfigMap") || workload kind))

abbrev all_in : String → List String → List String
all_in namespace = map (λ _. namespace)

unfoldable pub place : String → Operand → Operand
unfolding workload
place namespace o = record o {
  namespace = if namespaced o.kind then namespace else o.namespace;
  subjects = if o.kind == "ClusterRoleBinding" then all_in namespace o.subjects else o.subjects;
}

unfoldable pub configure : Dict String → Spec → String → String → Operand → Result Operand
configure images spec secret_version namespace o =
    if workload o.kind
    then (do
      pod ← configure_pod images spec secret_version o.pod
      ok (record (place namespace o) { pod = pod }))
    else ok (place namespace o)

unfoldable pub configure_all :
    Dict String → Spec → String → String → List Operand → Result (List Operand)
configure_all images spec secret_version namespace [] = ok []
configure_all images spec secret_version namespace (o ∷ l) = do
  configured ← configure images spec secret_version namespace o
  rest ← configure_all images spec secret_version namespace l
  ok (configured ∷ rest)

-- The parameters of a StorageClass.
unfoldable pub class_parameters : StorageClass → Dict String
class_parameters sc =
    let params = insert "volumeNameFormat" "csi-%s" [] in
    if sc.mode == "NFS"
    then insert "fsType" "nfs" params
    else if sc.mode == "Block"
    then insert "blockBackingShareName" sc.backing_share_name params
    else insert "mountBackingShareName" sc.backing_share_name (insert "fsType" sc.mode params)

abbrev pub bare : String → String → String → Operand
bare api_version kind name = record {
  api_version = api_version;
  kind = kind;
  name = name;
  namespace = "";
  subjects = [];
  pod = none;
  parameters = [];
  users = [];
  owners = [];
  labels = [];
}

unfoldable pub storage_class : StorageClass → Operand
storage_class sc = record (bare "storage.k8s.io/v1" "StorageClass" sc.name) {
  parameters = class_parameters sc;
}

unfoldable pub security_context_constraints : String → Operand
security_context_constraints namespace =
    record (bare "security.openshift.io/v1" "SecurityContextConstraints" "hammerspace-csi") {
      users =
          ("system:serviceaccount:" <> namespace <> ":csi-node")
          ∷ ("system:serviceaccount:" <> namespace <> ":csi-provisioner")
          ∷ [];
    }

abbrev pub owner_of : Cr → Owner
owner_of cr = record {
  api_version = cr.api_version;
  kind = cr.kind;
  name = cr.name;
  uid = cr.uid;
  is_controller = true;
}

unfoldable pub own : Cr → Operand → Operand
own cr o = record o {
  owners = owner_of cr ∷ [];
  labels = insert "app.kubernetes.io/managed-by" "hammerspace-csi-operator" o.labels;
}

unfoldable pub render : Api → Cr → Spec → Dict String → String → String → Result (List Operand)
render w cr spec images secret_version namespace = do
  check_images images image_keys
  raw ← w.operands
  configured ← configure_all images spec secret_version namespace raw
  ok (
      map (own cr) (
        configured
        ++ (map storage_class spec.storage_classes ++ security_context_constraints namespace ∷ [])))
