-- ===== src/Freezer.antt =====
-- The freezer (pkg/driver/freezer.go): the file systems of a volume are frozen while a snapshot is
-- taken. The Kubernetes API and the environment are the Kube record, which answers each request as an
-- arbitrary function of those before; a call of fsfreeze in a pod is one request.

pub mod Thaws
use csi_plugin.Base.{
  String, ◌<>◌, ◌==◌, Bool, true, false, not, ◌&&◌, ◌||◌, Option, none, some, List, [], ◌∷◌, ◌++◌,
  if◌then◌else◌,
}
use csi_plugin.Base.Text.{trim_space}
pub use csi_plugin.Effect.{request}
use csi_plugin.Effect.{OpOn, pure, raise, lift, attempt, on_result, on_option, ◌>>=◌, ◌>>◌}
use csi_plugin.Grpc.{Error, Result, ok, err, plain}

pub record FrozenTarget : Type 0 where
  pub namespace : String
  pub pod_name : String
  pub container : String
  pub mount_path : String
  pub user_pod_ns : String
  pub user_pod_name : String

-- A persistent volume: its CSI volume handle, and the namespace and name of its claim.
pub record Volume : Type 0 where
  pub name : String
  pub volume_handle : Option String
  pub claim : Option (String × String)

-- `claims` has an entry for each volume of the pod: the name of its claim, where it is one.
pub record Pod : Type 0 where
  pub namespace : String
  pub name : String
  pub uid : String
  pub phase : String
  pub node_name : String
  pub claims : List (Option String)

pub data Request : Type 0 where
  list_volumes : Request
  list_pods : String → Request
  list_csi_node_pods : String → String → Request
  fsfreeze : String → FrozenTarget → Request

abbrev pub Requests : Type 0
Requests = List Request

pub record Kube : Type 0 where
  pub volumes : Requests → Result (List Volume)
  pub pods : Requests → String → Result (List Pod)
  pub csi_node_pods : Requests → String → String → Result (List Pod)
  pub fsfreeze : Requests → String → FrozenTarget → Result (Unit {0})

abbrev pub Op : Type 0 → Type 0
Op = OpOn Requests

abbrev or_default : Option String → String
or_default none = "kube-system"
or_default (some contents) =
    if not (trim_space contents == "") then trim_space contents else "kube-system"

-- `file` is what the file of the service account holds, where it can be read.
unfoldable pub driver_namespace : String → Option String → String
driver_namespace pod_namespace file =
    if not (trim_space pod_namespace == "") then trim_space pod_namespace else or_default file

abbrev pub is_handle : String → Option String → Bool
is_handle volume_handle none = false
is_handle volume_handle (some handle) = handle == volume_handle

-- The name of the first volume with the handle and a claim, with the namespace and the name of the
-- claim.
abbrev or_next :
    Bool
    → Volume
    → Option (String × String)
    → Option (String × String × String)
    → Option (String × String × String)
or_next true v (some (ns, name)) rest = some (v.name, ns, name)
or_next true v none rest = rest
or_next false v claim rest = rest

unfoldable pub find_claim : String → List Volume → Option (String × String × String)
find_claim volume_handle [] = none
find_claim volume_handle (v ∷ l) =
    let rest = find_claim volume_handle l in
    or_next (is_handle volume_handle v.volume_handle) v v.claim rest

-- A claim without a name is as good as none.
abbrev named : Option (String × String × String) → Option (String × String × String)
named none = none
named (some (pv, ns, name)) = if name == "" then none else some (pv, ns, name)

unfoldable pub holds_claim : String → List (Option String) → Bool
holds_claim claim_name [] = false
holds_claim claim_name (c ∷ l) = is_handle claim_name c || holds_claim claim_name l

unfoldable pub running_pod : List Pod → Option Pod
running_pod [] = none
running_pod (p ∷ l) = let rest = running_pod l in if p.phase == "Running" then some p else rest

unfoldable pub target_in : Pod → String → Pod → FrozenTarget
target_in csi_pod pv_name user_pod = record {
  namespace = csi_pod.namespace;
  pod_name = csi_pod.name;
  container = "hs-csi-plugin-node";
  mount_path =
      "/var/lib/kubelet/pods/" <> user_pod.uid <> "/volumes/kubernetes.io~csi/" <> pv_name
      <> "/mount";
  user_pod_ns = user_pod.namespace;
  user_pod_name = user_pod.name;
}

module _ (k : Kube) (namespace : String) where
  unfoldable pub find_csi_node_pod_on_node : String → Op Pod
  find_csi_node_pod_on_node node_name = do
    pods ←
        request (list_csi_node_pods namespace node_name)
          (λ h. k.csi_node_pods h namespace node_name)
    on_option (running_pod pods) (raise (plain "no running csi-node pod on %s")) pure

  abbrev pub is_user : String → Pod → Bool
  is_user claim_name p =
      (p.phase == "Running") && (holds_claim claim_name p.claims && not (p.node_name == ""))

  unfoldable pub targets_of : String → String → List Pod → Op (List FrozenTarget)
  targets_of pv_name claim_name [] = pure []
  targets_of pv_name claim_name (p ∷ l) =
      let rest = targets_of pv_name claim_name l in
      if not (is_user claim_name p) then rest else do
        found ← attempt (find_csi_node_pod_on_node p.node_name)
        on_result found (λ csi_pod. do targets ← rest; pure (target_in csi_pod pv_name p ∷ targets))
            (λ e. rest)

  unfoldable pub find_mounts_for_volume_handle : String → Op (List FrozenTarget)
  find_mounts_for_volume_handle volume_handle = do
    volumes ← request list_volumes k.volumes
    on_option (named (find_claim volume_handle volumes)) (pure []) λ claim. do
      pods ← request (list_pods claim.1) (λ h. k.pods h claim.1)
      targets_of claim.0 claim.2 pods

  abbrev pub exec_fsfreeze : FrozenTarget → String → Op (Unit {0})
  exec_fsfreeze t op = request (fsfreeze op t) (λ h. k.fsfreeze h op t)

  -- The targets that could be frozen.
  unfoldable pub freeze_targets : List FrozenTarget → Op (List FrozenTarget)
  freeze_targets [] = pure []
  freeze_targets (t ∷ l) = do
    frozen ← attempt (exec_fsfreeze t "--freeze")
    rest ← freeze_targets l
    on_result frozen (λ _. pure (t ∷ rest)) (λ e. pure rest)

  -- `present` is whether the driver runs in a cluster.
  unfoldable pub freeze_for_volume_handle : Bool → String → Op (List FrozenTarget)
  freeze_for_volume_handle present volume_handle = if not present then pure [] else do
    targets ← attempt (find_mounts_for_volume_handle volume_handle)
    on_result targets freeze_targets (λ e. pure [])

  -- From the last to the first; an error is only logged.
  unfoldable pub unfreeze_all : List FrozenTarget → Op (Unit {0})
  unfreeze_all [] = pure tt
  unfreeze_all (t ∷ l) = do unfreeze_all l; attempt (exec_fsfreeze t "--unfreeze"); pure tt

  unfoldable pub unfreeze : Bool → List FrozenTarget → Op (Unit {0})
  unfreeze present frozen = if not present then pure tt else unfreeze_all frozen
