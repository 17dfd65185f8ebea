-- ===== src/Operator.antt =====
-- The operator that installs the plugin on a cluster (operator/internal/operator): the objects that it
-- reads and writes, and the API server, which answers each request as an arbitrary function of those
-- before. Of an object only the fields that the operator reads or sets are kept.
pub mod Parse
pub mod Render
pub mod Conditions
pub mod Workload
pub mod Apply
pub mod Reconcile
pub mod Settled
pub mod Classes
pub mod Bounds
use csi_plugin.Base.{ℕ, String, ◌==◌, Bool, true, false, not, ◌&&◌, ◌||◌, Option, List, [], ◌∷◌}
use csi_plugin.Base.Dict.{Dict}
use csi_plugin.Base.Int.{ℤ}
pub use csi_plugin.Effect.{request}
use csi_plugin.Effect.{OpOn}
use csi_plugin.Grpc.{Error, Result}

-- `is_controller`: owner.Controller != nil && *owner.Controller.
pub record Owner : Type 0 where
  pub api_version : String
  pub kind : String
  pub name : String
  pub uid : String
  pub is_controller : Bool

pub record StorageClass : Type 0 where
  pub name : String
  pub mode : String
  pub backing_share_name : String

-- A toleration is its JSON text.
pub record Spec : Type 0 where
  pub credentials_secret_name : String
  pub tls_verify : Option Bool
  pub log_level : String
  pub node_selector : Dict String
  pub tolerations : List String
  pub storage_classes : List StorageClass

pub record Condition : Type 0 where
  pub name : String
  pub value : String
  pub reason : String
  pub message : String
  pub observed_generation : ℤ
  pub last_transition_time : String

pub record Status : Type 0 where
  pub observed_generation : ℤ
  pub conditions : List Condition
  pub images : Dict String

-- The driver's custom resource; `decoded` is what JSON reads of its spec, with the error of that.
pub record Cr : Type 0 where
  pub api_version : String
  pub kind : String
  pub name : String
  pub uid : String
  pub generation : ℤ
  pub deleting : Bool
  pub finalizers : List String
  pub decoded : Spec × Result (Unit {0})
  pub status : Option Status

-- `secret` is the name of the Secret that the value is taken from.
pub record Env : Type 0 where
  pub name : String
  pub value : String
  pub secret : Option String

pub record Container : Type 0 where
  pub name : String
  pub image : String
  pub env : List Env

pub record Pod : Type 0 where
  pub containers : List Container
  pub node_selector : Dict String
  pub tolerations : List String
  pub annotations : Dict String

-- An object that the operator renders; `subjects` are the namespaces of a binding's subjects, `users`
-- the service accounts of the security context constraints.
pub record Operand : Type 0 where
  pub api_version : String
  pub kind : String
  pub name : String
  pub namespace : String
  pub subjects : List String
  pub pod : Option Pod
  pub parameters : Dict String
  pub users : List String
  pub owners : List Owner
  pub labels : Dict String

-- An object as the API server has it, with the status of a StatefulSet or DaemonSet.
pub record Live : Type 0 where
  pub kind : String
  pub name : String
  pub uid : String
  pub deleting : Bool
  pub owners : List Owner
  pub generation : ℤ
  pub observed_generation : ℤ
  pub replicas : ℤ
  pub ready_replicas : ℤ
  pub updated_replicas : ℤ
  pub current_revision : String
  pub update_revision : String
  pub desired_number_scheduled : ℤ
  pub number_ready : ℤ
  pub updated_number_scheduled : ℤ
  pub number_unavailable : ℤ
  pub selector : Result (Dict String)

pub record ContainerStatus : Type 0 where
  pub name : String
  pub waiting_reason : String
  pub restart_count : ℤ

pub record PodStatus : Type 0 where
  pub name : String
  pub containers : List ContainerStatus

pub record Secret : Type 0 where
  pub uid : String
  pub resource_version : String
  pub values : Dict String

-- What a Get returns: apierrors.IsNotFound is a case of its own.
pub data Answer (A : Type 0) : Type 0 where
  found : A → Answer A
  missing : Answer A
  failed : Error → Answer A

-- A request to the API server; one that takes an object away carries the UID of its precondition.
pub data Request : Type 0 where
  get_driver : Request
  get_secret : String → Request
  get_object : Operand → Request
  create_object : Operand → Request
  patch_managed_fields : Live → Request
  apply_object : Operand → String → Request
  delete_object : Operand → String → Request
  update_driver : Cr → Request
  update_status : Status → Request
  list_pods : Dict String → Request

-- The requests so far, newest first.
abbrev pub Requests : Type 0
Requests = List Request

-- The API server, the clock, the embedded operands and the packages that the operator uses.
-- `upgrade_patch` is csaupgrade.UpgradeManagedFieldsPatch.
pub record Api : Type 0 where
  pub driver : Requests → Answer Cr
  pub secret : Requests → String → Result Secret
  pub object : Requests → Operand → Answer Live
  pub create : Requests → Operand → Result (Unit {0})
  pub patch_managed_fields : Requests → Live → Result Live
  pub upgrade_patch : Live → Result (Option String)
  pub apply : Requests → Operand → String → Result (Unit {0})
  pub delete : Requests → Operand → String → Result (Unit {0})
  pub is_not_found : Error → Bool
  pub update_driver : Requests → Cr → Result Cr
  pub update_status : Requests → Status → Result (Unit {0})
  pub pods : Requests → Dict String → Result (List PodStatus)
  pub now : Requests → String
  pub operands : Result (List Operand)
  pub is_subdomain : String → Bool
  pub decode_base64 : String → Option String

abbrev pub Op : Type 0 → Type 0
Op = OpOn Requests

abbrev pub finalizer : String
finalizer = "storage.hammerspace.com/operands"

-- ownedBy
unfoldable pub owned_by : List Owner → Cr → Bool
owned_by [] cr = false
owned_by (o ∷ owners) cr =
    ((o.uid == cr.uid)
      && ((o.api_version == cr.api_version) && ((o.kind == cr.kind) && o.is_controller)))
    || owned_by owners cr

-- Whether a kind is that of a workload.
unfoldable pub workload : String → Bool
workload kind = (kind == "StatefulSet") || (kind == "DaemonSet")

-- Whether a kind is that of a workload, or that it is not.
abbrev pub of_class : Bool → String → Bool
of_class b kind = (workload kind && b) || (not (workload kind) && not b)

unfoldable pub has_string : String → List String → Bool
has_string s [] = false
has_string s (f ∷ l) = (f == s) || has_string s l

-- hasFinalizer
unfoldable pub has_finalizer : Cr → Bool
unfolding has_string
has_finalizer cr = has_string finalizer cr.finalizers
