-- ===== src/CsiV0.antt =====
-- The service for version 0.3 of CSI (pkg/driver/driver_csi_v0.go): each handler converts its request and
-- calls the handler of the driver. Secrets, which no handler of the driver reads, are left out.
pub mod Laws
use csi_plugin.Base.{String, Bool, true, false, Option, none, some, List, [], ◌∷◌}
use csi_plugin.Base.Dict.{Dict}
use csi_plugin.Base.Int.{ℤ, pos}
use csi_plugin.Controller.Capacity.{get_available}
use csi_plugin.Controller.Create.{create_volume}
use csi_plugin.Controller.Create.Plan.{CreateRequest, CreateResponse}
use csi_plugin.Controller.Delete.{delete_volume}
use csi_plugin.Controller.Validate.{validate_volume_capabilities}
use csi_plugin.Driver.{World, Op, pure, raise, lift, on_result, ◌>>=◌, ◌>>◌}
use csi_plugin.Grpc.{Error, Result, ok, err, status, invalid_argument, unimplemented}
use csi_plugin.Node.Service.{node_stage_volume, node_unstage_volume, node_publish_volume}
use csi_plugin.Node.Unpublish.{node_unpublish_volume}
use csi_plugin.Types.{VolumeCapability, AccessMode, mount, CapacityRange}

-- A capability of the old version: its mount, if it is one, with a file system type and flags. The values
-- of the access mode are the same in both versions.
pub record CapabilityV0 : Type 0 where
  pub mount : Option (String × List String)
  pub access_mode : AccessMode

pub record CreateRequestV0 : Type 0 where
  pub name : String
  pub capabilities : List CapabilityV0
  pub parameters : Dict String
  pub capacity_range : Option CapacityRange

pub record VolumeV0 : Type 0 where
  pub capacity_bytes : ℤ
  pub id : String
  pub attributes : Dict String

abbrev pub block_volumes_unsupported : Error
block_volumes_unsupported = status invalid_argument "block volumes are unsupported in CSI v0.3"

abbrev pub mounted : AccessMode → String × List String → VolumeCapability
mounted mode (fs_type, flags) = record { access_type = mount fs_type flags; access_mode = mode }

abbrev pub converted_mount : AccessMode → Option (String × List String) → Result VolumeCapability
converted_mount mode none = err block_volumes_unsupported
converted_mount mode (some m) = ok (mounted mode m)

-- ConvertVolumeCapabilityFromv0Tov1
unfoldable pub convert : CapabilityV0 → Result VolumeCapability
convert c = converted_mount c.access_mode c.mount

abbrev pub and_convert :
    Result VolumeCapability → Result (List VolumeCapability) → Result (List VolumeCapability)
and_convert (err e) rest = err e
and_convert (ok c) (err e) = err e
and_convert (ok c) (ok l) = ok (c ∷ l)

unfoldable pub convert_all : List CapabilityV0 → Result (List VolumeCapability)
convert_all [] = ok []
convert_all (c ∷ l) = and_convert (convert c) (convert_all l)

-- The getters of a missing capability find no mount.
abbrev convert_option : Option CapabilityV0 → Result VolumeCapability
convert_option none = err block_volumes_unsupported
convert_option (some c) = convert c

-- The getters of a missing range are 0.
abbrev pub range_or_zero : Option CapacityRange → CapacityRange
range_or_zero none = record { required_bytes = pos 0; limit_bytes = pos 0 }
range_or_zero (some range) = range

abbrev pub create_request : CreateRequestV0 → List VolumeCapability → CreateRequest
create_request req capabilities = record {
  name = req.name;
  capabilities = capabilities;
  parameters = req.parameters;
  capacity_range = some (range_or_zero req.capacity_range);
  snapshot = none;
}

abbrev pub volume_v0 : CreateResponse → VolumeV0
volume_v0 res = record {
  capacity_bytes = res.capacity_bytes;
  id = res.volume_id;
  attributes = res.volume_context;
}

-- A call that the service does not support.
abbrev unsupported : {A : Type 0} → String → Op A
unsupported message = raise (status unimplemented message)

module _ (w : World) where
  unfoldable pub create_volume_v0 : CreateRequestV0 → Op VolumeV0
  create_volume_v0 req = do
    capabilities ← lift (convert_all req.capabilities)
    res ← create_volume w (create_request req capabilities)
    pure (volume_v0 res)

  unfoldable pub delete_volume_v0 : String → Op (Unit {0})
  delete_volume_v0 volume_id = delete_volume w volume_id

  unfoldable pub controller_publish_volume_v0 : Op (Unit {0})
  controller_publish_volume_v0 = unsupported "ControllerPublishVolume not supported"

  unfoldable pub controller_unpublish_volume_v0 : Op (Unit {0})
  controller_unpublish_volume_v0 = unsupported "ControllerUnpublishVolume not supported"

  -- Whether the capabilities are supported: what the driver confirmed is not looked at.
  unfoldable pub validate_volume_capabilities_v0 :
      String → List CapabilityV0 → Dict String → Op Bool
  validate_volume_capabilities_v0 volume_id capabilities attributes =
      on_result (convert_all capabilities)
        (λ converted. do validate_volume_capabilities w volume_id converted attributes; pure true)
        λ e. pure false

  unfoldable pub get_capacity_v0 : List CapabilityV0 → Dict String → Op ℤ
  get_capacity_v0 capabilities parameters =
      on_result (convert_all capabilities) (λ converted. get_available w converted parameters)
        λ e. pure (pos 0)

  unfoldable pub controller_get_capabilities_v0 : List String
  controller_get_capabilities_v0 = "CREATE_DELETE_VOLUME" ∷ "GET_CAPACITY" ∷ []

  unfoldable pub list_volumes_v0 : Op (Unit {0})
  list_volumes_v0 = unsupported ""

  unfoldable pub create_snapshot_v0 : Op (Unit {0})
  create_snapshot_v0 = unsupported ""

  unfoldable pub delete_snapshot_v0 : Op (Unit {0})
  delete_snapshot_v0 = unsupported ""

  unfoldable pub list_snapshots_v0 : Op (Unit {0})
  list_snapshots_v0 = unsupported ""

  -- The attributes of the volume are passed as the context of its publication, which the driver does not
  -- read: the context of the volume is empty.
  unfoldable pub node_stage_volume_v0 :
      String → String → Option CapabilityV0 → Dict String → Op (Unit {0})
  node_stage_volume_v0 volume_id staging capability attributes = do
    converted ← lift (convert_option capability)
    node_stage_volume w volume_id staging (some converted) []

  unfoldable pub node_unstage_volume_v0 : String → String → Op (Unit {0})
  node_unstage_volume_v0 volume_id staging = node_unstage_volume w volume_id staging

  unfoldable pub node_publish_volume_v0 :
      String → String → String → Option CapabilityV0 → Bool → Dict String → Op (Unit {0})
  node_publish_volume_v0 volume_id staging target capability read_only attributes = do
    converted ← lift (convert_option capability)
    node_publish_volume w volume_id staging target (some converted) read_only attributes

  unfoldable pub node_unpublish_volume_v0 : String → String → Op (Unit {0})
  node_unpublish_volume_v0 volume_id target = node_unpublish_volume w volume_id target

  unfoldable pub node_get_capabilities_v0 : List String
  node_get_capabilities_v0 = "UNKNOWN" ∷ "STAGE_UNSTAGE_VOLUME" ∷ []

  unfoldable pub node_get_info_v0 : String
  node_get_info_v0 = w.node_id

  unfoldable pub node_get_id_v0 : String
  node_get_id_v0 = w.node_id
