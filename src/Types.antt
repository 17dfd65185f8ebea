-- ===== src/Types.antt =====
-- The data that the driver and the Hammerspace client pass around: pkg/common/hs_types.go, and the
-- parts of the CSI messages (package csi) that the handlers read and write. Fields that no modelled
-- function reads are left out.
use csi_plugin.Base.{String, Bool, List}
use csi_plugin.Base.Int.{ℤ}
use csi_plugin.Base.Dict.{Dict}
use csi_plugin.Params.{ShareExportOptions}

pub record HsVolume : Type 0 where
  pub delete_delay : ℤ
  pub export_options : List ShareExportOptions
  pub objectives : List String
  pub block_backing_share_name : String
  pub mount_backing_share_name : String
  pub size : ℤ
  pub name : String
  pub path : String
  pub volume_mode : String
  pub source_snap_path : String
  pub fs_type : String
  pub comment : String
  pub source_snap_share_name : String
  pub additional_metadata_tags : Dict String
  pub fqdn : String
  pub mount_flags : List String
  pub objective_target : String

-- `size` is shareSizeLimit and `available` is space.available.
pub record ShareResponse : Type 0 where
  pub name : String
  pub export_path : String
  pub extended_info : Dict String
  pub share_state : String
  pub size : ℤ
  pub available : ℤ

pub record FileChildren : Type 0 where
  pub name : String
  pub size : ℤ
  pub create_time : ℤ

pub record File : Type 0 where
  pub name : String
  pub path : String
  pub size : ℤ
  pub children : List FileChildren

pub record FileSnapshot : Type 0 where
  pub source_filename : String
  pub time : String

pub record VolumeResponse : Type 0 where
  pub name : String
  pub capacity : ℤ

pub record SnapshotResponse : Type 0 where
  pub id : String
  pub size : ℤ
  pub created : ℤ
  pub ready_to_use : Bool
  pub source_volume_id : String

-- csi.VolumeCapability_AccessMode, as far as the driver tells its values apart.
pub data AccessMode : Type 0 where
  multi_node_multi_writer other_mode : AccessMode

-- The access type of a csi.VolumeCapability: raw block, a mount with its file system type and flags,
-- or none.
pub data AccessType : Type 0 where
  block : AccessType
  mount : String → List String → AccessType
  unset : AccessType

pub record VolumeCapability : Type 0 where
  pub access_type : AccessType
  pub access_mode : AccessMode

pub record CapacityRange : Type 0 where
  pub required_bytes : ℤ
  pub limit_bytes : ℤ

-- csi.Snapshot; the creation time in seconds.
pub record Snapshot : Type 0 where
  pub snapshot_id : String
  pub source_volume_id : String
  pub size_bytes : ℤ
  pub creation_time : ℤ
  pub ready_to_use : Bool
