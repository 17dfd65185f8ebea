-- ===== src/Controller/Create/Backing.antt =====
-- The backing share of a new volume: ensureBackingShareExists and ensureNFSDirectoryExists of
-- pkg/driver/controller.go.
use csi_plugin.Base.{String, ◌<>◌, false, Option, none, some, [], ◌∷◌}
use csi_plugin.Base.Int.{negsuc}
use csi_plugin.Driver.{
  World, Op, create_share, get_share, make_raw_folder, set_metadata_tags, pure, raise, call,
  attempt, finally, map_error, host, host_logged, unmount_path, with_volume_lock, ◌>>=◌, ◌>>◌,
}
use csi_plugin.Grpc.{Error, status, plain, text, hs_error, internal}
use csi_plugin.Mount.{ensure_backing_share_mounted, unmount_backing_share_if_unused}
use csi_plugin.Node.Publish.{publish_share_backed_volume}
use csi_plugin.Types.{HsVolume, ShareResponse}
use csi_plugin.VolumeId.{share_staging_dir}

-- status.Errorf(codes.Internal, "%s", err.Error())
abbrev pub as_internal : Error → Error
as_internal e = status internal (text e)

module _ (w : World) where
  abbrev pub ask_share : String → Op (Option ShareResponse)
  ask_share name = call (get_share name) (λ h. w.get_share h name)

  -- The share is mounted for its metadata tags, and both may fail without harm.
  unfoldable pub tag_new_share : HsVolume → Op (Unit {0})
  tag_new_share volume = do
    let target = share_staging_dir <> "/metadata-mounts" <> volume.path
    finally
        (do
          attempt (
              publish_share_backed_volume w volume.path "" target volume.mount_flags false
                (("fqdn", volume.fqdn) ∷ []))
          host_logged w (set_metadata_tags (target <> "/") volume.additional_metadata_tags))
        (unmount_path w target)

  unfoldable pub created_share : HsVolume → Option ShareResponse → Op ShareResponse
  created_share volume none = raise (plain "requested share [%s] not found")
  created_share volume (some share) = do tag_new_share volume; pure share

  unfoldable pub create_backing_share : String → HsVolume → Op ShareResponse
  create_backing_share name volume = do
    map_error (call (create_share name (negsuc 0) volume) (λ h. w.create_share h name)) hs_error
    share ← map_error (ask_share name) as_internal
    created_share volume share

  unfoldable pub or_new_share : String → HsVolume → Option ShareResponse → Op ShareResponse
  or_new_share name volume (some share) = pure share
  or_new_share name volume none = create_backing_share name volume

  unfoldable pub ensure_backing_share_exists : String → HsVolume → Op ShareResponse
  ensure_backing_share_exists name volume = do
    found ← map_error (ask_share name) as_internal
    or_new_share name volume found

  -- The shared mount does not carry the volume's own mount options.
  unfoldable pub make_directory_in : ShareResponse → HsVolume → Op (Unit {0})
  make_directory_in share volume =
      finally
        (do
          ensure_backing_share_mounted w share.name [] volume.fqdn false
          host w (make_raw_folder (share_staging_dir <> share.export_path <> "/" <> volume.name)))
        (unmount_backing_share_if_unused w share.name)

  unfoldable pub ensure_nfs_directory_exists : String → HsVolume → Op (Unit {0})
  ensure_nfs_directory_exists name volume = with_volume_lock w name (do
    share ← map_error (ensure_backing_share_exists name volume) as_internal
    make_directory_in share volume)
