-- ===== src/Controller/Create/Share.antt =====
-- A new share-backed volume: ensureShareBackedVolumeExists of pkg/driver/controller.go. The result is
-- the path that hsVolume has in the end.
use csi_plugin.Base.{String, ◌==◌, not, Option, none, some, if◌then◌else◌}
use csi_plugin.Base.Int.{eqb_ℤ}
use csi_plugin.Base.Text.{base}
use csi_plugin.Driver.{
  World, Op, create_share, create_share_from_snapshot, get_share_snapshots, pure, raise, call,
  guard, map_error, ◌>>=◌, ◌>>◌,
}
use csi_plugin.Grpc.{Error, status, plain, hs_error, internal, not_found, aborted}
use csi_plugin.Types.{HsVolume, ShareResponse}
use csi_plugin.Controller.Create.Backing.{as_internal, ask_share, tag_new_share}
use csi_plugin.Controller.Create.File.{size_mismatch}

abbrev pub being_deleted : Error
being_deleted = status aborted "the specified volume is currently being deleted"

abbrev unknown_error : Error
unknown_error = status internal "unknown internal error"

module _ (w : World) where
  unfoldable pub clone_snapshot : HsVolume → Option ShareResponse → Op String
  clone_snapshot volume none =
      raise (status not_found "could not find the share for the source snapshot")
  clone_snapshot volume (some source) = do
    snapshots ←
        map_error
          (call (get_share_snapshots volume.source_snap_share_name)
            (λ h. w.get_share_snapshots h volume.source_snap_share_name))
          λ e. unknown_error
    guard (not (w.contains_string snapshots (base volume.source_snap_path)))
        (status not_found "could not find source snapshots")
    map_error
        (call (create_share_from_snapshot volume source.export_path)
          (λ h. w.create_share_from_snapshot h volume.name))
        as_internal

  unfoldable pub create_the_share : HsVolume → Op String
  create_the_share volume =
      if not (volume.source_snap_path == "")
      then (do
        source ← map_error (ask_share w volume.source_snap_share_name) λ e. unknown_error
        clone_snapshot volume source)
      else do
        map_error
            (call (create_share volume.name volume.size volume) (λ h. w.create_share h volume.name))
            hs_error
        pure volume.path

  unfoldable pub or_create_share : HsVolume → Option ShareResponse → Op String
  or_create_share volume (some share) = do
    guard (not (eqb_ℤ share.size volume.size)) size_mismatch
    guard (share.share_state == "REMOVED") being_deleted
    pure volume.path
  or_create_share volume none = do
    path ← create_the_share volume
    tag_new_share w (record volume { path = path })
    pure path

  unfoldable pub ensure_share_backed_volume_exists : HsVolume → Op String
  ensure_share_backed_volume_exists volume = do
    found ← map_error (ask_share w volume.name) λ e. plain "failed to get share: %w"
    or_create_share volume found
