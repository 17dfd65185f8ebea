-- ===== src/Node/Publish.antt =====
-- Staging and publishing NFS volumes: stageNFSVolume, stageNestedNFSVolume and publishShareBackedVolume
-- of pkg/driver/node_helper.go.
use csi_plugin.Base.{
  String, ◌==◌, Bool, true, false, Option, none, some, List, [], ◌∷◌, ◌++◌, if◌then◌else◌,
}
use csi_plugin.Base.Dict.{Dict, lookup}
use csi_plugin.Driver.{
  World, Op, Probe, answered, not_exist, failed, Fault, io_error, stale_handle, other_fault,
  get_share, force_unmount, make_dir, bind_mount, pure, raise, lift, call, map_error, host,
  probe_path, last_fault, ◌>>=◌, ◌>>◌,
}
use csi_plugin.Grpc.{
  Error, Result, ok, err, status, text, internal, not_found, invalid_argument, failed_precondition,
}
use csi_plugin.Mount.Portal.{
  mount_share_at_best_dataportal, mount_share_sub_path_at_best_dataportal,
}
use csi_plugin.Node.{nested_nfs_sub_path, nested_nfs_mount_flags}
use csi_plugin.Node.Private.{bind_mount_read_only}
use csi_plugin.Params.{value_or_empty}
use csi_plugin.Types.{ShareResponse}

abbrev pub unbacked : Error
unbacked =
    status failed_precondition
      "NFS volume %s is not mounted at staging path %s; refusing to publish an unbacked directory"

-- The sub-path, with the status that stageNestedNFSVolume gives its error.
abbrev sub_path_or_status : Result String → Result String
sub_path_or_status (ok s) = ok s
sub_path_or_status (err e) = err (status invalid_argument (text e))

module _ (w : World) where
  unfoldable pub stage_in_share :
      String → String → List String → String → Option ShareResponse → Op (Unit {0})
  stage_in_share volume_id staging flags fqdn none =
      raise (status not_found "backing share %s not found")
  stage_in_share volume_id staging flags fqdn (some share) = do
    sub_path ← lift (sub_path_or_status (nested_nfs_sub_path volume_id share.export_path))
    mount_share_sub_path_at_best_dataportal w share.export_path sub_path staging
        (nested_nfs_mount_flags flags) fqdn

  unfoldable pub stage_nested_nfs_volume :
      String → String → String → List String → String → Op (Unit {0})
  stage_nested_nfs_volume backing_share_name volume_id staging flags fqdn = do
    share ←
        map_error (call (get_share backing_share_name) (λ h. w.get_share h backing_share_name))
          λ e. status internal "look up backing share %s: %v"
    stage_in_share volume_id staging flags fqdn share

  unfoldable pub stage_nfs_volume : String → String → List String → Dict String → Op (Unit {0})
  stage_nfs_volume volume_id staging flags context =
      let name = value_or_empty (lookup "mountBackingShareName" context) in
      let fqdn = value_or_empty (lookup "fqdn" context) in
      if name == ""
      then mount_share_at_best_dataportal w volume_id staging flags fqdn
      else stage_nested_nfs_volume name volume_id staging flags fqdn

  unfoldable pub force_detach : String → Op (Unit {0})
  force_detach path = call (force_unmount path) (λ h. w.unmount h path)

  abbrev pub after_fault : String → Fault → Op Bool
  after_fault target io_error = do
    map_error (force_detach target) λ e. status internal "clean stale NFS target %s: %v"
    pure false
  after_fault target stale_handle = do
    map_error (force_detach target) λ e. status internal "clean stale NFS target %s: %v"
    pure false
  after_fault target other_fault = raise (status internal "check NFS target %s: %v")

  -- Whether the volume is published already; a stale target is detached.
  unfoldable pub published : String → Probe → Op Bool
  published target (answered b) = pure b
  published target not_exist = pure false
  published target failed = do fault ← last_fault w target; after_fault target fault

  -- isMountPoint of the staging path, where any error is returned.
  unfoldable pub is_staged : Probe → Op Bool
  is_staged (answered b) = pure b
  is_staged not_exist = raise (status internal "check staged NFS volume %s at %s: %v")
  is_staged failed = raise (status internal "check staged NFS volume %s at %s: %v")

  -- checkErr != nil || !staged
  unfoldable pub refuse_unbacked : Probe → Op (Unit {0})
  refuse_unbacked (answered true) = pure tt
  refuse_unbacked (answered false) = raise unbacked
  refuse_unbacked not_exist = raise unbacked
  refuse_unbacked failed = raise unbacked

  -- A staging path with nothing mounted is staged here, as after an upgrade.
  unfoldable pub ensure_staged : String → String → List String → Dict String → Op (Unit {0})
  ensure_staged volume_id staging flags context = do
    answer ← probe_path w staging
    staged ← is_staged answer
    if staged then pure tt else do
      stage_nfs_volume volume_id staging flags context
      again ← probe_path w staging
      refuse_unbacked again

  unfoldable pub bind_staged : String → String → Bool → Op (Unit {0})
  bind_staged staging target read_only =
      map_error
        (if read_only
          then bind_mount_read_only w staging target
          else host w (bind_mount staging target))
        λ e. status internal "bind staged NFS volume %s to %s: %v"

  unfoldable pub publish_at :
      String → String → String → List String → Bool → Dict String → Op (Unit {0})
  publish_at volume_id staging target flags read_only context =
      if staging == ""
      then mount_share_at_best_dataportal w volume_id target
          (if read_only then flags ++ "ro" ∷ [] else flags) (value_or_empty (lookup "fqdn" context))
      else do ensure_staged volume_id staging flags context; bind_staged staging target read_only

  unfoldable pub publish_share_backed_volume :
      String → String → String → List String → Bool → Dict String → Op (Unit {0})
  publish_share_backed_volume volume_id staging target flags read_only context = do
    answer ← probe_path w target
    already ← published target answer
    if already then pure tt else do
      map_error (host w (make_dir target)) λ e. status internal "create NFS target %s: %v"
      publish_at volume_id staging target flags read_only context
