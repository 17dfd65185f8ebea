-- ===== src/Controller/Create/File.antt =====
-- A new file-backed volume: ensureFileBackedVolumeExists, ensureDeviceFileExists, growRestoredDeviceFile
-- and applyObjectiveAndMetadata of pkg/driver/controller.go.
use csi_plugin.Base.{
  ℕ, zero, suc, ◌-◌, ◌*◌, String, ◌<>◌, ◌==◌, Bool, true, false, not, ◌&&◌, ◌||◌, Option, none,
  some, List, [], ◌∷◌, ltb, if◌then◌else◌,
}
use csi_plugin.Base.Int.{ℤ, pos, ltb_ℤ, eqb_ℤ}
use csi_plugin.Driver.{
  World, Op, does_file_exist, get_file, format_device, grow_raw_file, make_raw_file,
  restore_file_snapshot, set_metadata_tags, set_objectives, sleep, stat_file, pure, raise, call,
  attempt, guard, on_result, map_error, host, host_logged, with_volume_lock, ◌>>=◌, ◌>>◌,
}
use csi_plugin.Grpc.{
  Error, Result, ok, err, status, internal, already_exists, invalid_argument, not_found,
  out_of_range,
}
use csi_plugin.Mount.{holding}
use csi_plugin.Node.Private.{grow_filesystem_privately_if_needed}
use csi_plugin.Types.{HsVolume, ShareResponse, File}
use csi_plugin.VolumeId.{get_volume_name_from_path, share_staging_dir}
use csi_plugin.Controller.Create.Backing.{as_internal, ensure_backing_share_exists}

abbrev pub size_mismatch : Error
size_mismatch =
    status already_exists
      "requested volume exists, but has a different size. Existing: %d, Requested: %d"

abbrev pub exceeds_available : Error
exceeds_available = status out_of_range "requested capacity %d exceeds available %d"

abbrev is_embedded : String → Bool
is_embedded fs_type = (fs_type == "ext4") || (fs_type == "xfs")

-- restored == nil || restored.Size < hsVolume.Size
raw_growth_needed : Option File → ℤ → Bool
raw_growth_needed none size = true
raw_growth_needed (some file) size = ltb_ℤ file.size size

-- The poll ends by an answer, or at ten minutes with the last error, if any; `gave_up` is no fuel.
pub data Visible : Type 0 where
  found : Visible
  timed_out : Option Error → Visible
  gave_up : Visible

abbrev pub poll_milliseconds : ℕ
poll_milliseconds = 10 * 60 * 1000

module _ (w : World) where
  unfoldable pub grow_raw : String → ℤ → ℤ → Op (Unit {0})
  grow_raw device_file existing size =
      if ltb_ℤ existing size
      then map_error (host w (grow_raw_file device_file size))
          (λ e. status internal "could not grow restored file %s to %d bytes: %v")
      else pure tt

  unfoldable pub grow_mounted : HsVolume → String → Op (Unit {0})
  grow_mounted volume device_file = do
    existing ←
        map_error (call (stat_file device_file) (λ h. w.file_size h device_file))
          λ e. status internal "could not stat restored file %s: %v"
    grow_raw device_file existing volume.size
    if is_embedded volume.fs_type
        then map_error (grow_filesystem_privately_if_needed w device_file volume.fs_type)
            (λ e. status internal "could not grow restored %s filesystem in %s: %v")
        else pure tt

  unfoldable pub grow_restored_device_file : ShareResponse → HsVolume → String → Op (Unit {0})
  unfolding raw_growth_needed
  grow_restored_device_file share volume device_file = do
    restored ←
        map_error (call (get_file volume.path) (λ h. w.get_file h volume.path))
          λ e. status internal "could not look up restored file %s: %v"
    if not (raw_growth_needed restored volume.size) && not (is_embedded volume.fs_type)
        then pure tt
        else holding w share volume.mount_flags volume.fqdn
            (λ e. status internal "mount backing share to reconcile restored volume: %v")
            (grow_mounted volume device_file)

  -- An error costs another second.
  unfoldable pub answer_of : Result Bool → Op (Result Bool)
  answer_of (ok b) = pure (ok b)
  answer_of (err e) = do host_logged w (sleep "1s"); pure (err e)

  -- One look for the file after a sleep.
  unfoldable pub look_for_file : String → Op (Result Bool)
  look_for_file path = do
    host_logged w (sleep "backoff")
    looked_up ← attempt (call (does_file_exist path) (λ h. w.does_file_exist h path))
    answer_of looked_up

  -- What a look means: found, or not yet with the error, if any.
  abbrev pub after_look : Result Bool → Op Visible → (Option Error → Op Visible) → Op Visible
  after_look (ok true) done again = done
  after_look (ok false) done again = again none
  after_look (err e) done again = again (some e)

  unfoldable pub elapsed : ℕ → Op ℕ
  elapsed start d = (ok (w.clock d.history - start), d)

  -- for time.Since(startTime) < (10 * time.Minute), with fuel.
  unfoldable pub wait_for_file : ℕ → ℕ → String → Option Error → Op Visible
  wait_for_file zero start path last = pure gave_up
  wait_for_file (suc fuel) start path last = do
    passed ← elapsed start
    if not (ltb passed poll_milliseconds) then pure (timed_out last) else do
      looked ← look_for_file path
      after_look looked (pure found) λ e. wait_for_file fuel start path e

  unfoldable pub set_file_objectives : ShareResponse → String → List String → Op (Unit {0})
  set_file_objectives share path [] = pure tt
  set_file_objectives share path (o ∷ objectives) =
      call (set_objectives share.name (get_volume_name_from_path path) (o ∷ objectives))
        (λ h. w.set_objectives h share.name)

  -- Not found in time is the last error, or nil.
  unfoldable pub apply_when_visible : ShareResponse → HsVolume → String → Visible → Op (Unit {0})
  apply_when_visible share volume device_file found = do
    set_file_objectives share volume.path volume.objectives
    host w (set_metadata_tags device_file volume.additional_metadata_tags)
  apply_when_visible share volume device_file (timed_out (some e)) = raise e
  apply_when_visible share volume device_file (timed_out none) = pure tt
  apply_when_visible share volume device_file gave_up = pure tt

  -- One look takes 100 ms at least.
  unfoldable pub apply_objective_and_metadata : ShareResponse → HsVolume → String → Op (Unit {0})
  apply_objective_and_metadata share volume device_file = do
    start ← elapsed 0
    visible ← wait_for_file 6001 start volume.path none
    apply_when_visible share volume device_file visible

  unfoldable pub format : String → String → Op (Unit {0})
  format device_file fs_type =
      if fs_type == "" then pure tt else host w (format_device device_file fs_type)

  unfoldable pub create_empty : ShareResponse → HsVolume → String → Op (Unit {0})
  create_empty share volume device_file = do
    host w (make_raw_file device_file volume.size)
    format device_file volume.fs_type

  unfoldable pub restore_file : ShareResponse → HsVolume → String → Op (Unit {0})
  restore_file share volume device_file = do
    map_error
        (call (restore_file_snapshot volume.source_snap_path volume.path)
          (λ h. w.restore_file_snapshot h volume.source_snap_path volume.path))
        λ e. status not_found "unknown internal error"
    grow_restored_device_file share volume device_file

  abbrev targets_file : String → Bool
  targets_file target = (target == "file") || (target == "both")

  -- Step 4, whose errors are only logged.
  unfoldable pub apply_metadata : ShareResponse → HsVolume → String → Op (Unit {0})
  apply_metadata share volume device_file =
      if targets_file volume.objective_target
      then (do attempt (apply_objective_and_metadata share volume device_file); pure tt)
      else host_logged w (set_metadata_tags device_file volume.additional_metadata_tags)

  -- Steps 2 to 4; the mount of an empty file is given back when the function returns.
  unfoldable pub create_device_file : ShareResponse → HsVolume → Op (Unit {0})
  create_device_file share volume = do
    guard (not (ltb_ℤ (pos 0) volume.size))
        (status invalid_argument "capacity must be specified for block volumes")
    guard (ltb_ℤ share.available volume.size) exceeds_available
    let device_file = share_staging_dir <> share.export_path <> "/" <> volume.name
    if not (volume.source_snap_path == "")
        then (do restore_file share volume device_file; apply_metadata share volume device_file)
        else holding w share volume.mount_flags volume.fqdn (λ e. e)
            (do create_empty share volume device_file; apply_metadata share volume device_file)

  unfoldable pub or_new_file : ShareResponse → HsVolume → Option File → Op (Unit {0})
  or_new_file share volume (some file) = guard (not (eqb_ℤ file.size volume.size)) size_mismatch
  or_new_file share volume none = create_device_file share volume

  -- hsVolume.Path becomes the path of the file.
  unfoldable pub ensure_device_file_exists : ShareResponse → HsVolume → Op (Unit {0})
  ensure_device_file_exists share volume = do
    let path = share.export_path <> "/" <> volume.name
    file ← map_error (call (get_file path) (λ h. w.get_file h path)) as_internal
    or_new_file share (record volume { path = path }) file

  -- The lock on the backing share is given back before the file is made.
  unfoldable pub locked_backing_share : String → HsVolume → Op (Result ShareResponse)
  locked_backing_share name volume =
      with_volume_lock w name (attempt (ensure_backing_share_exists w name volume))

  unfoldable pub ensure_file_backed_volume_exists : HsVolume → String → Op (Unit {0})
  ensure_file_backed_volume_exists volume name = do
    ensured ← locked_backing_share name volume
    on_result ensured (λ share. ensure_device_file_exists share volume) λ e. raise (as_internal e)
