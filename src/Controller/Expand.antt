-- ===== src/Controller/Expand.antt =====
-- ControllerExpandVolume of pkg/driver/controller.go.
pub mod Laws
use csi_plugin.Base.{
  String, ◌==◌, Bool, true, false, not, Option, none, some, if◌then◌else◌, is_some,
}
use csi_plugin.Base.Int.{ℤ, pos, ltb_ℤ, eqb_ℤ, sub64}
use csi_plugin.Base.Text.{base, dir}
use csi_plugin.Driver.{
  returned_share, World, Op, pure, raise, call, attempt, guard, on_result, ◌>>=◌, ◌>>◌, get_file,
  get_share, update_share_size,
}
use csi_plugin.Grpc.{
  Error, Result, ok, err, status, plain, value_or, not_found, invalid_argument, out_of_range,
  internal,
}
use csi_plugin.Types.{ShareResponse, File, CapacityRange}
use csi_plugin.VolumeId.{get_volume_name_from_path, is_file_backed_volume_id}

pub record ExpandResponse : Type 0 where
  pub capacity_bytes : ℤ
  pub node_expansion_required : Bool

abbrev pub requested_size : CapacityRange → ℤ
requested_size range =
    if eqb_ℤ range.limit_bytes (pos 0) then range.required_bytes else range.limit_bytes

abbrev pub volume_not_found : Error
volume_not_found = status not_found "volume does not exist"

abbrev pub out_of_capacity : Error
out_of_capacity = status out_of_range "requested capacity %d exceeds available %d"

available_on : Option ShareResponse → ℤ
available_on none = pos 0
available_on (some share) = share.available

module _ (w : World) where
  abbrev ask_share : String → Op (Option ShareResponse)
  ask_share name = call (get_share name) (λ h. w.get_share h name)

  abbrev ask_file : String → Op (Option File)
  ask_file path = call (get_file path) (λ h. w.get_file h path)

  unfoldable pub expand_file : String → ℤ → File → Op ExpandResponse
  unfolding available_on
  expand_file volume_id requested file =
      if not (ltb_ℤ file.size requested)
      then pure (record { capacity_bytes = file.size; node_expansion_required = false })
      else do
        looked_up ← attempt (ask_share (base (dir volume_id)))
        on_result looked_up
            (λ backing_share.
              if ltb_ℤ (sub64 (available_on backing_share) (sub64 requested file.size)) (pos 0)
              then raise out_of_capacity
              else pure (record { capacity_bytes = requested; node_expansion_required = true }))
            λ e. raise (plain "share not found %w")

  unfoldable pub expand_found_file : String → ℤ → Option File → Op ExpandResponse
  expand_found_file volume_id requested none = raise volume_not_found
  expand_found_file volume_id requested (some file) = expand_file volume_id requested file

  unfoldable pub expand_file_backed : String → ℤ → Op ExpandResponse
  expand_file_backed volume_id requested = do
    file ← attempt (ask_file volume_id)
    expand_found_file volume_id requested (value_or none file)

  -- What it takes for the current size.
  abbrev current_size : Result (Option ShareResponse) → ℤ
  current_size (ok (some share)) = share.available
  current_size (ok none) = pos 0
  current_size (err e) = pos 0

  unfoldable pub expand_found_share :
      String → ℤ → Result (Option ShareResponse) → Option ShareResponse → Op ExpandResponse
  expand_found_share name requested answer none = raise (status not_found "share does not exist")
  expand_found_share name requested answer (some share) = do
    updated ← attempt (
        if ltb_ℤ (current_size answer) requested
        then call (update_share_size name requested) (λ h. w.update_share_size h name requested)
        else pure tt)
    on_result updated
        (λ _. pure (record { capacity_bytes = requested; node_expansion_required = false }))
        λ e. raise (status internal "unknown internal error")

  unfoldable pub expand_share_backed : String → ℤ → Op ExpandResponse
  expand_share_backed volume_id requested = do
    let name = get_volume_name_from_path volume_id
    guard (name == "") volume_not_found
    share ← attempt (ask_share name)
    expand_found_share name requested share (returned_share w share)

  -- Whether the volume is file-backed; an ID that names no share is looked up as a file.
  unfoldable pub file_backed : String → Op Bool
  file_backed volume_id = if is_file_backed_volume_id volume_id then pure true else do
    share ← attempt (ask_share (get_volume_name_from_path volume_id))
    if is_some (returned_share w share) then pure false else do
      file ← attempt (ask_file volume_id)
      guard (not (is_some (value_or none file))) volume_not_found
      pure true

  unfoldable pub controller_expand_volume : String → CapacityRange → Op ExpandResponse
  controller_expand_volume volume_id range = do
    guard (volume_id == "") (status invalid_argument "volume does not exist")
    is_file ← file_backed volume_id
    if is_file
        then expand_file_backed volume_id (requested_size range)
        else expand_share_backed volume_id (requested_size range)
