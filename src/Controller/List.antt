-- ===== src/Controller/List.antt =====
-- ListVolumes of pkg/driver/controller.go.
use csi_plugin.Base.{String, Bool, true, false, List, [], ◌∷◌}
use csi_plugin.Base.Int.{ℤ, pos, negsuc}
use csi_plugin.Driver.{
  World, Op, pure, raise, call, attempt, guard, on_result, ◌>>=◌, ◌>>◌, list_volumes,
}
use csi_plugin.Grpc.{status, invalid_argument, internal}
use csi_plugin.Types.{VolumeResponse}

abbrev is_negative : ℤ → Bool
is_negative (pos n) = false
is_negative (negsuc n) = true

-- An entry has the name of the share for its ID, and no published nodes.
pub record VolumeEntry : Type 0 where
  pub volume_id : String
  pub capacity_bytes : ℤ

volume_entries : List VolumeResponse → List VolumeEntry
volume_entries [] = []
volume_entries (v ∷ l) =
    record { volume_id = v.name; capacity_bytes = v.capacity } ∷ volume_entries l

module _ (w : World) where
  unfoldable pub list_all_volumes : ℤ → Op (List VolumeEntry)
  unfolding volume_entries
  list_all_volumes max_entries = do
    guard (is_negative max_entries) (
        status invalid_argument
          "[ListVolumes] Invalid max entries request %v, must not be negative ")
    answer ← attempt (call list_volumes (λ h. w.list_volumes h))
    on_result answer (λ l. pure (volume_entries l))
        λ e. raise (status internal "ListVolumes failed: %v")
