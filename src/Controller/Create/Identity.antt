-- ===== src/Controller/Create/Identity.antt =====
-- The IDs of the volumes that CreateVolume makes.
use text.Mathlib.TextLemmas.{append_assoc}
use csi_plugin.Base.{
  String, ◌<>◌, ◌≡◌, refl, ◌∙◌, Bool, true, false, not, ◌&&◌, is_some, Bool-cases, inl, inr,
  if◌then◌else◌,
}
use csi_plugin.Base.Text.{base, dir}
use csi_plugin.Base.Text.Laws.{IsName}
use csi_plugin.Driver.{World, Driver, ◌>>=◌}
use csi_plugin.Driver.Ends.{AtEnd, Ends, Ends-pure, Ends-bind, Ends-bind_of, Ends-with_volume_lock}
use csi_plugin.Grpc.{Result, ok, Holds}
use csi_plugin.Params.{HsVolumeParameters}
use csi_plugin.Types.{HsVolume}
use csi_plugin.VolumeId.{share_path_prefix, is_file_backed_volume_id, get_volume_name_from_path}
use csi_plugin.VolumeId.Laws.{file_volume_id}
use csi_plugin.Controller.Create.{create_planned, carry_out, create_volume, response_to}
use csi_plugin.Controller.Create.Plan.{
  CreateRequest, Mode, VolumePlan, final_plan, is_nested, volume_of, planned,
}
use csi_plugin.Controller.Create.Planned.{planned-Holds}

-- The ID that a plan gives to a file-backed volume, which is never one of the nested volumes.
abbrev Identified : VolumePlan → Type 0
Identified p =
    (p.volume_id ≡ (
      if p.mode.file_backed
      then (share_path_prefix <> p.backing_share_name) <> "/" <> p.volume.name
      else share_path_prefix <> p.backing_share_name))
    × ((p.mode.file_backed && p.nested) ≡ false)

apart : (b c : Bool) → (b && (not b && c)) ≡ false
apart true c = refl
apart false c = refl

final_plan-Identified :
    (req : CreateRequest) (p : HsVolumeParameters) (m : Mode)
    → Holds Identified (final_plan req p m)
unfolding final_plan volume_of is_nested
final_plan-Identified req p m =
    elim (Bool-cases (is_some req.snapshot && (not m.file_backed && not (is_nested p m)))) [
      | inl e ↦ rw e tt
      | inr e ↦ rw e (refl, apart m.file_backed _)
    ]

found :
    (Q : VolumePlan → Type 0) (r : Result VolumePlan) (p : VolumePlan) → r ≡ ok p → Holds Q r → Q p
found Q r p e h = rw e at h

-- Making a volume of a plan that is file-backed reports the ID of the plan.
module _ (w : World) (req : CreateRequest) (p : VolumePlan) (file : p.mode.file_backed ≡ true)
    (alone : p.nested ≡ false) where
  create_planned-Ends :
      (volume : HsVolume) → Ends (λ id _. id ≡ p.volume_id) (create_planned w p volume)
  unfolding create_planned
  create_planned-Ends volume = rw alone (rw file (Ends-bind _ _ λ _. Ends-pure _ λ d. refl))

  carry_out-Ends :
      (Q : String → Type 0)
      → Q p.volume_id
      → Ends (λ answer _. Q answer.volume_id) (carry_out w req p)
  unfolding carry_out response_to
  carry_out-Ends Q q = Ends-bind _ _ λ _.
      Ends-with_volume_lock w _ _
        (Ends-bind _ _ λ volume.
          Ends-bind_of (λ id. id ≡ p.volume_id) _ _ (create_planned-Ends volume)
            λ id e. Ends-pure _ λ d. rw e q)
        λ a e d h. h

  create_volume-Ends :
      (Q : String → Type 0) (d : Driver)
      → Q p.volume_id
      → planned w.lookup_ip req ≡ ok p
      → AtEnd (λ answer _. Q answer.volume_id) (create_volume w req d)
  unfolding create_volume ◌>>=◌
  create_volume-Ends Q d q h = rw h ((carry_out-Ends Q q).at d)

alone : (p : VolumePlan) → Identified p → p.mode.file_backed ≡ true → p.nested ≡ false
alone p (e, h) file = rw file at h

recovered :
    (p : VolumePlan)
    → Identified p
    → p.mode.file_backed ≡ true
    → p.volume_id ≡ share_path_prefix <> p.backing_share_name <> "/" <> p.volume.name
recovered p (e, h) file =
    (rw file at e) ∙ append_assoc share_path_prefix p.backing_share_name ("/" <> p.volume.name)

-- Whatever the Anvil and the host answer: where what is requested is a file-backed volume, and its
-- backing share and its name are names that path.Clean keeps, the ID that CreateVolume reports is taken
-- for that of a file-backed volume, by which DeleteVolume and ControllerExpandVolume tell the two kinds
-- apart, and the volume and its backing share are recovered from it.
pub create_volume-file_volume_id :
    (w : World) (req : CreateRequest) (plan : VolumePlan) (d : Driver)
    → planned w.lookup_ip req ≡ ok plan
    → plan.mode.file_backed ≡ true
    → IsName plan.backing_share_name
    → IsName plan.volume.name
    → AtEnd
        (λ answer _.
          (is_file_backed_volume_id answer.volume_id ≡ true)
          × (get_volume_name_from_path answer.volume_id ≡ plan.volume.name)
          × (base (dir answer.volume_id) ≡ plan.backing_share_name))
        (create_volume w req d)
create_volume-file_volume_id w req plan d h file share name =
    let made =
      found Identified (planned w.lookup_ip req) plan h
        (planned-Holds Identified w.lookup_ip req λ p m. final_plan-Identified req p m) in
    create_volume-Ends w req plan file (alone plan made file)
      (λ id.
        (is_file_backed_volume_id id ≡ true)
        × (get_volume_name_from_path id ≡ plan.volume.name)
        × (base (dir id) ≡ plan.backing_share_name))
      d
      (rw (recovered plan made file)
        (file_volume_id plan.backing_share_name plan.volume.name share name))
      h
