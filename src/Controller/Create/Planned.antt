-- ===== src/Controller/Create/Planned.antt =====
-- What holds of every plan of CreateVolume: none clones a snapshot into a share.
use Prim.Native.String.{len}
use csi_plugin.VolumeId.{get_snapshot_name_from_snapshot_id, get_share_name_from_snapshot_id}
use csi_plugin.Base.{
  ◌⊎◌, String, ◌==◌, ◌≡◌, Bool, true, false, not, ◌&&◌, Option, none, some, List, inl, inr,
  Bool-cases, refl, is_some, ltb,
}
use csi_plugin.Grpc.{Result, ok, err, Holds, Holds-bind, Holds-any, ◌>>=◌}
use csi_plugin.Params.{HsVolumeParameters, parse_vol_params}
use csi_plugin.Types.{HsVolume}
use csi_plugin.Controller.Create.Plan.{
  CreateRequest, Mode, VolumePlan, volume_of, final_plan, plan_for, planned, check_modes,
  check_size, is_nested, mode_of, no_mode, max_name_length, no_capabilities, sourced, with_source,
}

pub no_source : (s : String) → s ≡ "" → not (s == "") ≡ false
no_source s h = rw h refl

-- What a plan says of its volume: no snapshot is its source yet, and none will be where the volume is a
-- share of its own.
abbrev pub Restores : CreateRequest → VolumePlan → Type 0
Restores req p =
    (p.volume.source_snap_path ≡ "")
    × ((is_some req.snapshot && (not p.mode.file_backed && not p.nested)) ≡ false)

-- What holds of the volume with its source.
abbrev pub Ready : VolumePlan → HsVolume → Type 0
Ready p volume = (p.nested ≡ true) ⊎ ((p.mode.file_backed ≡ true) ⊎ (volume.source_snap_path ≡ ""))

unsupported_test :
    (b file nested : Bool)
    → (b && (not file && not nested)) ≡ false
    → b ≡ true
    → (nested ≡ true) ⊎ (file ≡ true)
unsupported_test false file nested h k = cc
unsupported_test true true nested h k = inr refl
unsupported_test true false true h k = inl refl
unsupported_test true false false h k = cc

from_snapshot :
    (p : VolumePlan) (volume : HsVolume)
    → (p.nested ≡ true) ⊎ (p.mode.file_backed ≡ true)
    → Ready p volume
from_snapshot p volume (inl h) = inl h
from_snapshot p volume (inr h) = inr (inl h)

sourced-Ready :
    (p : VolumePlan) (name share : Result String)
    → (p.nested ≡ true) ⊎ (p.mode.file_backed ≡ true)
    → Holds (Ready p) (sourced name share p.volume)
sourced-Ready p (err e) share h = tt
sourced-Ready p (ok name) (err e) h = tt
sourced-Ready p (ok name) (ok share) h =
    from_snapshot p (record p.volume { source_snap_path = name; source_snap_share_name = share }) h

pub with_source-Ready :
    (p : VolumePlan) (o : Option String)
    → p.volume.source_snap_path ≡ ""
    → (is_some o && (not p.mode.file_backed && not p.nested)) ≡ false
    → Holds (Ready p) (with_source o p.volume)
unfolding with_source
with_source-Ready p none e h = inr (inr e)
with_source-Ready p (some id) e h =
    sourced-Ready p (get_snapshot_name_from_snapshot_id id) (get_share_name_from_snapshot_id id)
      (unsupported_test true p.mode.file_backed p.nested h refl)

final_plan-Restores :
    (req : CreateRequest) (p : HsVolumeParameters) (m : Mode)
    → Holds (Restores req) (final_plan req p m)
unfolding final_plan volume_of
final_plan-Restores req p m =
    elim (Bool-cases (is_some req.snapshot && (not m.file_backed && not (is_nested p m)))) [
      | inl e ↦ rw e tt
      | inr e ↦ rw e (refl, e)
    ]

-- What holds of the plan that is made of the parameters holds of the plan of the request.
module _ (Q : VolumePlan → Type 0) (lookup_ip : String → Option (List String))
    (req : CreateRequest) where
  pub planned-Holds_of :
      (P : HsVolumeParameters → Type 0)
      → Holds P (parse_vol_params lookup_ip req.parameters)
      → ((p : HsVolumeParameters)
          → P p
          → no_capabilities req ≡ false
          → Holds Q (plan_for req p (mode_of p.fs_type req.capabilities no_mode)))
      → Holds Q (planned lookup_ip req)
  unfolding planned
  planned-Holds_of P params plan = elim (Bool-cases (req.name == "")) [
    | inl e ↦ rw e tt
    | inr e ↦ rw e (elim (Bool-cases (ltb max_name_length (len req.name))) [
      | inl l ↦ rw l tt
      | inr l ↦ rw l (elim (Bool-cases (no_capabilities req)) [
        | inl c ↦ rw c tt
        | inr c ↦ rw c (
            Holds-bind P Q (parse_vol_params lookup_ip req.parameters)
              (λ p. plan_for req p (mode_of p.fs_type req.capabilities no_mode)) params
              λ p h. plan p h c)
      ])
    ])
  ]

  plan_for-Holds :
      (p : HsVolumeParameters) (m : Mode)
      → Holds Q (final_plan req p m)
      → Holds Q (plan_for req p m)
  unfolding plan_for
  plan_for-Holds p m final =
      Holds-bind (λ _. Unit {0}) Q (check_modes m)
        (λ _. check_size req m >>= λ _. final_plan req p m) (Holds-any _)
        λ _ _.
          Holds-bind (λ _. Unit {0}) Q (check_size req m) (λ _. final_plan req p m) (Holds-any _)
            λ _ _. final

  -- What holds of every plan that passes the checks holds of every plan.
  pub planned-Holds :
      ((p : HsVolumeParameters) (m : Mode) → Holds Q (final_plan req p m))
      → Holds Q (planned lookup_ip req)
  planned-Holds final =
      planned-Holds_of (λ _. Unit {0}) (Holds-any _) λ p _ _. plan_for-Holds p _ (final p _)

pub planned-Restores :
    (lookup_ip : String → Option (List String)) (req : CreateRequest)
    → Holds (Restores req) (planned lookup_ip req)
planned-Restores lookup_ip req =
    planned-Holds (Restores req) lookup_ip req λ p m. final_plan-Restores req p m
