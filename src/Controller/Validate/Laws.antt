-- ===== src/Controller/Validate/Laws.antt =====
-- What ValidateVolumeCapabilities confirms.
use csi_plugin.Base.{String, inl, inr, Bool, List, [], ◌∷◌, Bool-cases}
use csi_plugin.Base.Dict.{Dict}
use csi_plugin.Driver.{World, Driver}
use csi_plugin.Driver.Ends.{AtEnd, Ends-bind, Ends-pure}
use csi_plugin.Types.{VolumeCapability}
use csi_plugin.Controller.Validate.{
  is_confirmed, confirmed_capabilities, validate_volume_capabilities,
}

-- `l` is `m` without some of its elements.
pub data Sublist : List VolumeCapability → List VolumeCapability → Type 0 where
  done : Sublist [] []
  keep :
      (c : VolumeCapability) (l m : List VolumeCapability) → Sublist l m → Sublist (c ∷ l) (c ∷ m)
  skip : (c : VolumeCapability) (l m : List VolumeCapability) → Sublist l m → Sublist l (c ∷ m)

confirmed-Sublist :
    (b t f : Bool) (l : List VolumeCapability) → Sublist (confirmed_capabilities b t f l) l
unfolding confirmed_capabilities
confirmed-Sublist b t f [] = done
confirmed-Sublist b t f (c ∷ l) =
    elim (Bool-cases (is_confirmed c.access_type c.access_mode b t f)) [
      | inl e ↦ rw e (keep c _ l (confirmed-Sublist b t f l))
      | inr e ↦ rw e (skip c _ l (confirmed-Sublist b t f l))
    ]

-- ValidateVolumeCapabilities confirms only capabilities that it was asked about, in their order,
-- whatever the volume is and the Anvil answers.
validate_volume_capabilities-Sublist :
    (w : World) (id : String) (l : List VolumeCapability) (params : Dict String) (d : Driver)
    → AtEnd (λ confirmed d. Sublist confirmed l) (validate_volume_capabilities w id l params d)
unfolding validate_volume_capabilities
validate_volume_capabilities-Sublist w id l params d =
    (Ends-bind _ _ λ _. Ends-bind _ _ λ _. Ends-bind _ _ λ share.
        Ends-bind _ _ λ p. Ends-bind _ _ λ file. Ends-pure _ λ d. confirmed-Sublist _ _ file l).at
      d
