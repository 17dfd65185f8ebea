-- ===== src/CsiV0/Laws.antt =====
-- What the service for version 0.3 of CSI makes of the handlers of the driver.
use csi_plugin.Base.{
  ◌⊎◌, inl, inr, String, ◌≡◌, refl, true, false, Option, none, some, List, [], ◌∷◌,
}
use csi_plugin.Base.Dict.{Dict}
use csi_plugin.Base.Int.{pos}
use csi_plugin.Driver.{World, Driver, Op, pure, lift, continue, ◌>>=◌}
use csi_plugin.Driver.Ends.{AtEnd}
use csi_plugin.Grpc.{Error, Result, ok, err, Holds, Holds-bind, Holds-any}
use csi_plugin.Params.{HsVolumeParameters, parse_vol_params, check_file_backed_min_size}
use csi_plugin.Types.{VolumeCapability, AccessType, block, mount, unset, AccessMode}
use csi_plugin.Controller.Create.{create_volume}
use csi_plugin.Controller.Create.Plan.{
  Mode, planned, plan_for, check_modes, check_size, size_of, mode_of, no_mode, next_mode,
  no_capabilities,
}
use csi_plugin.Controller.Create.Planned.{planned-Holds_of}
use csi_plugin.Controller.Validate.{validate_volume_capabilities}
use csi_plugin.CsiV0.{
  CapabilityV0, CreateRequestV0, and_convert, converted_mount, convert, convert_all, create_request,
  volume_v0, create_volume_v0, validate_volume_capabilities_v0,
}

abbrev Failed : {A : Type 0} → Result A → Type 0
Failed r = Holds (λ _. ⊥) r

abbrev IsMount : AccessType → Type 0
IsMount (mount t flags) = Unit
IsMount block = ⊥
IsMount unset = ⊥

abbrev AllMounts : List VolumeCapability → Type 0
AllMounts [] = Unit
AllMounts (c ∷ l) = IsMount c.access_type × AllMounts l

and_convert-AllMounts :
    (mode : AccessMode) (m : Option (String × List String)) (r : Result (List VolumeCapability))
    → Holds AllMounts r
    → Holds AllMounts (and_convert (converted_mount mode m) r)
and_convert-AllMounts mode none r h = tt
and_convert-AllMounts mode (some m) (err e) h = tt
and_convert-AllMounts mode (some m) (ok l) h = (tt, h)

convert_all-AllMounts : (l : List CapabilityV0) → Holds AllMounts (convert_all l)
unfolding convert_all convert
convert_all-AllMounts [] = tt
convert_all-AllMounts (c ∷ l) =
    and_convert-AllMounts c.access_mode c.mount _ (convert_all-AllMounts l)

-- A file system that has a least size.
abbrev pub IsSized : String → Type 0
IsSized fs_type = (fs_type ≡ "ext4") ⊎ (fs_type ≡ "xfs")

abbrev IsBacked : String → Mode → Type 0
IsBacked fs_type m = (m.file_backed ≡ true) × (m.fs_type ≡ fs_type)

module _ (fs_type : String) (sized : IsSized fs_type) where
  next_mode-IsBacked :
      (t : AccessType) (m : Mode) → IsMount t → IsBacked fs_type (next_mode fs_type t m)
  next_mode-IsBacked block m h = elim h [ ]
  next_mode-IsBacked unset m h = elim h [ ]
  next_mode-IsBacked (mount t flags) m h = elim sized [
    | inl e ↦ rw e (refl, refl)
    | inr e ↦ rw e (refl, refl)
  ]

  mode_of-IsBacked :
      (l : List VolumeCapability) (m : Mode)
      → AllMounts l
      → IsBacked fs_type m
      → IsBacked fs_type (mode_of fs_type l m)
  unfolding mode_of
  mode_of-IsBacked [] m h b = b
  mode_of-IsBacked (c ∷ l) m (h, hs) b =
      mode_of-IsBacked l _ hs (next_mode-IsBacked c.access_type m h)

  mode_of_some-IsBacked :
      (c : VolumeCapability) (l : List VolumeCapability)
      → AllMounts (c ∷ l)
      → IsBacked fs_type (mode_of fs_type (c ∷ l) no_mode)
  unfolding mode_of
  mode_of_some-IsBacked c l (h, hs) =
      mode_of-IsBacked l _ hs (next_mode-IsBacked c.access_type no_mode h)

  -- No size is refused as the size 0 of a missing range.
  empty-Failed : Failed (check_file_backed_min_size fs_type (pos 0))
  unfolding check_file_backed_min_size
  empty-Failed = elim sized [ inl e ↦ rw e tt | inr e ↦ rw e tt ]

-- A request that asks for no size, of a file system that has a least size.
module _ (lookup_ip : String → Option (List String)) (req : CreateRequestV0)
    (sizeless : req.capacity_range ≡ none) where
  check_size-Failed :
      (fs_type : String) (l : List VolumeCapability) (m : Mode)
      → IsSized fs_type
      → IsBacked fs_type m
      → Failed (check_size (create_request req l) m)
  unfolding check_size size_of
  check_size-Failed fs_type l m sized (b, e) =
      rw sizeless (rw b (rw e (empty-Failed fs_type sized)))

  plan_for-Failed :
      (p : HsVolumeParameters) (l : List VolumeCapability)
      → IsSized p.fs_type
      → AllMounts l
      → no_capabilities (create_request req l) ≡ false
      → Failed (plan_for (create_request req l) p (mode_of p.fs_type l no_mode))
  unfolding plan_for
  plan_for-Failed p [] sized all h = cc
  plan_for-Failed p (c ∷ l) sized all h =
      let m = mode_of p.fs_type (c ∷ l) no_mode in
      let request = create_request req (c ∷ l) in
      Holds-bind (λ _. Unit {0}) (λ _. ⊥) (check_modes m) _ (Holds-any _)
        λ _ _.
          Holds-bind (λ _. ⊥) (λ _. ⊥) (check_size request m) _
            (check_size-Failed p.fs_type (c ∷ l) m sized
              (mode_of_some-IsBacked p.fs_type sized c l all))
            λ _ f. elim f [ ]

  planned-Failed :
      (l : List VolumeCapability)
      → Holds (λ p. IsSized p.fs_type) (parse_vol_params lookup_ip req.parameters)
      → AllMounts l
      → Failed (planned lookup_ip (create_request req l))
  planned-Failed l params all =
      planned-Holds_of (λ _. ⊥) lookup_ip (create_request req l) (λ p. IsSized p.fs_type) params
        λ p sized h. plan_for-Failed p l sized all h

-- The operation fails, and has asked nothing of the Anvil or the host and changed nothing.
abbrev pub Refuses : {A : Type 0} → Op A → Driver → Type 0
Refuses {A} m d = (e : Error) × (m d ≡ (err e, d))

lifted-Refuses :
    {A B : Type 0} (r : Result A) (f : A → Op B) (d : Driver) → Failed r → Refuses (lift r >>= f) d
unfolding ◌>>=◌
lifted-Refuses (err e) f d h = (e, refl)
lifted-Refuses (ok a) f d h = elim h [ ]

first-Refuses :
    {A B : Type 0} (m : Op A) (f : A → Op B) (d : Driver) → Refuses m d → Refuses (m >>= f) d
unfolding ◌>>=◌
first-Refuses m f d (e, h) = (e, rw h refl)

module _ (w : World) (req : CreateRequestV0) (d : Driver) (sizeless : req.capacity_range ≡ none)
    (sized : Holds (λ p. IsSized p.fs_type) (parse_vol_params w.lookup_ip req.parameters)) where
  create_volume-Refuses :
      (l : List VolumeCapability) → AllMounts l → Refuses (create_volume w (create_request req l)) d
  unfolding create_volume
  create_volume-Refuses l all =
      lifted-Refuses (planned w.lookup_ip (create_request req l)) _ d
        (planned-Failed w.lookup_ip req sizeless l sized all)

  create_converted-Refuses :
      (r : Result (List VolumeCapability))
      → Holds AllMounts r
      → Refuses
          (lift r >>= λ capabilities.
            create_volume w (create_request req capabilities) >>= λ res. pure (volume_v0 res))
          d
  unfolding ◌>>=◌
  create_converted-Refuses (err e) h = (e, refl)
  create_converted-Refuses (ok l) h =
      first-Refuses (create_volume w (create_request req l)) (λ res. pure (volume_v0 res)) d
        (create_volume-Refuses l h)

-- A request of version 0.3 that gives no capacity range fails wherever the parameters ask for ext4 or
-- XFS, before anything is asked of the Anvil or the host, whatever its capabilities are: the range it
-- is converted to asks for 0 bytes, which is less than the least size of these file systems.
pub create_volume_v0-Refuses :
    (w : World) (req : CreateRequestV0) (d : Driver)
    → req.capacity_range ≡ none
    → Holds (λ p. IsSized p.fs_type) (parse_vol_params w.lookup_ip req.parameters)
    → Refuses (create_volume_v0 w req) d
unfolding create_volume_v0
create_volume_v0-Refuses w req d sizeless sized =
    create_converted-Refuses w req d sizeless sized (convert_all req.capabilities)
      (convert_all-AllMounts req.capabilities)

supported :
    {A : Type 0} (r : Result A) (d : Driver)
    → AtEnd (λ a d'. continue r (λ _. pure true) d ≡ (ok true, d')) (r, d)
supported (ok a) d = refl
supported (err e) d = tt

-- Whenever the driver validates the converted capabilities, the service of version 0.3 answers that
-- they are supported, in the same state, though the driver confirmed only some of them, or none.
validate_volume_capabilities_v0-AtEnd :
    (w : World) (id : String) (capabilities : List CapabilityV0) (l : List VolumeCapability)
    (attributes : Dict String) (d : Driver)
    → convert_all capabilities ≡ ok l
    → AtEnd
        (λ confirmed d'.
          validate_volume_capabilities_v0 w id capabilities attributes d ≡ (ok true, d'))
        (validate_volume_capabilities w id l attributes d)
unfolding validate_volume_capabilities_v0 ◌>>=◌
validate_volume_capabilities_v0-AtEnd w id capabilities l attributes d h =
    let (r, d') = validate_volume_capabilities w id l attributes d in rw h (supported r d')
