-- ===== src/Mount/Balance.antt =====
-- The references of an acquired and of a released backing mount, and of what is done between the two.
use csi_plugin.Base.{
  ◌<◌, Bool-cases, inl, inr, ap, ℕ, ◌+◌, ◌-◌, String, ◌<>◌, ◌==◌, eq_iff, eq_refl, ◌≡◌, refl, ◌∙◌,
  Bool, true, false, List, arith, if◌then◌else◌,
}
use csi_plugin.Driver.{
  World, Driver, Op, attempt, on_result, change, continue, finally, pure, raise, ◌>>=◌, ◌>>◌,
}
use csi_plugin.Driver.Keeps.{Keeps}
use csi_plugin.Grpc.{Error, Result, ok, err}
use csi_plugin.Types.{ShareResponse}
use csi_plugin.VolumeId.{share_staging_dir}
use csi_plugin.Mount.Refs.{refs_of, bump_backing_ref, drop_backing_ref, refs_of-bump, refs_of-drop}
use csi_plugin.Mount.Keeps.{
  ensure_backing_share_mounted-Keeps, unmount_backing_share_if_unused-Keeps,
}
use csi_plugin.Mount.{
  holding, bump, drop, ensure_backing_share_mounted, mount_first, acquire_backing_mount,
  release_backing_mount, unmount_backing_share_if_unused,
}

-- What a directory's references are.
abbrev pub refs_at : Driver → String → ℕ
refs_at d dir = refs_of dir d.mount_refs

-- One more reference if the operation succeeded.
abbrev pub taken : Result (Unit {0}) → ℕ
taken (ok _) = 1
taken (err e) = 0

module _ (w : World) (share : ShareResponse) (flags : List String) (fqdn other : String) where
  abbrev dir : String
  dir = share_staging_dir <> share.export_path

  abbrev own : Bool
  own = dir == other

  -- The mount itself takes and drops no reference.
  ensure-refs :
      (d : Driver)
      → (ensure_backing_share_mounted w share.name flags fqdn true d).1.mount_refs ≡ d.mount_refs
  ensure-refs d =
      (ensure_backing_share_mounted-Keeps w (λ d'. d'.mount_refs ≡ d.mount_refs) (λ e off d' h. h)
          (λ c d' h. h) share.name flags fqdn true).at
        d refl

  -- A mount that fails gives the reservation back.
  rollback-refs :
      (r : Result (Unit {0})) (before d : Driver)
      → d.mount_refs ≡ before.mount_refs
      → 0 < refs_at before dir
      → let out = on_result r (λ _. pure tt) (λ e. drop dir >> raise e) d in
        refs_at out.1 other + (if own then 1 else 0)
        ≡ refs_at before other + (if own then taken out.0 else 0)
  unfolding drop ◌>>=◌
  rollback-refs (ok _) before d e h = ground arith
  rollback-refs (err _) before d e h =
      ground (arith, refs_of-drop dir other d.mount_refs, eq_iff dir other)

  mount_first-refs :
      (d : Driver)
      → 0 < refs_at d dir
      → let out = mount_first w dir share.name flags fqdn d in
        refs_at out.1 other + (if own then 1 else 0)
        ≡ refs_at d other + (if own then taken out.0 else 0)
  unfolding mount_first ◌>>=◌
  mount_first-refs d h =
      let out = ensure_backing_share_mounted w share.name flags fqdn true d in
      rollback-refs out.0 d out.1 (ensure-refs d) h

  -- Acquiring takes one reference on the backing directory if it succeeds; if it fails, and on every
  -- other directory, the references are what they were.
  acquire-refs :
      (d : Driver)
      → let out = acquire_backing_mount w share flags fqdn d in
        refs_at out.1 other ≡ refs_at d other + (if own then taken out.0 else 0)
  unfolding acquire_backing_mount bump ◌>>=◌
  acquire-refs d =
      let d' = record d { mount_refs = (bump_backing_ref dir d.mount_refs).1 } in
      let own_bump = refs_of-bump dir dir d.mount_refs in
      let other_bump = refs_of-bump dir other d.mount_refs in
      elim (Bool-cases (bump_backing_ref dir d.mount_refs).0) [
        | inl first ↦ rw first (
            ground
              (arith, mount_first-refs d', own_bump, other_bump, eq_iff dir other, eq_refl dir))
        | inr later ↦ rw later (ground (arith, other_bump, eq_iff dir other))
      ]

  last-refs :
      (last : Bool) (d : Driver)
      → let out =
          (if last
              then (attempt (unmount_backing_share_if_unused w share.name) >> pure tt)
              else pure tt)
            d in
        refs_at out.1 other ≡ refs_at d other
  unfolding ◌>>=◌
  last-refs true d = ap (refs_of other) (
      (unmount_backing_share_if_unused-Keeps w (λ d'. d'.mount_refs ≡ d.mount_refs)
          (λ e off d' h. h) (λ c d' h. h) share.name).at
        d refl)
  last-refs false d = refl

  -- Releasing drops one reference on the backing directory, and none on any other.
  release-refs :
      (d : Driver)
      → refs_at (release_backing_mount w share d).1 other
        ≡ (if own then refs_at d other - 1 else refs_at d other)
  unfolding release_backing_mount drop ◌>>=◌
  release-refs d =
      last-refs (drop_backing_ref dir d.mount_refs).0
        (record d { mount_refs = (drop_backing_ref dir d.mount_refs).1 })
      ∙ (refs_of-drop dir other d.mount_refs).0

module _ (other : String) (n : ℕ) where
  -- `other` has `n` references.
  abbrev pub HasRefs : Driver → Type 0
  HasRefs d = refs_at d other ≡ n

-- Whatever the operation on the mounted share does, the reference that was taken for it is given back.
module _ (w : World) (other : String) (A : Type 0) (share : ShareResponse) (flags : List String)
    (fqdn : String) (f : Error → Error) (m : Op A) (keeps : (n : ℕ) → Keeps (HasRefs other n) m)
    (n : ℕ) where
  held-refs :
      (r : Result (Unit {0})) (d : Driver)
      → refs_at d other
        ≡ n + (if (share_staging_dir <> share.export_path) == other then taken r else 0)
      → HasRefs other n (continue (change r f) (λ _. finally m (release_backing_mount w share)) d).1
  unfolding finally
  held-refs (ok _) d h = ground (
    arith,
    (keeps (n + (if (share_staging_dir <> share.export_path) == other then 1 else 0))).at d h,
    release-refs w share flags fqdn other (m d).1,
    eq_iff (share_staging_dir <> share.export_path) other,
  )
  held-refs (err e) d h = ground (arith, eq_iff (share_staging_dir <> share.export_path) other)

  pub holding-refs : Keeps (HasRefs other n) (holding w share flags fqdn f m)
  unfolding holding ◌>>=◌
  holding-refs = record {
    at = λ d h.
        let out = acquire_backing_mount w share flags fqdn d in
        held-refs out.0 out.1 (ground (arith, acquire-refs w share flags fqdn other d, h));
  }
