-- ===== src/Controller/Delete/Refs.antt =====
-- DeleteVolume and the references of the backing mounts.
use csi_plugin.Base.{ℕ, String, ◌≡◌, refl, Bool, true, false, Option, none, some, List, [], ◌∷◌}
use csi_plugin.Driver.{
  World, Driver, Event, History, Op, Probe, answered, not_exist, failed, call, attempt, on_result,
  pure, raise, cached, ◌>>=◌,
}
use csi_plugin.Driver.Keeps.{
  Keeps, keeps_rules, Keeps-pure, Keeps-raise, Keeps-bind, Keeps-call, Keeps-with_volume_lock,
  Keeps-cached, Keeps-attempt, Keeps-guard,
}
use csi_plugin.Grpc.{Result, ok, err, status, text, internal}
use csi_plugin.Types.{ShareResponse, FileSnapshot}
use csi_plugin.Mount.Balance.{refs_at, HasRefs, holding-refs}
use csi_plugin.Controller.Delete.{
  remove_stated, delete_file, with_backing_mount, found_backing_share, delete_existing_file,
  delete_if_free, delete_file_backed_volume, delete_share_if_free, delete_share_backed_volume,
  delete_found_share, delete_volume,
}

module _ (other : String) (n : ℕ) where
  request :
      {A : Type 0} (e : Event) (answer : History → Result A)
      → Keeps (HasRefs other n) (call e answer)
  request e answer = Keeps-call e answer λ d h. h

with_backing_mount-Keeps :
    (w : World) (share : ShareResponse) (other : String) {A : Type 0} (m : Op A)
    → ((n : ℕ) → Keeps (HasRefs other n) m)
    → (n : ℕ) → Keeps (HasRefs other n) (with_backing_mount w share m)
unfolding with_backing_mount
with_backing_mount-Keeps w share other m k n = holding-refs w other _ share [] "" _ m k n

module _ (w : World) (other : String) (n : ℕ) where
  abbrev K : {A : Type 0} → Op A → Type 0
  K m = Keeps (HasRefs other n) m

  remove_stated-Keeps : (pathname : String) (p : Probe) → K (remove_stated w pathname p)
  unfolding remove_stated
  remove_stated-Keeps pathname (answered b) = request other n _ _
  remove_stated-Keeps pathname not_exist = Keeps-pure tt
  remove_stated-Keeps pathname failed = Keeps-raise _

  cached-Keeps : (key : String) → K (cached w key)
  cached-Keeps = Keeps-cached w (λ c d h. h)

  delete_file-Keeps : (pathname : String) → K (delete_file w pathname)
  unfolding delete_file
  delete_file-Keeps pathname =
      search (keeps_rules, request other n, remove_stated-Keeps, cached-Keeps) depth 10

  found_backing_share-Keeps : (r : Result (Option ShareResponse)) → K (found_backing_share w r)
  unfolding found_backing_share
  found_backing_share-Keeps (ok (some share)) = Keeps-pure share
  found_backing_share-Keeps (ok none) = Keeps-raise _
  found_backing_share-Keeps (err e) = Keeps-raise _

module _ (w : World) (other : String) (n : ℕ) where
  delete_on_share-Keeps :
      (share : ShareResponse) (path : String)
      → (n : ℕ)
      → Keeps (HasRefs other n) (do
        deleted ← attempt (delete_file w path)
        on_result deleted pure λ e. raise (status internal (text e)))
  delete_on_share-Keeps share path n = search (keeps_rules, delete_file-Keeps) depth 8

  delete_existing_file-Keeps :
      (filepath : String) → Keeps (HasRefs other n) (delete_existing_file w filepath)
  unfolding delete_existing_file
  delete_existing_file-Keeps filepath =
      Keeps-with_volume_lock w (λ e off d h. h) _ _
        (Keeps-bind _ _ (Keeps-attempt _ (request other n _ _)) λ looked_up.
          Keeps-bind _ _ (found_backing_share-Keeps w other n looked_up)
            λ share. with_backing_mount-Keeps w share other _ (delete_on_share-Keeps share _) n)

  delete_if_free-Keeps :
      (exists : Bool) (snaps : List FileSnapshot) (filepath : String)
      → Keeps (HasRefs other n) (delete_if_free w exists snaps filepath)
  unfolding delete_if_free
  delete_if_free-Keeps exists (snap ∷ snaps) filepath = Keeps-raise _
  delete_if_free-Keeps true [] filepath = delete_existing_file-Keeps filepath
  delete_if_free-Keeps false [] filepath = Keeps-pure tt

  delete_file_backed-Keeps :
      (filepath : String) → Keeps (HasRefs other n) (delete_file_backed_volume w filepath)
  unfolding delete_file_backed_volume
  delete_file_backed-Keeps filepath =
      search (keeps_rules, request other n, delete_if_free-Keeps) depth 10

  delete_share_if_free-Keeps :
      (snaps : List String) (share : ShareResponse)
      → Keeps (HasRefs other n) (delete_share_if_free w snaps share)
  unfolding delete_share_if_free
  delete_share_if_free-Keeps (snap ∷ snaps) share = Keeps-raise _
  delete_share_if_free-Keeps [] share = search (keeps_rules, request other n) depth 8

  delete_share_backed-Keeps :
      (share : ShareResponse) → Keeps (HasRefs other n) (delete_share_backed_volume w share)
  unfolding delete_share_backed_volume
  delete_share_backed-Keeps share =
      search (keeps_rules, request other n, delete_share_if_free-Keeps) depth 8

  delete_found-Keeps :
      (r : Result (Option ShareResponse)) → Keeps (HasRefs other n) (delete_found_share w r)
  unfolding delete_found_share
  delete_found-Keeps (ok (some share)) = delete_share_backed-Keeps share
  delete_found-Keeps (ok none) = Keeps-pure tt
  delete_found-Keeps (err e) = Keeps-raise _

  delete_volume-Keeps : (volume_id : String) → Keeps (HasRefs other n) (delete_volume w volume_id)
  unfolding delete_volume
  delete_volume-Keeps volume_id = Keeps-bind _ _ (Keeps-guard _ _) λ _.
      Keeps-with_volume_lock w (λ e off d h. h) _ _
        (search (keeps_rules, request other n, delete_file_backed-Keeps, delete_found-Keeps) depth
          10)

-- DeleteVolume gives back every reference on a backing mount that it takes: whatever the Anvil and the
-- host answer, and whether it succeeds or fails, each directory has as many references afterwards as
-- before.
pub delete_volume-refs :
    (w : World) (volume_id other : String) (d : Driver)
    → refs_at (delete_volume w volume_id d).1 other ≡ refs_at d other
delete_volume-refs w volume_id other d =
    (delete_volume-Keeps w other (refs_at d other) volume_id).at d refl
