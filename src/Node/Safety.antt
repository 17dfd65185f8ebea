-- ===== src/Node/Safety.antt =====
-- What publishing an NFS volume never does.
use csi_plugin.Base.{String, ◌==◌, ◌≡◌, refl, Bool, true, false, List, ◌∷◌, arith, if◌then◌else◌}
use csi_plugin.Base.Dict.{Dict}
use csi_plugin.Driver.{
  World, Driver, Event, History, Op, Probe, answered, not_exist, failed, bind_mount, make_temp_dir,
  remount_read_only, remove_file, unmount, probe_mount, finally, on_failure, undo, continue, pure,
  raise, ◌>>=◌,
}
use csi_plugin.Grpc.{Error, Result, ok, err}
use csi_plugin.Node.Private.{bind_mount_read_only, bind_through, leave_private}
use csi_plugin.Node.Publish.{
  ensure_staged, is_staged, publish_at, refuse_unbacked, stage_nfs_volume,
}

-- A probe that found no mount.
abbrev pub IsUnmounted : Probe → Type 0
IsUnmounted (answered true) = ⊥
IsUnmounted (answered false) = Unit
IsUnmounted not_exist = Unit
IsUnmounted failed = Unit

abbrev Failed : {A : Type 0} → Result A → Type 0
Failed (ok a) = ⊥
Failed (err e) = Unit

module _ (w : World) (volume_id staging : String) (flags : List String) (context : Dict String)
    (unmounted : (h : History) → IsUnmounted (w.probe_mount h staging)) where
  refuse-Failed : (p : Probe) (d : Driver) → IsUnmounted p → Failed (refuse_unbacked w p d).0
  unfolding refuse_unbacked
  refuse-Failed (answered true) d h = h
  refuse-Failed (answered false) d h = tt
  refuse-Failed not_exist d h = tt
  refuse-Failed failed d h = tt

  after_staging :
      (r : Result (Unit {0})) (d : Driver)
      → Failed (continue r (λ _. csi_plugin.Driver.probe_path w staging >>= refuse_unbacked w) d).0
  unfolding ◌>>=◌
  after_staging (ok _) d =
      refuse-Failed (w.probe_mount d.history staging)
        (record d { history = probe_mount staging ∷ d.history }) (unmounted d.history)
  after_staging (err e) d = tt

  after_probe :
      (p : Probe) (d : Driver)
      → IsUnmounted p
      → Failed
          ((is_staged w p >>= λ staged.
              if staged
              then pure tt
              else (stage_nfs_volume w volume_id staging flags context >>= λ _.
                  csi_plugin.Driver.probe_path w staging >>= refuse_unbacked w))
            d).0
  unfolding is_staged ◌>>=◌
  after_probe (answered true) d h = absurd h
  after_probe (answered false) d h =
      after_staging (stage_nfs_volume w volume_id staging flags context d).0
        (stage_nfs_volume w volume_id staging flags context d).1
  after_probe not_exist d h = tt
  after_probe failed d h = tt

  ensure_staged-Failed : (d : Driver) → Failed (ensure_staged w volume_id staging flags context d).0
  unfolding ensure_staged ◌>>=◌
  ensure_staged-Failed d =
      after_probe (w.probe_mount d.history staging)
        (record d { history = probe_mount staging ∷ d.history }) (unmounted d.history)

  stops :
      (r : Result (Unit {0})) (d : Driver) (next : Op (Unit {0}))
      → Failed r
      → (e : Error) × (continue r (λ _. next) d ≡ (err e, d))
  stops (ok _) d next h = absurd h
  stops (err e) d next h = (e, refl)

  -- A staging path with nothing mounted is never bound into a pod: if no probe finds a mount at the
  -- staging path, not even after the volume was staged there, then publishing from it fails, and it
  -- has asked for nothing but what staging the volume asks for.
  pub publish_at-unbacked :
      (target : String) (read_only : Bool) (d : Driver)
      → (staging == "") ≡ false
      → (e : Error) × (publish_at w volume_id staging target flags read_only context d
          ≡ (err e, (ensure_staged w volume_id staging flags context d).1))
  unfolding publish_at ◌>>=◌
  publish_at-unbacked target read_only d h = rw h (
      stops (ensure_staged w volume_id staging flags context d).0
        (ensure_staged w volume_id staging flags context d).1 _ (ensure_staged-Failed d))

module _ (w : World) (source target private : String) (d : Driver)
    (made : w.make_temp_dir d.history ≡ ok private) where
  -- What a read-only bind asks for when nothing fails.
  abbrev pub bound_read_only : History
  bound_read_only =
      remove_file private
      ∷ unmount private
      ∷ bind_mount private target
      ∷ remount_read_only private
      ∷ bind_mount source private
      ∷ make_temp_dir ".hscsi-bind-"
      ∷ d.history

  -- A read-only bind that succeeds went through a private bind that was made read-only before it was
  -- bound to the target, and that was unmounted and removed then: where the temporary directory is
  -- made, success means that exactly these requests were made, in this order.
  pub bind_mount_read_only-private :
      (bind_mount_read_only w source target d).0 ≡ ok tt
      → (bind_mount_read_only w source target d).1.history ≡ bound_read_only
  unfolding bind_mount_read_only bind_through leave_private finally on_failure ◌>>=◌
  bind_mount_read_only-private h = ground arith
