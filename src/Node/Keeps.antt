-- ===== src/Node/Keeps.antt =====
-- Invariants of private mounts and of staging and publishing: what every request keeps that changes
-- nothing on the Anvil, and what does not read the cache.
use csi_plugin.Base.{String, Bool, true, false, Option, none, some, List, ◌∷◌}
use csi_plugin.Base.Dict.{Dict}
use csi_plugin.Cache.{Cache}
use csi_plugin.Driver.{
  World, Driver, Event, OffAnvil, History, CacheData, Probe, answered, not_exist, failed, Fault,
  io_error, stale_handle, other_fault, call, last_fault,
}
use csi_plugin.Driver.Keeps.{
  Keeps, keeps_rules, Keeps-pure, Keeps-raise, Keeps-bind, Keeps-lift, Keeps-map_error,
}
use csi_plugin.Mount.Keeps.{request, sub_path-Keeps, mount_share_at_best_dataportal-Keeps}
use csi_plugin.Node.Private.{
  grow_at, grow_filesystem_privately_if_needed, leave_private, bind_through, bind_mount_read_only,
}
use csi_plugin.Node.Publish.{
  stage_in_share, stage_nested_nfs_volume, stage_nfs_volume, force_detach, after_fault, published,
  is_staged, refuse_unbacked, ensure_staged, bind_staged, publish_at, publish_share_backed_volume,
}
use csi_plugin.Grpc.{Result}
use csi_plugin.Mount.Portal.{mount_share_at_best_dataportal}
use csi_plugin.Types.{ShareResponse}

module _ (w : World) (P : Driver → Type 0)
    (keeps : (e : Event)
      → OffAnvil e
      → (d : Driver) → P d
      → P (record d { history = e ∷ d.history }))
    (keeps_cache : (c : Cache CacheData) (d : Driver) → P d → P (record d { cache = c })) where
  ask :
      {A : Type 0} (e : Event) (answer : History → Result A) → OffAnvil e → Keeps P (call e answer)
  ask = request w P keeps keeps_cache

  grow_at-Keeps : (file fs_type temporary : String) → Keeps P (grow_at w file fs_type temporary)
  unfolding grow_at
  grow_at-Keeps file fs_type temporary = search (keeps_rules, ask, tt) depth 14

  pub grow_privately-Keeps :
      (file fs_type : String) → Keeps P (grow_filesystem_privately_if_needed w file fs_type)
  unfolding grow_filesystem_privately_if_needed
  grow_privately-Keeps file fs_type = search (keeps_rules, ask, tt, grow_at-Keeps) depth 14

  leave_private-Keeps : (private target : String) → Keeps P (leave_private w private target)
  unfolding leave_private
  leave_private-Keeps private target = search (keeps_rules, ask, tt) depth 14

  bind_through-Keeps :
      (source target private : String) → Keeps P (bind_through w source target private)
  unfolding bind_through
  bind_through-Keeps source target private =
      search (keeps_rules, ask, tt, leave_private-Keeps) depth 14

  bind_read_only-Keeps : (source target : String) → Keeps P (bind_mount_read_only w source target)
  unfolding bind_mount_read_only
  bind_read_only-Keeps source target = search (keeps_rules, ask, tt, bind_through-Keeps) depth 14

  stage_in_share-Keeps :
      (volume_id staging : String) (flags : List String) (fqdn : String) (o : Option ShareResponse)
      → Keeps P (stage_in_share w volume_id staging flags fqdn o)
  unfolding stage_in_share
  stage_in_share-Keeps volume_id staging flags fqdn none = Keeps-raise _
  stage_in_share-Keeps volume_id staging flags fqdn (some share) =
      Keeps-bind _ _ (Keeps-lift _) λ sub. sub_path-Keeps w P keeps keeps_cache _ sub _ _ _

  stage_nested-Keeps :
      (name volume_id staging : String) (flags : List String) (fqdn : String)
      → Keeps P (stage_nested_nfs_volume w name volume_id staging flags fqdn)
  unfolding stage_nested_nfs_volume
  stage_nested-Keeps name volume_id staging flags fqdn =
      Keeps-bind _ _ (Keeps-map_error _ _ (ask _ _ tt)) λ share. stage_in_share-Keeps _ _ _ _ share

  best-Keeps :
      (export_path target : String) (flags : List String) (fqdn : String)
      → Keeps P (mount_share_at_best_dataportal w export_path target flags fqdn)
  best-Keeps = mount_share_at_best_dataportal-Keeps w P keeps keeps_cache

  pub stage_nfs-Keeps :
      (volume_id staging : String) (flags : List String) (context : Dict String)
      → Keeps P (stage_nfs_volume w volume_id staging flags context)
  unfolding stage_nfs_volume
  stage_nfs-Keeps volume_id staging flags context =
      search (keeps_rules, best-Keeps, stage_nested-Keeps)

  pub force_detach-Keeps : (path : String) → Keeps P (force_detach w path)
  unfolding force_detach
  force_detach-Keeps path = ask _ _ tt

  fault-Keeps : (path : String) → Keeps P (last_fault w path)
  fault-Keeps path = record { at = λ d h. h }

  after_fault-Keeps : (target : String) (f : Fault) → Keeps P (after_fault w target f)
  after_fault-Keeps target io_error = search (keeps_rules, force_detach-Keeps)
  after_fault-Keeps target stale_handle = search (keeps_rules, force_detach-Keeps)
  after_fault-Keeps target other_fault = Keeps-raise _

  published-Keeps : (target : String) (p : Probe) → Keeps P (published w target p)
  unfolding published
  published-Keeps target (answered b) = Keeps-pure b
  published-Keeps target not_exist = Keeps-pure false
  published-Keeps target failed =
      Keeps-bind _ _ (fault-Keeps target) λ f. after_fault-Keeps target f

  is_staged-Keeps : (p : Probe) → Keeps P (is_staged w p)
  unfolding is_staged
  is_staged-Keeps (answered b) = Keeps-pure b
  is_staged-Keeps not_exist = Keeps-raise _
  is_staged-Keeps failed = Keeps-raise _

  refuse-Keeps : (p : Probe) → Keeps P (refuse_unbacked w p)
  unfolding refuse_unbacked
  refuse-Keeps (answered true) = Keeps-pure tt
  refuse-Keeps (answered false) = Keeps-raise _
  refuse-Keeps not_exist = Keeps-raise _
  refuse-Keeps failed = Keeps-raise _

  ensure_staged-Keeps :
      (volume_id staging : String) (flags : List String) (context : Dict String)
      → Keeps P (ensure_staged w volume_id staging flags context)
  unfolding ensure_staged
  ensure_staged-Keeps volume_id staging flags context =
      search (keeps_rules, ask, tt, is_staged-Keeps, stage_nfs-Keeps, refuse-Keeps) depth 14

  bind_staged-Keeps :
      (staging target : String) (read_only : Bool)
      → Keeps P (bind_staged w staging target read_only)
  unfolding bind_staged
  bind_staged-Keeps staging target read_only =
      search (keeps_rules, ask, tt, bind_read_only-Keeps) depth 10

  publish_at-Keeps :
      (volume_id staging target : String) (flags : List String) (read_only : Bool)
      (context : Dict String)
      → Keeps P (publish_at w volume_id staging target flags read_only context)
  unfolding publish_at
  publish_at-Keeps volume_id staging target flags read_only context =
      search (keeps_rules, best-Keeps, ensure_staged-Keeps, bind_staged-Keeps) depth 10

  pub publish_share-Keeps :
      (volume_id staging target : String) (flags : List String) (read_only : Bool)
      (context : Dict String)
      → Keeps P (publish_share_backed_volume w volume_id staging target flags read_only context)
  unfolding publish_share_backed_volume
  publish_share-Keeps volume_id staging target flags read_only context =
      search (keeps_rules, ask, tt, published-Keeps, publish_at-Keeps) depth 14
