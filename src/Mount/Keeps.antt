-- ===== src/Mount/Keeps.antt =====
-- Invariants of the operations on backing mounts: what every request keeps that changes nothing on the
-- Anvil, and what does not read the cache, is kept by the operations that take no reference; and by
-- the others if it does not read the references.
use csi_plugin.Base.{ℕ, zero, suc, String, Bool, true, false, Option, none, some, List, ◌∷◌}
use csi_plugin.Driver.{
  World, Driver, Event, OffAnvil, probe_mount, History, CacheData, Op, Probe, answered, not_exist,
  failed, call,
}
use csi_plugin.Driver.Keeps.{
  Keeps, keeps_rules, Keeps-pure, Keeps-bind, Keeps-call, Keeps-map_error, Keeps-finally,
}
use csi_plugin.Grpc.{Error, Result, ok}
use csi_plugin.Cache.{Cache}
use csi_plugin.Mount.Portal.{
  mount_share_at_best_dataportal, mount_share_sub_path_at_best_dataportal,
}
use csi_plugin.Mount.Portal.Keeps.{mount_share_sub_path-Keeps}
use csi_plugin.Types.{ShareResponse}
use csi_plugin.Mount.Classify.{MountState, healthy, absent, stale, classify_mount, decide}
use csi_plugin.Mount.Server.{foreign_backing_mount_server, check_server, loop_devices_under}
use csi_plugin.Base.Dict.{Dict}
use csi_plugin.Mount.{
  holding, bump, drop, backing_mount_refs, in_use, replace_foreign, clear_the_way,
  mount_backing_share, found_share, ensure_backing_share_mounted, mount_first,
  acquire_backing_mount, release_backing_mount, unmount_backing_share_if_unused, unmount_found,
  unmount_if_mounted,
}

module _ (w : World) (P : Driver → Type 0)
    (keeps : (e : Event)
      → OffAnvil e
      → (d : Driver) → P d
      → P (record d { history = e ∷ d.history }))
    (keeps_cache : (c : Cache CacheData) (d : Driver) → P d → P (record d { cache = c })) where
  pub request :
      {A : Type 0} (e : Event) (answer : History → Result A) → OffAnvil e → Keeps P (call e answer)
  request e answer off = Keeps-call e answer (keeps e off)

  decide-Keeps : (p : Probe) (next : Op MountState) → Keeps P next → Keeps P (decide w p next)
  unfolding decide
  decide-Keeps (answered true) next k = Keeps-pure healthy
  decide-Keeps (answered false) next k = Keeps-pure absent
  decide-Keeps not_exist next k = Keeps-pure absent
  decide-Keeps failed next k = k

  classify_mount-Keeps : (path : String) (probes : ℕ) → Keeps P (classify_mount w path probes)
  unfolding classify_mount
  classify_mount-Keeps path zero = Keeps-pure stale
  classify_mount-Keeps path (suc probes) =
      Keeps-bind (call (probe_mount path) (λ h. ok (w.probe_mount h path))) _ (request _ _ tt)
        λ answer. decide-Keeps answer _ (classify_mount-Keeps path probes)

  loop_devices_under-Keeps : (path : String) → Keeps P (loop_devices_under w path)
  unfolding loop_devices_under
  loop_devices_under-Keeps path = search (keeps_rules, request, tt)

  check_server-Keeps : (fqdn server : String) → Keeps P (check_server w fqdn server)
  unfolding check_server
  check_server-Keeps fqdn server = search (keeps_rules, request, tt)

  foreign-Keeps : (path fqdn : String) → Keeps P (foreign_backing_mount_server w path fqdn)
  unfolding foreign_backing_mount_server
  foreign-Keeps path fqdn = search (keeps_rules, request, tt, check_server-Keeps)

  pub backing_mount_refs-Keeps : (path : String) → Keeps P (backing_mount_refs path)
  unfolding backing_mount_refs
  backing_mount_refs-Keeps path = record { at = λ d h. h }

  in_use-Keeps : (dir : String) (held : Bool) → Keeps P (in_use w dir held)
  unfolding in_use
  in_use-Keeps dir held = search (keeps_rules, backing_mount_refs-Keeps, loop_devices_under-Keeps)

  replace_foreign-Keeps :
      (dir : String) (held : Bool) (server : String) → Keeps P (replace_foreign w dir held server)
  unfolding replace_foreign
  replace_foreign-Keeps dir held server = search (keeps_rules, request, tt, in_use-Keeps) depth 8

  clear_the_way-Keeps :
      (dir fqdn : String) (held : Bool) (s : MountState) → Keeps P (clear_the_way w dir fqdn held s)
  unfolding clear_the_way
  clear_the_way-Keeps dir fqdn held healthy =
      search (keeps_rules, foreign-Keeps, replace_foreign-Keeps)
  clear_the_way-Keeps dir fqdn held stale = search (keeps_rules, request, tt)
  clear_the_way-Keeps dir fqdn held absent = Keeps-pure false

  pub sub_path-Keeps :
      (export_path sub_path target : String) (flags : List String) (fqdn : String)
      → Keeps P (mount_share_sub_path_at_best_dataportal w export_path sub_path target flags fqdn)
  sub_path-Keeps export_path sub_path target flags fqdn =
      mount_share_sub_path-Keeps w P (keeps _ tt) (keeps _ tt) (keeps _ tt) (keeps _ tt)
        (λ a. keeps _ tt) keeps_cache export_path sub_path target flags fqdn
        λ export options d offered. keeps _ tt d

  pub mount_share_at_best_dataportal-Keeps :
      (export_path target : String) (flags : List String) (fqdn : String)
      → Keeps P (mount_share_at_best_dataportal w export_path target flags fqdn)
  unfolding mount_share_at_best_dataportal
  mount_share_at_best_dataportal-Keeps export_path target flags fqdn =
      sub_path-Keeps export_path "" target flags fqdn

  mount_backing_share-Keeps :
      (share : ShareResponse) (flags : List String) (fqdn : String) (held : Bool)
      → Keeps P (mount_backing_share w share flags fqdn held)
  unfolding mount_backing_share
  mount_backing_share-Keeps share flags fqdn held = search (
    keeps_rules, request, tt, classify_mount-Keeps, clear_the_way-Keeps,
    mount_share_at_best_dataportal-Keeps,
  )

  found_share-Keeps :
      (o : Option ShareResponse) (flags : List String) (fqdn : String) (held : Bool)
      → Keeps P (found_share w o flags fqdn held)
  unfolding found_share
  found_share-Keeps none flags fqdn held = Keeps-pure tt
  found_share-Keeps (some share) flags fqdn held = mount_backing_share-Keeps share flags fqdn held

  pub ensure_backing_share_mounted-Keeps :
      (name : String) (flags : List String) (fqdn : String) (held : Bool)
      → Keeps P (ensure_backing_share_mounted w name flags fqdn held)
  unfolding ensure_backing_share_mounted
  ensure_backing_share_mounted-Keeps name flags fqdn held =
      search (keeps_rules, request, tt, found_share-Keeps) depth 8

  unmount_if_mounted-Keeps : (dir : String) → Keeps P (unmount_if_mounted w dir)
  unfolding unmount_if_mounted
  unmount_if_mounted-Keeps dir =
      search (keeps_rules, request, tt, loop_devices_under-Keeps) depth 10

  unmount_found-Keeps : (o : Option ShareResponse) → Keeps P (unmount_found w o)
  unfolding unmount_found
  unmount_found-Keeps none = Keeps-pure false
  unmount_found-Keeps (some share) =
      search (keeps_rules, backing_mount_refs-Keeps, unmount_if_mounted-Keeps)

  pub unmount_backing_share_if_unused-Keeps :
      (name : String) → Keeps P (unmount_backing_share_if_unused w name)
  unfolding unmount_backing_share_if_unused
  unmount_backing_share_if_unused-Keeps name =
      search (keeps_rules, request, tt, unmount_found-Keeps)

  module _
      (keeps_refs : (refs : Dict ℕ) (d : Driver) → P d → P (record d { mount_refs = refs })) where
    bump-Keeps : (dir : String) → Keeps P (bump dir)
    unfolding bump
    bump-Keeps dir = record { at = λ d h. keeps_refs _ d h }

    drop-Keeps : (dir : String) → Keeps P (drop dir)
    unfolding drop
    drop-Keeps dir = record { at = λ d h. keeps_refs _ d h }

    mount_first-Keeps :
        (dir name : String) (flags : List String) (fqdn : String)
        → Keeps P (mount_first w dir name flags fqdn)
    unfolding mount_first
    mount_first-Keeps dir name flags fqdn =
        search (keeps_rules, ensure_backing_share_mounted-Keeps, drop-Keeps) depth 10

    acquire-Keeps :
        (share : ShareResponse) (flags : List String) (fqdn : String)
        → Keeps P (acquire_backing_mount w share flags fqdn)
    unfolding acquire_backing_mount
    acquire-Keeps share flags fqdn = search (keeps_rules, bump-Keeps, mount_first-Keeps)

    release-Keeps : (share : ShareResponse) → Keeps P (release_backing_mount w share)
    unfolding release_backing_mount
    release-Keeps share =
        search (keeps_rules, drop-Keeps, unmount_backing_share_if_unused-Keeps) depth 10

    pub holding-Keeps :
        (A : Type 0) (share : ShareResponse) (flags : List String) (fqdn : String)
        (f : Error → Error) (m : Op A)
        → Keeps P m
        → Keeps P (holding w share flags fqdn f m)
    unfolding holding
    holding-Keeps A share flags fqdn f m k =
        Keeps-bind _ _ (Keeps-map_error _ f (acquire-Keeps share flags fqdn))
          λ _. Keeps-finally m _ k (release-Keeps share)
