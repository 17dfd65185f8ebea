-- ===== src/Controller/Create/Handler.antt =====
-- Invariants of CreateVolume as a whole, on the lines of Create/Keeps.
use csi_plugin.Base.{ℕ, String, ◌≡◌, Option, none, some, List, [], ◌∷◌, inl, inr, Bool-cases}
use csi_plugin.Base.Int.{ℤ}
use csi_plugin.Cache.{Cache}
use csi_plugin.Driver.{
  World, Driver, Event, History, Op, CacheData, number, names, get_share, cached, call,
}
use csi_plugin.Driver.Keeps.{
  Keeps, keeps_rules, Keeps-pure, Keeps-raise, Keeps-bind, Keeps-map_error, Keeps-attempt,
  Keeps-guard, Keeps-if, Keeps-cached, Keeps-remember, Keeps-Result, Keeps-lift_bind,
  Keeps-with_volume_lock,
}
use csi_plugin.Grpc.{Error, Result, plain}
use csi_plugin.Mount.{holding}
use csi_plugin.Types.{HsVolume, ShareResponse, File}
use csi_plugin.Controller.Capacity.{get_cluster_available_capacity}
use csi_plugin.Controller.Create.Plan.{CreateRequest, VolumePlan}
use csi_plugin.Controller.Create.File.{
  grow_mounted, grow_restored_device_file, create_empty, restore_file, apply_metadata,
  create_device_file, or_new_file, ensure_device_file_exists, locked_backing_share,
  ensure_file_backed_volume_exists,
}
use csi_plugin.Controller.Create.Share.{
  create_the_share, or_create_share, ensure_share_backed_volume_exists,
}
use csi_plugin.Controller.Create.{
  free_capacity, check_capacity, objectives_on_cluster, check_cluster, create_nested,
  create_planned, carry_out, create_volume,
}
use csi_plugin.Controller.Create.Planned.{
  Restores, Ready, no_source, with_source-Ready, planned-Restores,
}
use csi_plugin.Controller.Create.Keeps.{
  Creates, OffAnvil→Creates, ask, tag_new_share-Keeps, nested-Keeps, ensure_backing-Keeps,
  grow_mounted-Keeps, metadata-Keeps, create_empty-Keeps,
}

module _ (w : World) (P : ℕ → Driver → Type 0)
    (keeps : (e : Event)
      → Creates e
      → (n : ℕ) (d : Driver) → P n d
      → P n (record d { history = e ∷ d.history }))
    (keeps_cache : (c : Cache CacheData) (n : ℕ) (d : Driver)
      → P n d
      → P n (record d { cache = c }))
    (keeps_holding : (A : Type 0) (share : ShareResponse) (flags : List String) (fqdn : String)
        (f : Error → Error) (m : Op A)
      → ((n : ℕ) → Keeps (P n) m)
      → (n : ℕ) → Keeps (P n) (holding w share flags fqdn f m)) where
  request :
      (n : ℕ) {A : Type 0} (e : Event) (answer : History → Result A)
      → Creates e
      → Keeps (P n) (call e answer)
  request n = ask w P keeps keeps_cache keeps_holding n

  grow-Keeps :
      (n : ℕ) (volume : HsVolume) (file : String) → Keeps (P n) (grow_mounted w volume file)
  grow-Keeps = grow_mounted-Keeps w P keeps keeps_cache keeps_holding

  restored-Keeps :
      (n : ℕ) (share : ShareResponse) (volume : HsVolume) (file : String)
      → Keeps (P n) (grow_restored_device_file w share volume file)
  unfolding grow_restored_device_file
  restored-Keeps n share volume file =
      Keeps-bind _ _ (Keeps-map_error _ _ (request n _ _ tt)) λ restored.
        Keeps-if _ _ _ (Keeps-pure tt)
          (keeps_holding _ share _ _ _ _ (λ n'. grow-Keeps n' volume file) n)

  restore-Keeps :
      (n : ℕ) (share : ShareResponse) (volume : HsVolume) (file : String)
      → Keeps (P n) (restore_file w share volume file)
  unfolding restore_file
  restore-Keeps n share volume file =
      Keeps-bind _ _ (Keeps-map_error _ _ (request n _ _ tt))
        λ _. restored-Keeps n share volume file

  apply-Keeps :
      (n : ℕ) (share : ShareResponse) (volume : HsVolume) (file : String)
      → Keeps (P n) (apply_metadata w share volume file)
  apply-Keeps = metadata-Keeps w P keeps keeps_cache keeps_holding

  empty-Keeps :
      (n : ℕ) (share : ShareResponse) (volume : HsVolume) (file : String)
      → Keeps (P n) (create_empty w share volume file)
  empty-Keeps = create_empty-Keeps w P keeps keeps_cache keeps_holding

  create_file-Keeps :
      (n : ℕ) (share : ShareResponse) (volume : HsVolume)
      → Keeps (P n) (create_device_file w share volume)
  unfolding create_device_file
  create_file-Keeps n share volume = Keeps-bind _ _ (Keeps-guard _ _) λ _.
      Keeps-bind _ _ (Keeps-guard _ _) λ _.
        Keeps-if _ _ _
          (Keeps-bind _ _ (restore-Keeps n share volume _) λ _. apply-Keeps n share volume _)
          (keeps_holding _ share _ _ _ _
            (λ n'.
              Keeps-bind _ _ (empty-Keeps n' share volume _) λ _. apply-Keeps n' share volume _)
            n)

  or_new_file-Keeps :
      (n : ℕ) (share : ShareResponse) (volume : HsVolume) (o : Option File)
      → Keeps (P n) (or_new_file w share volume o)
  unfolding or_new_file
  or_new_file-Keeps n share volume (some file) = Keeps-guard _ _
  or_new_file-Keeps n share volume none = create_file-Keeps n share volume

  device_file-Keeps :
      (n : ℕ) (share : ShareResponse) (volume : HsVolume)
      → Keeps (P n) (ensure_device_file_exists w share volume)
  unfolding ensure_device_file_exists
  device_file-Keeps n share volume =
      Keeps-bind _ _ (Keeps-map_error _ _ (request n _ _ tt))
        λ file. or_new_file-Keeps n share _ file

  locked-Keeps :
      (n : ℕ) (name : String) (volume : HsVolume) → Keeps (P n) (locked_backing_share w name volume)
  unfolding locked_backing_share
  locked-Keeps n name volume =
      Keeps-with_volume_lock w (λ e off. keeps e (OffAnvil→Creates e off) n) _ _
        (Keeps-attempt _ (ensure_backing-Keeps w P keeps keeps_cache keeps_holding n name volume))

  file_backed-Keeps :
      (n : ℕ) (volume : HsVolume) (name : String)
      → Keeps (P n) (ensure_file_backed_volume_exists w volume name)
  unfolding ensure_file_backed_volume_exists
  file_backed-Keeps n volume name = Keeps-bind _ _ (locked-Keeps n name volume) λ ensured.
      Keeps-Result ensured _ _ (λ share. device_file-Keeps n share volume) λ e. Keeps-raise _

  -- A share that is created is not cloned from a snapshot.
  the_share-Keeps :
      (n : ℕ) (volume : HsVolume)
      → volume.source_snap_path ≡ ""
      → Keeps (P n) (create_the_share w volume)
  unfolding create_the_share
  the_share-Keeps n volume h =
      rw (no_source volume.source_snap_path h)
        (Keeps-bind _ _ (Keeps-map_error _ _ (request n _ _ tt)) λ _. Keeps-pure _)

  or_create-Keeps :
      (n : ℕ) (volume : HsVolume) (o : Option ShareResponse)
      → volume.source_snap_path ≡ ""
      → Keeps (P n) (or_create_share w volume o)
  unfolding or_create_share
  or_create-Keeps n volume (some share) h = search keeps_rules
  or_create-Keeps n volume none h = Keeps-bind _ _ (the_share-Keeps n volume h) λ path.
      Keeps-bind _ _ (tag_new_share-Keeps w P keeps keeps_cache keeps_holding n _)
        λ _. Keeps-pure path

  share_backed-Keeps :
      (n : ℕ) (volume : HsVolume)
      → volume.source_snap_path ≡ ""
      → Keeps (P n) (ensure_share_backed_volume_exists w volume)
  unfolding ensure_share_backed_volume_exists
  share_backed-Keeps n volume h =
      Keeps-bind _ _
        (Keeps-map_error _ (λ e. plain "failed to get share: %w")
          (request n (get_share volume.name) (λ h'. w.get_share h' volume.name) tt))
        λ o. or_create-Keeps n volume o h

  create_nested-Keeps :
      (n : ℕ) (name : String) (volume : HsVolume) → Keeps (P n) (create_nested w name volume)
  unfolding create_nested
  create_nested-Keeps n name volume = Keeps-bind _ _ (Keeps-guard _ _) λ _.
      Keeps-bind _ _
        (Keeps-map_error _ _ (nested-Keeps w P keeps keeps_cache keeps_holding n name volume))
        λ _. Keeps-pure _

  create_planned-Keeps :
      (n : ℕ) (p : VolumePlan) (volume : HsVolume)
      → Ready p volume
      → Keeps (P n) (create_planned w p volume)
  unfolding create_planned
  create_planned-Keeps n p volume h = elim (Bool-cases p.nested) [
    | inl nested ↦ rw nested (create_nested-Keeps n _ volume)
    | inr apart ↦ rw apart (elim (Bool-cases p.mode.file_backed) [
      | inl file ↦ rw file (Keeps-bind _ _ (file_backed-Keeps n volume _) λ _. Keeps-pure _)
      | inr share ↦
          rw share (
            share_backed-Keeps n volume
              (elim h [ inl e ↦ cc | inr (inl e) ↦ cc | inr (inr e) ↦ e ]))
    ])
  ]

  module _ (n : ℕ) where
    free_capacity-Keeps : (o : Option CacheData) → Keeps (P n) (free_capacity w o)
    unfolding free_capacity get_cluster_available_capacity
    free_capacity-Keeps (some (number k)) = Keeps-pure k
    free_capacity-Keeps (some (names l)) = Keeps-raise _
    free_capacity-Keeps none = Keeps-map_error _ _ (
        Keeps-bind _ _ (request n _ _ tt) λ free.
          Keeps-bind _ _ (Keeps-remember w (λ c. keeps_cache c n) _ _ _) λ _. Keeps-pure free)

    cached-Keeps : (key : String) → Keeps (P n) (cached w key)
    cached-Keeps = Keeps-cached w (λ c. keeps_cache c n)

    capacity-Keeps : (size : ℤ) → Keeps (P n) (check_capacity w size)
    unfolding check_capacity
    capacity-Keeps size = search (keeps_rules, cached-Keeps, free_capacity-Keeps) depth 12

    objectives-Keeps : (o : Option CacheData) → Keeps (P n) (objectives_on_cluster w o)
    unfolding objectives_on_cluster
    objectives-Keeps (some (names l)) = Keeps-pure l
    objectives-Keeps (some (number k)) = Keeps-pure []
    objectives-Keeps none = Keeps-map_error _ _ (request n _ _ tt)

    cluster-Keeps : (p : VolumePlan) → Keeps (P n) (check_cluster w p)
    unfolding check_cluster
    cluster-Keeps p = search (keeps_rules, cached-Keeps, capacity-Keeps, objectives-Keeps) depth 12

    carry_out-Keeps :
        (req : CreateRequest) (p : VolumePlan) → Restores req p → Keeps (P n) (carry_out w req p)
    unfolding carry_out
    carry_out-Keeps req p (e, h) = Keeps-bind _ _ (cluster-Keeps p) λ _.
        Keeps-with_volume_lock w (λ ev off. keeps ev (OffAnvil→Creates ev off) n) _ _
          (Keeps-lift_bind (Ready p) _ _ (with_source-Ready p req.snapshot e h) λ volume ready.
            Keeps-bind _ _ (create_planned-Keeps n p volume ready) λ id. Keeps-pure _)

    pub create_volume-Keeps : (req : CreateRequest) → Keeps (P n) (create_volume w req)
    unfolding create_volume
    create_volume-Keeps req =
        Keeps-lift_bind (Restores req) _ _ (planned-Restores w.lookup_ip req)
          λ p h. carry_out-Keeps req p h
