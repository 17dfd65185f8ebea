-- ===== src/Controller/Create/Keeps.antt =====
-- Invariants of CreateVolume, for a family of predicates each of which an operation under a backing
-- mount keeps if it keeps all of them.
use csi_plugin.Base.{ℕ, zero, suc, String, Bool, true, false, Option, none, some, List, [], ◌∷◌}
use csi_plugin.Cache.{Cache}
use csi_plugin.Driver.{
  World, Driver, Event, OffAnvil, History, Op, CacheData, create_share, restore_file_snapshot,
  set_objectives, call, cached,
}
use csi_plugin.Driver.Keeps.{
  Keeps, keeps_rules, Keeps-pure, Keeps-raise, Keeps-bind, Keeps-call, Keeps-if, Keeps-cached,
  Keeps-with_volume_lock,
}
use csi_plugin.Grpc.{Error, Result, ok, err}
use csi_plugin.Mount.{holding, ensure_backing_share_mounted, unmount_backing_share_if_unused}
use csi_plugin.Base.Dict.{Dict}
use csi_plugin.Base.Int.{ℤ}
use csi_plugin.Mount.Keeps.{
  ensure_backing_share_mounted-Keeps, unmount_backing_share_if_unused-Keeps,
}
use csi_plugin.Node.Keeps.{publish_share-Keeps, grow_privately-Keeps}
use csi_plugin.Node.Private.{grow_filesystem_privately_if_needed}
use csi_plugin.Node.Publish.{publish_share_backed_volume}
use csi_plugin.Types.{HsVolume, ShareResponse}
use csi_plugin.Controller.Create.Backing.{
  tag_new_share, created_share, create_backing_share, or_new_share, ensure_backing_share_exists,
  make_directory_in, ensure_nfs_directory_exists,
}
use csi_plugin.Controller.Create.File.{
  answer_of, grow_raw, grow_mounted, look_for_file, after_look, elapsed, Visible, found, timed_out,
  gave_up, wait_for_file, set_file_objectives, apply_when_visible, apply_objective_and_metadata,
  format, create_empty, apply_metadata,
}

-- What CreateVolume may ask for.
abbrev pub Creates : Event → Type 0
Creates (create_share name size volume) = Unit
Creates (restore_file_snapshot snapshot path) = Unit
Creates (set_objectives share path objectives) = Unit
Creates e = OffAnvil e

pub OffAnvil→Creates : (e : Event) → OffAnvil e → Creates e
OffAnvil→Creates (create_share name size volume) h = tt
OffAnvil→Creates (restore_file_snapshot snapshot path) h = tt
OffAnvil→Creates (set_objectives share path objectives) h = tt
OffAnvil→Creates e h = h

module _ (w : World) (P : ℕ → Driver → Type 0)
    (keeps : (e : Event)
      → Creates e
      → (n : ℕ) (d : Driver) → P n d
      → P n (record d { history = e ∷ d.history }))
    (keeps_cache : (c : Cache CacheData) (n : ℕ) (d : Driver)
      → P n d
      → P n (record d { cache = c }))
    (keeps_holding : (A : Type 0) (share : ShareResponse) (flags : List String) (fqdn : String)
        (f : Error → Error) (m : Op A)
      → ((n : ℕ) → Keeps (P n) m)
      → (n : ℕ) → Keeps (P n) (holding w share flags fqdn f m)) where
  off :
      (n : ℕ) (e : Event)
      → OffAnvil e
      → (d : Driver) → P n d
      → P n (record d { history = e ∷ d.history })
  off n e h d = keeps e (OffAnvil→Creates e h) n d

  -- The facts on `P n`, for one `n`.
  module _ (n : ℕ) where
    pub ask :
        {A : Type 0} (e : Event) (answer : History → Result A)
        → Creates e
        → Keeps (P n) (call e answer)
    ask e answer h = Keeps-call e answer (keeps e h n)

    pub cache-Keeps : (key : String) → Keeps (P n) (cached w key)
    cache-Keeps = Keeps-cached w (λ c. keeps_cache c n)

    publish-Keeps :
        (path target : String) (flags : List String) (context : Dict String)
        → Keeps (P n) (publish_share_backed_volume w path "" target flags false context)
    publish-Keeps path target flags context =
        publish_share-Keeps w (P n) (off n) (λ c. keeps_cache c n) path "" target flags false
          context

    pub tag_new_share-Keeps : (volume : HsVolume) → Keeps (P n) (tag_new_share w volume)
    unfolding tag_new_share
    tag_new_share-Keeps volume = search (keeps_rules, ask, tt, publish-Keeps) depth 14

    created_share-Keeps :
        (volume : HsVolume) (o : Option ShareResponse) → Keeps (P n) (created_share w volume o)
    unfolding created_share
    created_share-Keeps volume none = Keeps-raise _
    created_share-Keeps volume (some share) =
        Keeps-bind _ _ (tag_new_share-Keeps volume) λ _. Keeps-pure share

    create_backing-Keeps :
        (name : String) (volume : HsVolume) → Keeps (P n) (create_backing_share w name volume)
    unfolding create_backing_share
    create_backing-Keeps name volume = search (keeps_rules, ask, tt, created_share-Keeps) depth 14

    or_new_share-Keeps :
        (name : String) (volume : HsVolume) (o : Option ShareResponse)
        → Keeps (P n) (or_new_share w name volume o)
    unfolding or_new_share
    or_new_share-Keeps name volume (some share) = Keeps-pure share
    or_new_share-Keeps name volume none = create_backing-Keeps name volume

    pub ensure_backing-Keeps :
        (name : String) (volume : HsVolume)
        → Keeps (P n) (ensure_backing_share_exists w name volume)
    unfolding ensure_backing_share_exists
    ensure_backing-Keeps name volume = search (keeps_rules, ask, tt, or_new_share-Keeps) depth 14

    mounted-Keeps :
        (name : String) (flags : List String) (fqdn : String) (held : Bool)
        → Keeps (P n) (ensure_backing_share_mounted w name flags fqdn held)
    mounted-Keeps = ensure_backing_share_mounted-Keeps w (P n) (off n) (λ c. keeps_cache c n)

    unused-Keeps : (name : String) → Keeps (P n) (unmount_backing_share_if_unused w name)
    unused-Keeps = unmount_backing_share_if_unused-Keeps w (P n) (off n) (λ c. keeps_cache c n)

    make_directory-Keeps :
        (share : ShareResponse) (volume : HsVolume) → Keeps (P n) (make_directory_in w share volume)
    unfolding make_directory_in
    make_directory-Keeps share volume =
        search (keeps_rules, ask, tt, mounted-Keeps, unused-Keeps) depth 14

    pub nested-Keeps :
        (name : String) (volume : HsVolume)
        → Keeps (P n) (ensure_nfs_directory_exists w name volume)
    unfolding ensure_nfs_directory_exists
    nested-Keeps name volume =
        Keeps-with_volume_lock w (off n) _ _
          (search (keeps_rules, ensure_backing-Keeps, make_directory-Keeps) depth 10)

    grow_private-Keeps :
        (file fs_type : String) → Keeps (P n) (grow_filesystem_privately_if_needed w file fs_type)
    grow_private-Keeps = grow_privately-Keeps w (P n) (off n) (λ c. keeps_cache c n)

    grow_raw-Keeps : (file : String) (a b : ℤ) → Keeps (P n) (grow_raw w file a b)
    unfolding grow_raw
    grow_raw-Keeps file a b = search (keeps_rules, ask, tt) depth 10

    pub grow_mounted-Keeps :
        (volume : HsVolume) (file : String) → Keeps (P n) (grow_mounted w volume file)
    unfolding grow_mounted
    grow_mounted-Keeps volume file =
        search (keeps_rules, ask, tt, grow_raw-Keeps, grow_private-Keeps) depth 14

    answer-Keeps : (r : Result Bool) → Keeps (P n) (answer_of w r)
    unfolding answer_of
    answer-Keeps (ok b) = Keeps-pure (ok b)
    answer-Keeps (err e) = search (keeps_rules, ask, tt) depth 10

    look-Keeps : (path : String) → Keeps (P n) (look_for_file w path)
    unfolding look_for_file
    look-Keeps path = search (keeps_rules, ask, tt, answer-Keeps) depth 14

    elapsed-Keeps : (start : ℕ) → Keeps (P n) (elapsed w start)
    unfolding elapsed
    elapsed-Keeps start = record { at = λ d h. h }

    after_look-Keeps :
        (r : Result Bool) (done : Op Visible) (again : Option Error → Op Visible)
        → Keeps (P n) done
        → ((e : Option Error) → Keeps (P n) (again e))
        → Keeps (P n) (after_look w r done again)
    after_look-Keeps (ok true) done again kd ka = kd
    after_look-Keeps (ok false) done again kd ka = ka none
    after_look-Keeps (err e) done again kd ka = ka (some e)

    wait-Keeps :
        (fuel start : ℕ) (path : String) (last : Option Error)
        → Keeps (P n) (wait_for_file w fuel start path last)
    unfolding wait_for_file
    wait-Keeps zero start path last = Keeps-pure gave_up
    wait-Keeps (suc fuel) start path last = Keeps-bind _ _ (elapsed-Keeps start) λ passed.
        Keeps-if _ _ _ (Keeps-pure _) (
          Keeps-bind _ _ (look-Keeps path) λ looked.
            after_look-Keeps looked _ _ (Keeps-pure found) λ e. wait-Keeps fuel start path e)

    objectives-Keeps :
        (share : ShareResponse) (path : String) (l : List String)
        → Keeps (P n) (set_file_objectives w share path l)
    unfolding set_file_objectives
    objectives-Keeps share path [] = Keeps-pure tt
    objectives-Keeps share path (o ∷ l) = ask _ _ tt

    visible-Keeps :
        (share : ShareResponse) (volume : HsVolume) (file : String) (v : Visible)
        → Keeps (P n) (apply_when_visible w share volume file v)
    unfolding apply_when_visible
    visible-Keeps share volume file found = search (keeps_rules, ask, tt, objectives-Keeps)
    visible-Keeps share volume file (timed_out (some e)) = Keeps-raise e
    visible-Keeps share volume file (timed_out none) = Keeps-pure tt
    visible-Keeps share volume file gave_up = Keeps-pure tt

    apply_both-Keeps :
        (share : ShareResponse) (volume : HsVolume) (file : String)
        → Keeps (P n) (apply_objective_and_metadata w share volume file)
    unfolding apply_objective_and_metadata
    apply_both-Keeps share volume file =
        Keeps-bind _ _ (elapsed-Keeps 0)
          λ start. Keeps-bind _ _ (wait-Keeps _ start _ none) λ v. visible-Keeps share volume file v

    pub metadata-Keeps :
        (share : ShareResponse) (volume : HsVolume) (file : String)
        → Keeps (P n) (apply_metadata w share volume file)
    unfolding apply_metadata
    metadata-Keeps share volume file = search (keeps_rules, ask, tt, apply_both-Keeps) depth 10

    format-Keeps : (file fs_type : String) → Keeps (P n) (format w file fs_type)
    unfolding format
    format-Keeps file fs_type = search (keeps_rules, ask, tt)

    pub create_empty-Keeps :
        (share : ShareResponse) (volume : HsVolume) (file : String)
        → Keeps (P n) (create_empty w share volume file)
    unfolding create_empty
    create_empty-Keeps share volume file = search (keeps_rules, ask, tt, format-Keeps) depth 10
