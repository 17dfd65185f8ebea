-- ===== src/Tests/Handlers.antt =====
-- The handlers on the small Anvil.
use csi_plugin.Base.{◌≡◌, refl, true, false, none, some, [], ◌∷◌, ◌==◌, ◌+◌}
use csi_plugin.Base.Text.{has_char, base, dir}
use csi_plugin.Base.Dict.{lookup}
use csi_plugin.Cache.{get, csi_cache}
use csi_plugin.Base.Int.{pos}
use csi_plugin.Driver.{
  Driver, get_file, get_file_snapshots, get_share, get_share_snapshots, lock_volume, unlock_volume,
  update_share_size, with_snapshot_lock, finally, record_snapshot, recent_snapshot, ◌>>=◌,
}
use csi_plugin.Driver.Ends.{AtEnd}
use csi_plugin.Grpc.{ok, err}
use csi_plugin.Types.{Snapshot, CapacityRange}
use csi_plugin.VolumeId.{get_volume_name_from_path, is_file_backed_volume_id}
use csi_plugin.Mount.Balance.{refs_at}
use csi_plugin.Controller.Delete.{has_snapshots, delete_volume}
use csi_plugin.Controller.Delete.Refs.{delete_volume-refs}
use csi_plugin.Controller.Delete.Safety.{
  asked, delete_volume-file_with_snapshots, delete_volume-share_with_snapshots,
}
use csi_plugin.Controller.Snapshots.{
  create_snapshot, create_new_snapshot, file_backed_source, take_snapshot, snapshot_now,
  snapshot_and_record, has_freezer, while_frozen, new_snapshot,
}
use csi_plugin.Controller.Snapshots.Create.{create_snapshot-again, locked_once}
use csi_plugin.Controller.Snapshots.Freeze.{freezes, thaws, is_frozen, create_snapshot-thaws}
use csi_plugin.Controller.Find.{list_all_snapshots}
use csi_plugin.Controller.Find.Laws.{AllOf, list_snapshots-source}
use csi_plugin.Controller.Expand.{controller_expand_volume}
use csi_plugin.Controller.Expand.Laws.{ended, controller_expand-share}
use csi_plugin.Controller.Capacity.{cached_backing_share_available}
use csi_plugin.Controller.Capacity.Laws.{figure}
use csi_plugin.Tests.{world, driver, share, file_snapshot}

is_file : is_file_backed_volume_id "/share/vol" ≡ true
unfolding is_file_backed_volume_id
is_file = refl

is_share : is_file_backed_volume_id "/vol" ≡ false
unfolding is_file_backed_volume_id
is_share = refl

is_missing : is_file_backed_volume_id "/gone" ≡ false
unfolding is_file_backed_volume_id
is_missing = refl

delete_volume-refs_example :
    refs_at (delete_volume world "/share/vol" driver).1 "/tmp/export" ≡ refs_at driver "/tmp/export"
delete_volume-refs_example = delete_volume-refs world "/share/vol" "/tmp/export" driver

delete_volume-file_with_snapshots_example : delete_volume world "/share/vol" driver ≡ (
  err has_snapshots,
  asked (unlock_volume "/share/vol") (
      asked
        (get_file_snapshots "/share/vol")
        (asked (get_file "/share/vol") (asked (lock_volume "/share/vol") driver))),
)
delete_volume-file_with_snapshots_example =
    delete_volume-file_with_snapshots world "/share/vol" file_snapshot [] driver refl is_file refl
      refl

-- The share of a volume that is there, and of one that is not.
vol_found :
    world.get_share (lock_volume "/vol" ∷ []) (get_volume_name_from_path "/vol")
    ≡ ok (some (share "vol"))
unfolding get_volume_name_from_path
vol_found = refl

gone_missing :
    world.get_share (lock_volume "/gone" ∷ []) (get_volume_name_from_path "/gone") ≡ ok none
unfolding get_volume_name_from_path
gone_missing = refl

delete_volume-share_with_snapshots_example : delete_volume world "/vol" driver ≡ (
  err has_snapshots,
  asked (unlock_volume "/vol") (
      asked
        (get_share_snapshots "vol")
        (asked (get_share (get_volume_name_from_path "/vol")) (asked (lock_volume "/vol") driver))),
)
delete_volume-share_with_snapshots_example =
    delete_volume-share_with_snapshots world "/vol" (share "vol") "snap" [] driver refl is_share
      refl vol_found refl

abbrev taken : Snapshot
taken = new_snapshot "/share/vol" "snap" 0

abbrev created : Driver
created = (create_snapshot world "daily" "/share/vol" driver).1

created_once : create_snapshot world "daily" "/share/vol" driver ≡ (ok taken, created)
unfolding create_snapshot create_new_snapshot file_backed_source take_snapshot snapshot_now
    snapshot_and_record has_freezer while_frozen with_snapshot_lock recent_snapshot record_snapshot
    finally ◌>>=◌ is_file_backed_volume_id lookup
created_once = refl

create_snapshot-again_example :
    create_snapshot world "daily" "/share/vol" created
    ≡ (ok taken, locked_once world "daily" "/share/vol" created)
create_snapshot-again_example =
    create_snapshot-again world "daily" "/share/vol" driver created taken (refl, refl, refl)
      created_once refl

create_snapshot-thaws_example :
    (freezes "/share/vol" (create_snapshot world "daily" "/share/vol" driver).1.history
      ≡ 0 + thaws "/share/vol" (create_snapshot world "daily" "/share/vol" driver).1.history)
    × (is_frozen "/share/vol" (create_snapshot world "daily" "/share/vol" driver).1.history ≡ false)
create_snapshot-thaws_example =
    create_snapshot-thaws world "daily" "/share/vol" "/share/vol" 0 driver refl refl

no_bar_snap : has_char b'|' "snap" ≡ false
unfolding has_char
no_bar_snap = refl

no_bar_file : has_char b'|' "/share/vol" ≡ false
unfolding has_char
no_bar_file = refl

no_bar_vol : has_char b'|' "/vol" ≡ false
unfolding has_char
no_bar_vol = refl

list_snapshots-source_example :
    AtEnd (λ l d. AllOf "/share/vol" l) (list_all_snapshots world (pos 0) "" "/share/vol" driver)
list_snapshots-source_example = list_snapshots-source world (pos 0) "" "/share/vol" driver refl

abbrev fifty : CapacityRange
fifty = record { required_bytes = pos 50; limit_bytes = pos 0 }

share_of_file :
    world.get_share (get_file "/share/vol" ∷ []) (base (dir "/share/vol"))
    ≡ ok (some (share "share"))
unfolding base dir
share_of_file = refl

vol_named : (get_volume_name_from_path "/vol" == "") ≡ false
unfolding get_volume_name_from_path
vol_named = refl

-- A share of 100 bytes, of which 40 are free, is set to 50.
controller_expand-share_example : controller_expand_volume world "/vol" fifty driver ≡ (
  ended 50 (ok tt),
  record driver {
    history =
        update_share_size (get_volume_name_from_path "/vol") (pos 50)
        ∷ get_share (get_volume_name_from_path "/vol")
        ∷ get_share (get_volume_name_from_path "/vol")
        ∷ [];
  },
)
controller_expand-share_example =
    controller_expand-share world "/vol" fifty (share "vol") (share "vol") 40 50 driver refl
      vol_named is_share refl refl vol_found vol_found

not_cached : figure world "share" driver ≡ none
unfolding get csi_cache lookup
not_cached = refl

abbrev fetched_once : Driver
fetched_once = (cached_backing_share_available world "share" driver).1
