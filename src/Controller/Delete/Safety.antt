-- ===== src/Controller/Delete/Safety.antt =====
-- What DeleteVolume asks for, and what it answers, where it must not delete.
use csi_plugin.Base.{String, ◌==◌, ◌≡◌, refl, true, false, none, some, List, ◌∷◌}
use csi_plugin.Driver.{
  World, Driver, Event, get_file, get_file_snapshots, get_share, get_share_snapshots, lock_volume,
  unlock_volume, finally, with_volume_lock, ◌>>=◌,
}
use csi_plugin.Grpc.{ok, err}
use csi_plugin.Types.{ShareResponse, FileSnapshot}
use csi_plugin.VolumeId.{get_volume_name_from_path, is_file_backed_volume_id}
use csi_plugin.Controller.Delete.{
  has_snapshots, delete_if_free, delete_file_backed_volume, delete_share_if_free,
  delete_share_backed_volume, delete_found_share, delete_volume,
}

-- The driver after one more request.
abbrev pub asked : Event → Driver → Driver
asked e d = record d { history = e ∷ d.history }

module _ (w : World) where
  -- The lock on the volume was had.
  abbrev pub Locks : String → Driver → Type 0
  Locks volume_id d = w.lock d.history (lock_volume volume_id) ≡ true

  file_with_snapshots :
      (path : String) (s : FileSnapshot) (rest : List FileSnapshot) (d : Driver)
      → w.get_file_snapshots (get_file path ∷ d.history) path ≡ ok (s ∷ rest)
      → delete_file_backed_volume w path d
        ≡ (err has_snapshots, asked (get_file_snapshots path) (asked (get_file path) d))
  unfolding delete_file_backed_volume delete_if_free ◌>>=◌
  file_with_snapshots path s rest d h = rw h refl

  -- A file-backed volume that has a snapshot is not deleted: if the lock is had and the snapshots of the
  -- file are listed, and there is one, then DeleteVolume fails with FailedPrecondition, and it has
  -- asked for nothing but the file, its snapshots and the lock, which it has given back.
  pub delete_volume-file_with_snapshots :
      (volume_id : String) (s : FileSnapshot) (rest : List FileSnapshot) (d : Driver)
      → (volume_id == "") ≡ false
      → is_file_backed_volume_id volume_id ≡ true
      → Locks volume_id d
      → w.get_file_snapshots (get_file volume_id ∷ lock_volume volume_id ∷ d.history) volume_id
        ≡ ok (s ∷ rest)
      → delete_volume w volume_id d ≡ (
        err has_snapshots,
        asked (unlock_volume volume_id) (
            asked
              (get_file_snapshots volume_id)
              (asked (get_file volume_id) (asked (lock_volume volume_id) d))),
      )
  unfolding delete_volume with_volume_lock finally ◌>>=◌
  delete_volume-file_with_snapshots volume_id s rest d hn hf hl h = rw hn (
      rw hl (
        rw hf (rw (file_with_snapshots volume_id s rest (asked (lock_volume volume_id) d) h) refl)))

  share_with_snapshots :
      (share : ShareResponse) (s : String) (rest : List String) (d : Driver)
      → w.get_share_snapshots d.history share.name ≡ ok (s ∷ rest)
      → delete_share_backed_volume w share d
        ≡ (err has_snapshots, asked (get_share_snapshots share.name) d)
  unfolding delete_share_backed_volume delete_share_if_free ◌>>=◌
  share_with_snapshots share s rest d h = rw h refl

  -- A share-backed volume that has a snapshot is not deleted: if the lock is had, the share is there,
  -- its snapshots are listed and there is one, then DeleteVolume fails with FailedPrecondition, and it
  -- has asked for nothing but the share, its snapshots and the lock, which it has given back.
  pub delete_volume-share_with_snapshots :
      (volume_id : String) (share : ShareResponse) (s : String) (rest : List String) (d : Driver)
      → (volume_id == "") ≡ false
      → is_file_backed_volume_id volume_id ≡ false
      → Locks volume_id d
      → w.get_share (lock_volume volume_id ∷ d.history) (get_volume_name_from_path volume_id)
        ≡ ok (some share)
      → w.get_share_snapshots
          (get_share (get_volume_name_from_path volume_id) ∷ lock_volume volume_id ∷ d.history)
          share.name
        ≡ ok (s ∷ rest)
      → delete_volume w volume_id d ≡ (
        err has_snapshots,
        asked (unlock_volume volume_id) (
            asked (get_share_snapshots share.name) (
              asked
                (get_share (get_volume_name_from_path volume_id))
                (asked (lock_volume volume_id) d))),
      )
  unfolding delete_volume delete_found_share with_volume_lock finally ◌>>=◌
  delete_volume-share_with_snapshots volume_id share s rest d hn hf hl hg hs =
      let locked =
        asked (get_share (get_volume_name_from_path volume_id)) (asked (lock_volume volume_id) d) in
      rw hn (rw hl (rw hf (rw hg (rw (share_with_snapshots share s rest locked hs) refl))))

  -- Deleting a share-backed volume again succeeds: if the lock is had and the Anvil knows no such share,
  -- DeleteVolume succeeds, and it has asked for nothing but the share and the lock.
  delete_volume-missing_share :
      (volume_id : String) (d : Driver)
      → (volume_id == "") ≡ false
      → is_file_backed_volume_id volume_id ≡ false
      → Locks volume_id d
      → w.get_share (lock_volume volume_id ∷ d.history) (get_volume_name_from_path volume_id)
        ≡ ok none
      → delete_volume w volume_id d ≡ (
        ok tt,
        asked (unlock_volume volume_id) (
            asked
              (get_share (get_volume_name_from_path volume_id))
              (asked (lock_volume volume_id) d)),
      )
  unfolding delete_volume delete_found_share with_volume_lock finally ◌>>=◌
  delete_volume-missing_share volume_id d hn hf hl hg = rw hn (rw hl (rw hf (rw hg refl)))
