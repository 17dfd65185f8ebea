-- ===== src/Controller/Snapshots/Delete.antt =====
-- DeleteSnapshot, on the IDs that CreateSnapshot gives.
use csi_plugin.Base.{
  String, ◌==◌, eq_iff, ◌≡◌, refl, ap, true, false, some, ◌∷◌, arith, Bool-cases, inl, inr,
}
use csi_plugin.Base.Text.{has_char, contains}
use csi_plugin.Driver.{World, Driver, delete_file_snapshot, delete_share_snapshot, get_share, ◌>>=◌}
use csi_plugin.Grpc.{Result, ok, err, text, plain}
use csi_plugin.Types.{ShareResponse}
use csi_plugin.VolumeId.{
  improperly_formatted_snapshot_id, get_volume_name_from_path, is_file_backed_volume_id,
  get_snapshot_id_from_snapshot_name, get_snapshot_name_from_snapshot_id,
}
use csi_plugin.VolumeId.Laws.{snapshot_id_roundtrip}
use csi_plugin.Controller.Snapshots.{
  file_backed_source, delete_on_backend, settle_delete, delete_named, delete_snapshot,
}

settle-history : (w : World) (r : Result (Unit {0})) (d : Driver) → (settle_delete w r d).1 ≡ d
unfolding settle_delete
settle-history w (ok _) d = refl
settle-history w (err e) d = elim (Bool-cases (contains (text e) "not found")) [
  | inl c ↦ rw c refl
  | inr c ↦ rw c refl
]

no_name : get_snapshot_name_from_snapshot_id "" ≡ err (plain improperly_formatted_snapshot_id)
unfolding get_snapshot_name_from_snapshot_id
no_name = refl

module _ (w : World) (name volume : String) (hn : has_char b'|' name ≡ false)
    (hv : has_char b'|' volume ≡ false) where
  abbrev id : String
  id = get_snapshot_id_from_snapshot_name name volume

  is_empty : (id == "") ≡ true → id ≡ ""
  is_empty h = ground (arith, eq_iff id "")

  id_not_empty : (id == "") ≡ false
  id_not_empty = elim (Bool-cases (id == "")) [
    | inl e ↦ cc (
      (snapshot_id_roundtrip name volume hn hv).0,
      ap get_snapshot_name_from_snapshot_id (is_empty e),
      no_name,
    )
    | inr e ↦ e
  ]

  -- The ID of a snapshot of a file-backed volume, as CreateSnapshot gives it, has DeleteSnapshot delete
  -- the file snapshot of that name and of that volume, in one request, if no "|" is in either.
  delete_snapshot-of_file :
      (d : Driver)
      → is_file_backed_volume_id volume ≡ true
      → (delete_snapshot w (get_snapshot_id_from_snapshot_name name volume) d).1.history
        ≡ delete_file_snapshot volume name ∷ d.history
  unfolding delete_snapshot delete_named file_backed_source delete_on_backend ◌>>=◌
  delete_snapshot-of_file d hf = rw id_not_empty (
      rw (snapshot_id_roundtrip name volume hn hv).0 (
        rw (snapshot_id_roundtrip name volume hn hv).1
          (rw hf (ap (λ d. d.history) (settle-history w _ _)))))

  -- The ID of a snapshot of a share, as CreateSnapshot gives it, has DeleteSnapshot delete the snapshot
  -- of that name of that share, after it has found the share, if no "|" is in either.
  delete_snapshot-of_share :
      (share : ShareResponse) (d : Driver)
      → is_file_backed_volume_id volume ≡ false
      → w.get_share d.history (get_volume_name_from_path volume) ≡ ok (some share)
      → (delete_snapshot w (get_snapshot_id_from_snapshot_name name volume) d).1.history
        ≡ delete_share_snapshot (get_volume_name_from_path volume) name
          ∷ get_share (get_volume_name_from_path volume)
          ∷ d.history
  unfolding delete_snapshot delete_named file_backed_source delete_on_backend ◌>>=◌
  delete_snapshot-of_share share d hf hg = rw id_not_empty (
      rw (snapshot_id_roundtrip name volume hn hv).0 (
        rw (snapshot_id_roundtrip name volume hn hv).1
          (rw hf (rw hg (ap (λ d. d.history) (settle-history w _ _))))))
