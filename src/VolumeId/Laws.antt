-- ===== src/VolumeId/Laws.antt =====
-- What the ID functions recover from the IDs that CreateVolume and CreateSnapshot hand out.
use csi_plugin.Base.{String, ◌<>◌, ◌==◌, ◌≡◌, refl, true, false, ◌∷◌}
use csi_plugin.Base.Text.{split, has_char, base, dir}
use csi_plugin.Base.Text.Laws.{
  split-of-part, split-append, separator, IsName, root-ne-share, dir-file, dir-share, base-file,
  base-share,
}
use csi_plugin.Grpc.{ok}
use csi_plugin.VolumeId.{
  get_volume_name_from_path, is_file_backed_volume_id, get_snapshot_name_from_snapshot_id,
  get_snapshot_source_volume_id, get_share_name_from_snapshot_id,
  get_snapshot_id_from_snapshot_name, share_path_prefix,
}

module _ (name volume : String) (hn : has_char b'|' name ≡ false) where
  tokens : split b'|' (get_snapshot_id_from_snapshot_name name volume) ≡ name ∷ split b'|' volume
  unfolding get_snapshot_id_from_snapshot_name
  tokens = rw (separator "|" volume) (split-append b'|' name volume "|" refl hn)

  -- From the composite ID of a snapshot whose own name and whose volume ID hold no "|", the snapshot
  -- name, the source volume ID and the name of the source share come back unchanged.
  pub snapshot_id_roundtrip :
      has_char b'|' volume ≡ false
      → (get_snapshot_name_from_snapshot_id (get_snapshot_id_from_snapshot_name name volume)
          ≡ ok name)
        × (get_snapshot_source_volume_id (get_snapshot_id_from_snapshot_name name volume)
            ≡ ok volume)
        × (get_share_name_from_snapshot_id (get_snapshot_id_from_snapshot_name name volume)
            ≡ ok (get_volume_name_from_path volume))
  unfolding get_snapshot_name_from_snapshot_id get_snapshot_source_volume_id
      get_share_name_from_snapshot_id get_volume_name_from_path
  snapshot_id_roundtrip hv = (
    rw (tokens, split-of-part b'|' volume hv),
    rw (tokens, split-of-part b'|' volume hv),
    rw (tokens, split-of-part b'|' volume hv),
  )

-- The ID of a share-backed volume, "/" and a share name without "/", is not taken for a file-backed
-- one, and its last component is the share name if that is not empty.
share_volume_id :
    (share : String)
    → has_char b'/' share ≡ false
    → (share == "") ≡ false
    → (is_file_backed_volume_id (share_path_prefix <> share) ≡ false)
      × (get_volume_name_from_path (share_path_prefix <> share) ≡ share)
unfolding is_file_backed_volume_id get_volume_name_from_path
share_volume_id share h k = (rw (dir-share share h), base-share share h k)

-- The ID of a file-backed volume, "/", a backing share, "/" and a file, where both are names that
-- path.Clean keeps, is taken for one; the file and the backing share are recovered from it.
pub file_volume_id :
    (share file : String)
    → IsName share
    → IsName file
    → (is_file_backed_volume_id (share_path_prefix <> share <> "/" <> file) ≡ true)
      × (get_volume_name_from_path (share_path_prefix <> share <> "/" <> file) ≡ file)
      × (base (dir (share_path_prefix <> share <> "/" <> file)) ≡ share)
unfolding is_file_backed_volume_id get_volume_name_from_path
file_volume_id share file n m = (
  rw (dir-file share file n m.no_slash) (rw (root-ne-share share n.not_empty)),
  base-file share file n.no_slash m,
  rw (dir-file share file n m.no_slash) (base-share share n.no_slash n.not_empty),
)
