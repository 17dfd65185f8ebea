-- ===== src/Routes.antt =====
-- The route of a request to the Anvil that the metrics are labelled with (AnvilRoute of
-- pkg/common/metrics.go): the path with its identifiers replaced by "{id}".
pub mod Laws
pub mod Template
use csi_plugin.Base.{String, ◌==◌, Bool, true, false, not, ◌&&◌, ◌||◌, List, [], ◌∷◌, if◌then◌else◌}
use csi_plugin.Base.Text.{split, join}

-- The cases of the switch on the segment before.
unfoldable pub is_collection : String → Bool
is_collection s = s == "shares" || s == "tasks" || s == "files" || s == "objectives"

unfoldable pub is_snapshot_action : String → Bool
is_snapshot_action s = s == "snapshot-create" || s == "snapshot-list" || s == "snapshot-delete"

unfoldable pub fill : String → String
fill s = if s == "" then s else "{id}"

-- One round of the loop, behind the segment `before` as it is by then.
unfoldable pub collapse_one : String → String → String
collapse_one before s =
    if is_collection before
    then fill s
    else if before == "file-snapshots"
    then (if not (s == "") && not (s == "list") then "{id}" else s)
    else if is_snapshot_action before
    then fill s
    else s

-- The rest of the loop. With `filled`, an inner loop has already replaced the segments to the end.
unfoldable pub collapse : Bool → String → List String → List String
collapse filled before [] = []
collapse filled before (s ∷ segs) =
    let s' = collapse_one before (if filled then fill s else s) in
    s' ∷ collapse (filled || is_snapshot_action before) s' segs

unfoldable pub collapse_from_start : List String → List String
collapse_from_start [] = []
collapse_from_start (s ∷ segs) = s ∷ collapse false s segs

unfoldable pub anvil_route : String → String
anvil_route url_path = join "/" (collapse_from_start (split b'/' url_path))
