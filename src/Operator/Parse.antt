-- ===== src/Operator/Parse.antt =====
-- ParseSpec of operator/internal/operator/render.go.
use csi_plugin.Base.{
  String, ◌==◌, Bool, false, not, ◌&&◌, ◌||◌, Option, none, some, List, [], ◌∷◌, if◌then◌else◌,
}
use csi_plugin.Base.Dict.{lookup}
use csi_plugin.Base.Text.{has_char}
use csi_plugin.Grpc.{Result, ok, err, guard, plain, ◌>>◌}
use csi_plugin.Operator.{Api, Cr, Spec, StorageClass, has_string}

-- strings.ContainsAny(name, "/|\n")
unfoldable pub has_separator : String → Bool
has_separator name = has_char b'/' name || (has_char b'|' name || has_char 10 name)

unfoldable pub check_mode : StorageClass → Result (Unit {0})
check_mode sc =
    if sc.mode == "NFS"
    then guard (not (sc.backing_share_name == ""))
        (plain "NFS classes use independent shares; omit backingShareName")
    else if (sc.mode == "Block") || ((sc.mode == "ext4") || (sc.mode == "xfs"))
    then guard ((sc.backing_share_name == "") || has_separator sc.backing_share_name)
        (plain "file-backed classes require a backing share name without path separators")
    else err (plain "unsupported StorageClass mode")

-- A node selector may name Linux alone.
abbrev other_system : Option String → Bool
other_system none = false
other_system (some os) = not (os == "linux")

abbrev known_level : String → Bool
known_level level =
    (level == "error") || ((level == "warn") || ((level == "info") || (level == "debug")))

module _ (w : Api) where
  -- `names` are the names of the classes before.
  unfoldable pub check_classes : List String → List StorageClass → Result (Unit {0})
  check_classes names [] = ok tt
  check_classes names (sc ∷ l) = do
    guard (not (w.is_subdomain sc.name) || has_string sc.name names)
        (plain "StorageClass names must be valid and unique")
    check_mode sc
    check_classes (sc.name ∷ names) l

  unfoldable pub check_spec : Cr → Spec → Result (Unit {0})
  check_spec cr spec = do
    guard (not (cr.name == "cluster")) (plain "only the singleton named cluster is supported")
    guard (not (w.is_subdomain spec.credentials_secret_name))
        (plain "credentialsSecretName must be a valid Secret name")
    guard (not ((spec.log_level == "") || known_level spec.log_level)) (plain "invalid logLevel")
    guard (other_system (lookup "kubernetes.io/os" spec.node_selector))
        (plain "only Linux nodes are supported")
    check_classes [] spec.storage_classes

  abbrev or_info : Spec → Spec
  or_info spec = if spec.log_level == "" then record spec { log_level = "info" } else spec

  -- The level is filled in once the names are checked.
  abbrev with_level : Result (Unit {0}) → Cr → Spec → Spec
  with_level (err e) cr spec = spec
  with_level (ok _) cr spec =
      if (cr.name == "cluster") && w.is_subdomain spec.credentials_secret_name
      then or_info spec
      else spec

  -- The spec is returned beside the error too: the deletion of the resource uses it.
  unfoldable pub parse_spec : Cr → Spec × Result (Unit {0})
  parse_spec cr =
      let (spec, decoded) = cr.decoded in
      (with_level decoded cr spec, decoded >> check_spec cr spec)
