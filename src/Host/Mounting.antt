-- ===== src/Host/Mounting.antt =====
-- Mounting and unmounting, folders and tags on the host (pkg/common/host_utils.go).
pub mod Laws
use csi_plugin.Base.{
  ℕ, String, ◌<>◌, ◌==◌, Bool, true, false, not, ◌&&◌, ◌||◌, Option, none, some, List, [], ◌∷◌,
  if◌then◌else◌,
}
use csi_plugin.Base.Dict.{Dict}
use csi_plugin.Base.Text.{split, is_space, contains, dir}
use csi_plugin.Effect.{attempt, lift, guard, on_result, map_error, pure, raise, ◌>>=◌, ◌>>◌}
use csi_plugin.Grpc.{
  Error, Result, ok, err, plain, status, internal, permission_denied, invalid_argument,
  deadline_exceeded, text, Code,
}
use csi_plugin.Host.{
  Machine, Op, FileInfo, Call, request, act, stat, is_mount_point, mkdir_all, create_file, chmod,
  mount, unmount, remove, exec_command,
}
use Prim.Native.Char.{Char}

abbrev as_internal : Error → Error
as_internal e = status internal (text e)

push : Char → List String → List String
push c [] = String.◌∷◌ c "" ∷ []
push c (s ∷ l) = String.◌∷◌ c s ∷ l

-- The pieces of a text between spaces, empty ones among them.
unfoldable pub pieces : String → List String
unfolding push
pieces String.[] = "" ∷ []
pieces (String.◌∷◌ c s) = let rest = pieces s in if is_space c then "" ∷ rest else push c rest

-- strings.Fields(s)[0], where there is one.
unfoldable pub first_field : List String → Option String
first_field [] = none
first_field (s ∷ l) = if s == "" then first_field l else some s

abbrev with_first : Option String → List String → List String
with_first none l = l
with_first (some s) l = s ∷ l

unfoldable pub exports_in : List String → List String
exports_in [] = []
exports_in (line ∷ lines) = with_first (first_field (pieces line)) (exports_in lines)

abbrev no_exports : Error
no_exports = status internal "could not determine nfs exports"

abbrev or_no_exports : List String → Result (List String)
or_no_exports [] = err no_exports
or_no_exports (e ∷ l) = ok (e ∷ l)

module _ (m : Machine) where
  abbrev pub in_time : Option (Result Bool) → Result Bool
  in_time none = err (plain "context deadline exceeded")
  in_time (some r) = r

  unfoldable pub safe_is_mount_point : String → Op Bool
  safe_is_mount_point path = request (is_mount_point path) (λ h. in_time (m.is_mount_point h path))

  unfoldable pub is_share_mounted : String → Op Bool
  is_share_mounted target_path = do
    mounted ← attempt (safe_is_mount_point target_path)
    on_result mounted pure (λ e. pure false)

  -- How the error of a mount is answered; `invalid` is the text that is looked for.
  unfoldable pub mount_error : String → Error → Error
  mount_error invalid e =
      if m.is_permission e
      then status permission_denied (text e)
      else if contains (text e) invalid
      then status invalid_argument (text e)
      else status internal (text e)

  abbrev make_target : String → Result FileInfo → Op (Unit {0})
  make_target dest_file (ok info) = pure tt
  make_target dest_file (err e) =
      if m.is_not_exist e
      then (do
        map_error (act m (mkdir_all (dir dest_file))) as_internal
        map_error (act m (create_file dest_file)) as_internal)
      else pure tt

  unfoldable pub ensure_target : String → Op (Unit {0})
  ensure_target dest_file = do
    info ← attempt (request (stat dest_file) (λ h. m.stat h dest_file))
    make_target dest_file info

  unfoldable pub mount_filesystem : String → String → String → List String → Op (Unit {0})
  mount_filesystem source_file dest_file fs_type mount_flags = do
    ensure_target dest_file
    map_error (act m (mount source_file dest_file fs_type mount_flags))
        (mount_error "Invalid argument")

  unfoldable pub bind_mount_device : String → String → Op (Unit {0})
  bind_mount_device source_file dest_file = do
    ensure_target dest_file
    map_error (act m (mount source_file dest_file "" ("bind" ∷ [])))
        (mount_error "invalid argument")

  abbrev timed_out : Error
  timed_out =
      status deadline_exceeded "mount %s -> %s timed out after %s (data portal unreachable?)"

  abbrev attempted : Option (Result (Unit {0})) → Result (Unit {0})
  attempted none = err timed_out
  attempted (some (ok _)) = ok tt
  attempted (some (err e)) = err (mount_error "invalid argument" e)

  abbrev unless_missing : String → Error → Op Bool
  unless_missing target_path e =
      if m.is_not_exist e
      then (do map_error (act m (mkdir_all target_path)) as_internal; pure false)
      else raise (as_internal e)

  unfoldable pub mount_share : String → String → List String → Op (Unit {0})
  mount_share source_path target_path mount_flags = do
    probed ← attempt (safe_is_mount_point target_path)
    mounted ← on_result probed pure (unless_missing target_path)
    if mounted
        then pure tt
        else request (mount source_path target_path "nfs" mount_flags)
            (λ h. attempted (m.mount h (mount source_path target_path "nfs" mount_flags)))

  unfoldable pub unmount_filesystem : String → Op (Unit {0})
  unmount_filesystem target_path = do
    mounted ← is_share_mounted target_path
    if not mounted then pure tt else do
      map_error (act m (unmount target_path)) as_internal
      map_error (act m (remove target_path)) as_internal

  unfoldable pub force_unmount_stale : String → Op (Unit {0})
  force_unmount_stale target_path = do
    attempt (exec_command m ("umount" ∷ "-f" ∷ "-l" ∷ target_path ∷ []))
    pure tt

  -- The removal decides; the error of `umount` only gives the text of an error.
  unfoldable pub removal_error : Result String → Error → Op (Unit {0})
  removal_error unmounted e =
      if m.is_not_exist e
      then pure tt
      else on_result unmounted
          (λ output. raise (plain "removing force-unmounted path %s failed: %w"))
          λ e'. raise (plain "umount -f -l %s failed: %v; removing mount point failed: %w")

  unfoldable pub force_unmount_filesystem : String → Op (Unit {0})
  force_unmount_filesystem target_path = do
    unmounted ← attempt (exec_command m ("umount" ∷ "-f" ∷ "-l" ∷ target_path ∷ []))
    removed ← attempt (act m (remove target_path))
    on_result removed pure (removal_error unmounted)

  unfoldable pub remount_bind_read_only : String → Op (Unit {0})
  remount_bind_read_only target = do
    exec_command m ("mount" ∷ "-o" ∷ "remount,bind,ro" ∷ target ∷ [])
    pure tt

  abbrev folder_after_fault : String → Error → Op (Unit {0})
  folder_after_fault pathname e =
      if m.is_not_exist e
      then map_error (act m (mkdir_all pathname)) as_internal
      else raise (as_internal e)

  unfoldable pub make_empty_raw_folder : String → Op (Unit {0})
  make_empty_raw_folder pathname = do
    info ← attempt (request (stat pathname) (λ h. m.stat h pathname))
    on_result info
        (λ i. do
          guard (not i.is_dir) (status internal "path exists but is not a directory")
          map_error (act m (chmod pathname)) as_internal)
        (folder_after_fault pathname)

  -- A tag that fails ends the loop, and its error is dropped: `err` is another variable there.
  unfoldable pub set_tags : String → Dict String → Op (Unit {0})
  set_tags local_path [] = pure tt
  set_tags local_path ((key, value) ∷ tags) = do
    output ←
        attempt
          (exec_command m ("hs" ∷ "-v" ∷ "tag" ∷ "set" ∷ "-e" ∷ value ∷ key ∷ local_path ∷ []))
    on_result output (λ _. set_tags local_path tags) (λ e. pure tt)

  -- `details` is the argument with the name and version of the plugin.
  unfoldable pub set_metadata_tags : String → String → Dict String → Op (Unit {0})
  set_metadata_tags details local_path tags = do
    output ←
        attempt
          (exec_command m ("hs" ∷ "attribute" ∷ "set" ∷ "CSI_DETAILS" ∷ details ∷ local_path ∷ []))
    set_tags local_path tags
    on_result output (λ _. pure tt) raise

  -- The caller's limit of five minutes is that of the command too, and either may end first.
  unfoldable pub get_nfs_exports : String → Op (List String)
  get_nfs_exports address = do
    output ← attempt (exec_command m ("showmount" ∷ "--no-headers" ∷ "-e" ∷ address ∷ []))
    expired ← λ h. (ok (m.expired h), h)
    guard expired (status deadline_exceeded "command execution timed out")
    text ← map_error (lift output) (λ e. no_exports)
    lift (or_no_exports (exports_in (split 10 text)))
