-- ===== src/Host/Devices.antt =====
-- Loop devices and the growth of what stands on them (pkg/common/host_utils.go). A text of `losetup -a`
-- that is shorter than its reader expects panics in the source, which is the error `index_out_of_range`
-- here.
pub mod Tools
use csi_plugin.Base.{
  ℕ, zero, suc, String, ◌<>◌, ◌==◌, Bool, true, false, not, ◌&&◌, ◌||◌, Option, none, some, List,
  [], ◌∷◌, eqb, if◌then◌else◌,
}
use csi_plugin.Base.Int.{ℤ}
use csi_plugin.Base.Text.{split, trim_space, contains, format_int}
use csi_plugin.Effect.{attempt, lift, on_result, map_error, pure, raise, ◌>>=◌, ◌>>◌}
use csi_plugin.Grpc.{Error, Result, ok, err, plain, status, internal, text}
use csi_plugin.Host.{Machine, Op, request, stat, exec_command}
use csi_plugin.Host.Growth.{parse_filesystem_geometry, superblock_command, exceeds_slack}
use Prim.Native.Char.{Char, code}

-- strings.Trim(s, ":()")
is_mark : Char → Bool
is_mark c = eqb (code c) b':' || (eqb (code c) b'(' || eqb (code c) b')')

marks_left : String → String
unfolding is_mark
marks_left String.[] = ""
marks_left (String.◌∷◌ c s) = let rest = marks_left s in if is_mark c then rest else String.◌∷◌ c s

marks_right : String → String
unfolding is_mark
marks_right String.[] = ""
marks_right (String.◌∷◌ c s) =
    let rest = marks_right s in if is_mark c && rest == "" then "" else String.◌∷◌ c rest

unfoldable pub trim_marks : String → String
unfolding marks_left marks_right
trim_marks s = marks_right (marks_left s)

abbrev pub index_out_of_range : Error
index_out_of_range = plain "runtime error: index out of range"

-- device[n]
unfoldable pub token : ℕ → List String → Result String
token n [] = err index_out_of_range
token zero (s ∷ l) = ok s
token (suc n) (s ∷ l) = token n l

unfoldable pub last_token : List String → String
last_token [] = ""
last_token (s ∷ []) = s
last_token (s ∷ t ∷ l) = last_token (t ∷ l)

abbrev pub no_loop_device : Error
no_loop_device = status internal "could not determine loop device for backing file"

abbrev matched : String → List String → Result String → Result String → Result String
matched backing_file device rest (err e) = err e
matched backing_file device rest (ok file) =
    if backing_file == trim_marks file
    then csi_plugin.Grpc.◌>>=◌ (token 0 device) (λ d. ok (trim_marks d))
    else rest

-- The device of the first line of `losetup -a` that names the file.
unfoldable pub find_loop_device : String → List String → Result String
find_loop_device backing_file [] = err no_loop_device
find_loop_device backing_file (line ∷ lines) =
    let rest = find_loop_device backing_file lines in
    if line == "" then rest else matched backing_file (split 32 line) rest (token 2 (split 32 line))

abbrev pub no_backing_file : Error
no_backing_file = status internal "could not determine backing file for loop device"

abbrev matched_device : String → List String → Result String → Result String → Result String
matched_device lo_device device rest (err e) = err e
matched_device lo_device device rest (ok name) =
    if lo_device == trim_marks name then ok (trim_marks (last_token device)) else rest

unfoldable pub find_backing_file : String → List String → Result String
find_backing_file lo_device [] = err no_backing_file
find_backing_file lo_device (line ∷ lines) =
    let rest = find_backing_file lo_device lines in
    if line == ""
    then rest
    else matched_device lo_device (split 32 line) rest (token 0 (split 32 line))

module _ (m : Machine) where
  unfoldable pub determine_loop_device_from_backing_file : String → Op String
  determine_loop_device_from_backing_file backing_file = do
    output ← map_error (exec_command m ("losetup" ∷ "-a" ∷ [])) (λ e. no_loop_device)
    lift (find_loop_device backing_file (split 10 output))

  unfoldable pub determine_backing_file_from_loop_device : String → Op String
  determine_backing_file_from_loop_device lo_device = do
    output ← map_error (exec_command m ("losetup" ∷ "-a" ∷ [])) (λ e. no_backing_file)
    lift (find_backing_file lo_device (split 10 output))

  unfoldable pub expand_filesystem : String → String → Op (Unit {0})
  expand_filesystem device fs_type = do
    exec_command m ((if fs_type == "xfs" then "xfs_growfs" else "resize2fs") ∷ device ∷ [])
    pure tt

  unfoldable pub expand_mounted_filesystem : String → String → String → Op (Unit {0})
  expand_mounted_filesystem target_path backing_file fs_type =
      if fs_type == "xfs" then expand_filesystem target_path fs_type else do
        loop_device ← determine_loop_device_from_backing_file backing_file
        expand_filesystem loop_device fs_type

  unfoldable pub refresh_loop_device_size : String → Op (Unit {0})
  refresh_loop_device_size loop_device = do
    exec_command m ("losetup" ∷ "-c" ∷ loop_device ∷ [])
    pure tt

  unfoldable pub make_empty_raw_file : String → ℤ → Op (Unit {0})
  make_empty_raw_file pathname size = do
    exec_command m ("qemu-img" ∷ "create" ∷ "-fraw" ∷ pathname ∷ format_int size ∷ [])
    pure tt

  unfoldable pub expand_raw_file_size : String → ℤ → Op (Unit {0})
  expand_raw_file_size pathname size = do
    exec_command m ("qemu-img" ∷ "resize" ∷ "-fraw" ∷ pathname ∷ format_int size ∷ [])
    pure tt

  -- The file grows first, then the device is told.
  unfoldable pub expand_device_file_size : String → ℤ → Op (Unit {0})
  expand_device_file_size pathname size = do
    loop_device ← determine_loop_device_from_backing_file pathname
    expand_raw_file_size pathname size
    refresh_loop_device_size loop_device

  unfoldable pub reconcile_filesystem_to_backing_file : String → String → String → Op (Unit {0})
  reconcile_filesystem_to_backing_file target_path backing_file fs_type = do
    loop_device ← determine_loop_device_from_backing_file backing_file
    refresh_loop_device_size loop_device
    if fs_type == "xfs"
        then expand_filesystem target_path fs_type
        else expand_filesystem loop_device fs_type

  abbrev unsigned_type : Error → Op String
  unsigned_type e =
      if m.exit_code_is_2 e
      then pure ""
      else raise (plain "could not determine filesystem type on %q: %w")

  unfoldable pub get_filesystem_type : String → Op String
  get_filesystem_type backing_file = do
    loop_device ← determine_loop_device_from_backing_file backing_file
    output ←
        attempt
          (exec_command m ("blkid" ∷ "-p" ∷ "-s" ∷ "TYPE" ∷ "-o" ∷ "value" ∷ loop_device ∷ []))
    on_result output (λ text. pure (trim_space text)) unsigned_type

  unfoldable pub format_device : String → String → Op (Unit {0})
  format_device device fs_type = do
    exec_command m (
        ("mkfs." <> fs_type)
        ∷ (if fs_type == "xfs"
            then "-m" ∷ "reflink=0" ∷ "-K" ∷ device ∷ []
            else if fs_type == "ext4"
            then "-E" ∷ "lazy_itable_init=1,lazy_journal_init=1" ∷ device ∷ []
            else device ∷ []))
    pure tt

  unfoldable pub filesystem_needs_growth : String → String → Op Bool
  filesystem_needs_growth backing_file fs_type = do
    info ← request (stat backing_file) (λ h. m.stat h backing_file)
    output ← exec_command m (superblock_command backing_file fs_type)
    geometry ← lift (parse_filesystem_geometry output fs_type)
    pure (exceeds_slack info.size geometry.0 geometry.1)
