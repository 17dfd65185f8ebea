-- ===== src/Host/Growth.antt =====
-- Whether a file system is smaller than its file: FilesystemNeedsGrowth, parseFilesystemGeometry and
-- parseFilesystemSize of pkg/common/host_utils.go.

pub mod Laws
use csi_plugin.Base.{
  ℕ, ◌*◌, ◌/◌, ◌^◌, ◌-◌, String, ◌==◌, Bool, true, false, not, ◌&&◌, ◌||◌, Option, none, some, List,
  [], ◌∷◌, eqb, ltb, if◌then◌else◌,
}
use csi_plugin.Base.Dict.{Dict, lookup, insert}
use csi_plugin.Base.Int.{ℤ, pos, negsuc, ltb_ℤ, sub64, mul64}
use csi_plugin.Base.Text.{split, trim_space, parse_int}
use csi_plugin.Grpc.{Error, Result, ok, err, plain, text, guard, ◌>>=◌, ◌>>◌}
use Prim.Native.Char.{Char, code}

abbrev pub filesystem_growth_slack : ℕ
filesystem_growth_slack = 16777216

before : Char → Option (String × String) → Option (String × String)
before c none = none
before c (some (key, value)) = some (String.◌∷◌ c key, value)

-- strings.Cut(line, sep) for a `sep` of one character.
unfoldable pub cut : ℕ → String → Option (String × String)
unfolding before
cut sep String.[] = none
cut sep (String.◌∷◌ c s) =
    let rest = cut sep s in if eqb (code c) sep then some ("", s) else before c rest

-- The keys of the block count and of the block size, and what stands behind a key.
abbrev pub keys : String → String × String × ℕ
keys fs_type =
    if fs_type == "xfs" then ("dblocks", "blocksize", b'=') else ("Block count", "Block size", b':')

abbrev or_syntax : Option ℤ → Result ℤ
or_syntax none = err (plain "parse %s: invalid syntax")
or_syntax (some n) = ok n

unfoldable pub read_entry : String → String → Option (String × String) → Dict ℤ → Result (Dict ℤ)
read_entry count_key size_key none values = ok values
read_entry count_key size_key (some (key, value)) values =
    if not (trim_space key == count_key) && not (trim_space key == size_key)
    then ok values
    else do n ← or_syntax (parse_int (trim_space value)); ok (insert (trim_space key) n values)

unfoldable pub read_lines : String → String → ℕ → List String → Dict ℤ → Result (Dict ℤ)
read_lines count_key size_key sep [] values = ok values
read_lines count_key size_key sep (line ∷ lines) values = do
  values' ← read_entry count_key size_key (cut sep line) values
  read_lines count_key size_key sep lines values'

unfoldable pub check_geometry : Option ℤ → Option ℤ → Result (ℤ × ℤ)
check_geometry (some count) (some size) = do
  guard (not (ltb_ℤ (pos 0) count) || not (ltb_ℤ (pos 0) size))
      (plain "invalid filesystem geometry: %s=%d %s=%d")
  ok (count, size)
check_geometry _ _ = err (plain "superblock output has no %q and %q")

unfoldable pub parse_filesystem_geometry : String → String → Result (ℤ × ℤ)
parse_filesystem_geometry output fs_type = do
  let (count_key, size_key, sep) = keys fs_type
  values ← read_lines count_key size_key sep (split 10 output) []
  check_geometry (lookup count_key values) (lookup size_key values)

-- Whether count > math.MaxInt64/size, for a size above 0.
abbrev pub overflows : ℤ → ℤ → Bool
overflows (pos count) (pos size) = ltb ((2 ^ 63 - 1) / size) count
overflows _ _ = false

unfoldable pub parse_filesystem_size : String → String → Result ℤ
parse_filesystem_size output fs_type = do
  (count, size) ← parse_filesystem_geometry output fs_type
  guard (overflows count size) (plain "filesystem size overflows int64")
  ok (mul64 count size)

-- info.Size()-blockCount*blockSize > filesystemGrowthSlack, on int64.
unfoldable pub exceeds_slack : ℤ → ℤ → ℤ → Bool
exceeds_slack file_size count size =
    ltb_ℤ (pos filesystem_growth_slack) (sub64 file_size (mul64 count size))

abbrev pub superblock_command : String → String → List String
superblock_command backing_file fs_type =
    if fs_type == "xfs"
    then "xfs_db" ∷ "-r" ∷ "-c" ∷ "sb 0" ∷ "-c" ∷ "print dblocks blocksize" ∷ backing_file ∷ []
    else "dumpe2fs" ∷ "-h" ∷ backing_file ∷ []
