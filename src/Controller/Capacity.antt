-- ===== src/Controller/Capacity.antt =====
-- GetCapacity of pkg/driver/controller.go with its two cached figures, and GetClusterAvailableCapacity
-- of pkg/client/hsclient.go up to its HTTP request.
pub mod Laws
use csi_plugin.Base.{
  ℕ, ◌*◌, String, ◌<>◌, ◌==◌, Bool, true, false, not, ◌&&◌, ◌||◌, Option, none, some, List, [], ◌∷◌,
  if◌then◌else◌,
}
use csi_plugin.Base.Dict.{Dict}
use csi_plugin.Base.Int.{ℤ, pos}
use csi_plugin.Driver.{
  World, Op, CacheData, number, names, pure, raise, lift, call, attempt, on_result, on_option,
  cached, remember, ◌>>=◌, ◌>>◌, get_capacity, get_share,
}
use csi_plugin.Grpc.{Error, Result, ok, err, status, text, internal}
use csi_plugin.Params.{HsVolumeParameters, parse_vol_params}
use csi_plugin.Types.{ShareResponse, VolumeCapability, AccessType, block, mount, unset}

-- A cached value of another type counts as none.
abbrev pub as_number : Option CacheData → Option ℤ
as_number none = none
as_number (some (number n)) = some n
as_number (some (names l)) = none

abbrev is_block : AccessType → Bool
is_block block = true
is_block (mount fs_type flags) = false
is_block unset = false

abbrev is_mount : AccessType → Bool
is_mount block = false
is_mount (mount fs_type flags) = true
is_mount unset = false

unfoldable pub block_requested : List VolumeCapability → Bool
block_requested [] = false
block_requested (c ∷ l) = is_block c.access_type || block_requested l

unfoldable pub filesystem_requested : List VolumeCapability → Bool
filesystem_requested [] = false
filesystem_requested (c ∷ l) = is_mount c.access_type || filesystem_requested l

-- The type comes from the parameters of the storage class.
unfoldable pub backing_share_name : HsVolumeParameters → String
backing_share_name p =
    if (p.block_backing_share_name == "") && (not (p.fs_type == "") && not (p.fs_type == "nfs"))
    then p.mount_backing_share_name
    else p.block_backing_share_name

abbrev pub backing_share_capacity_seconds : ℕ
backing_share_capacity_seconds = 60

abbrev pub backing_share_key : String → String
backing_share_key name = "BACKING_SHARE_FREE:" <> name

module _ (w : World) where
  unfoldable pub get_cluster_available_capacity : Op ℤ
  get_cluster_available_capacity = do
    free ← call get_capacity (λ h. w.get_cluster_available_capacity h)
    remember w "FREE_CAPACITY" (number free) (60 * 5)
    pure free

  unfoldable pub cached_cluster_available_capacity : Op ℤ
  cached_cluster_available_capacity = do
    found ← cached w "FREE_CAPACITY"
    on_option (as_number found) get_cluster_available_capacity pure

  unfoldable pub remember_available : String → Option ShareResponse → Op (Option ℤ)
  remember_available name none = pure none
  remember_available name (some share) = do
    remember w (backing_share_key name) (number share.available) backing_share_capacity_seconds
    pure (some share.available)

  -- `none` where the share does not exist.
  unfoldable pub cached_backing_share_available : String → Op (Option ℤ)
  cached_backing_share_available name = do
    found ← cached w (backing_share_key name)
    on_option (as_number found)
        (call (get_share name) (λ h. w.get_share h name) >>= remember_available name)
        λ free. pure (some free)

  unfoldable pub cluster_capacity : Op ℤ
  cluster_capacity = do
    free ← attempt cached_cluster_available_capacity
    on_result free pure λ e. raise (status internal (text e))

  unfoldable pub available_capacity : String → Op ℤ
  available_capacity name = if name == "" then cluster_capacity else do
    free ← attempt (cached_backing_share_available name)
    on_result free (λ found. on_option found cluster_capacity pure)
        λ e. raise (status internal "backing share %s: %v")

  unfoldable pub get_available : List VolumeCapability → Dict String → Op ℤ
  get_available capabilities parameters =
      if block_requested capabilities && filesystem_requested capabilities then pure (pos 0) else do
        params ← lift (parse_vol_params w.lookup_ip parameters)
        available_capacity (backing_share_name params)
