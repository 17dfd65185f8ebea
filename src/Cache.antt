-- ===== src/Cache.antt =====
-- The driver-wide cache: pkg/common/hs_cache.go, and GetCacheData and SetCacheData of
-- pkg/common/utils.go. A time is a number of nanoseconds; time.Now() is the argument `now`. The mutex
-- makes each operation one step. Every caller of SetCacheData passes a constant that is not negative.
pub mod Laws
use csi_plugin.Base.{
  ℕ, ◌+◌, ◌*◌, ◌^◌, String, Option, none, some, List, [], ltb, eqb, if◌then◌else◌,
}
use csi_plugin.Base.Dict.{Dict, lookup, insert, erase}

pub record CacheValue (V : Type 0) : Type 0 where
  pub value : V
  pub expiration : ℕ

pub record Cache (V : Type 0) : Type 0 where
  pub entries : Dict (CacheValue V)

module _ {V : Type 0} where
  -- CsiCache
  unfoldable pub csi_cache : Cache V
  csi_cache = record { entries = [] }

  unfoldable pub set : Cache V → String → V → ℕ → ℕ → Cache V
  set c key value expiration now = record {
    entries = insert key (record { value = value; expiration = now + expiration }) c.entries;
  }

  -- An entry that is past its time is deleted, and so is (to no effect) a key that is not there.
  found : Cache V → String → ℕ → Option (CacheValue V) → Option V × Cache V
  found c key now none = (none, record { entries = erase key c.entries })
  found c key now (some entry) =
      if ltb entry.expiration now
      then (none, record { entries = erase key c.entries })
      else (some entry.value, c)

  unfoldable pub get : Cache V → String → ℕ → Option V × Cache V
  unfolding found
  get c key now = found c key now (lookup key c.entries)

  -- SetCacheData: a timeout in seconds, where 0 stands for one minute.
  unfoldable pub set_cache_data : Cache V → String → V → ℕ → ℕ → Cache V
  unfolding set
  set_cache_data c key value expire_time now =
      let seconds = if eqb expire_time 0 then 60 else expire_time in
      set c key value (seconds * 10 ^ 9) now
