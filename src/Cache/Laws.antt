-- ===== src/Cache/Laws.antt =====
-- What a caller sees of the cache.
use csi_plugin.Base.{
  ℕ, ◌+◌, ◌*◌, ◌^◌, ◌≤◌, String, ◌==◌, eq_iff, ◌≡◌, Option, none, some, arith, ltb, eqb,
  if◌then◌else◌,
}
use csi_plugin.Base.Dict.{lookup, lookup-erase, lookup-insert}
use csi_plugin.Cache.{Cache, CacheValue, get, set_cache_data}

-- The value of a key at a time: the entry, until its time is past.
abbrev live : {V : Type 0} → ℕ → Option (CacheValue V) → Option V
live now none = none
live now (some e) = if ltb e.expiration now then none else some e.value

module _ {V : Type 0} where
  get-live :
      (c : Cache V) (key : String) (now : ℕ) → (get c key now).0 ≡ live now (lookup key c.entries)
  unfolding get
  get-live c key now = ground arith

  -- After SetCacheData at time `t` a later read finds the value of that key until the timeout (in
  -- seconds, one minute for 0) has passed, and of any other key what it would have found before.
  pub get-set_cache_data :
      (c : Cache V) (key other : String) (value : V) (seconds t now : ℕ)
      → (get (set_cache_data c key value seconds t) other now).0 ≡ (
          if key == other
          then (if ltb (t + (if eqb seconds 0 then 60 else seconds) * 10 ^ 9) now
              then none
              else some value)
          else (get c other now).0)
  get-set_cache_data c key other value seconds t now =
      rw (get-live c other now, get-live (set_cache_data c key value seconds t) other now)
        (unfold set_cache_data in rw (lookup-insert key other) (ground (arith, eq_iff key other)))

  -- Reading one key, which may delete it, does not change what a read at that time or later finds.
  get-get :
      (c : Cache V) (key other : String) (now later : ℕ)
      → now ≤ later
      → (get (get c key now).1 other later).0 ≡ (get c other later).0
  get-get c key other now later h =
      rw (get-live c other later, get-live (get c key now).1 other later)
        (unfold get in ground (arith, lookup-erase key other c.entries, eq_iff key other))
