-- ===== src/Controller/Capacity/Laws.antt =====
-- What GetCapacity reads from its cache.
use csi_plugin.Base.{
  ℕ, ◌+◌, ◌*◌, ◌^◌, ◌≤◌, String, eq_refl, ◌≡◌, refl, ◌∙◌, ap, false, Option, none, some, ◌∷◌, arith,
  ltb,
}
use mathlib.Core.Path.{subst}
use csi_plugin.Base.Int.{ℤ}
use csi_plugin.Cache.{get, set_cache_data}
use csi_plugin.Cache.Laws.{get-set_cache_data}
use csi_plugin.Driver.{World, Driver, number, cached, remember, get_share, ◌>>=◌}
use csi_plugin.Grpc.{ok}
use csi_plugin.Types.{ShareResponse}
use csi_plugin.Controller.Capacity.{
  as_number, backing_share_key, remember_available, cached_backing_share_available,
}

in_time : (now end : ℕ) → now ≤ end → ltb end now ≡ false
in_time now end h = ground arith

module _ (w : World) (name : String) where
  -- The cached figure of the share, if there is one.
  abbrev pub figure : Driver → Option ℤ
  figure d = as_number (get d.cache (backing_share_key name) (w.now d.history)).0

  -- What the first call leaves.
  fetched : (share : ShareResponse) (d : Driver) → Driver
  fetched share d = record d {
    history = get_share name ∷ d.history;
    cache =
        set_cache_data (get d.cache (backing_share_key name) (w.now d.history)).1
          (backing_share_key name) (number share.available) 60 (w.now (get_share name ∷ d.history));
  }

  first-fetched :
      (share : ShareResponse) (d : Driver)
      → figure d ≡ none
      → w.get_share d.history name ≡ ok (some share)
      → (cached_backing_share_available w name d).1 ≡ fetched share d
  unfolding cached_backing_share_available cached remember_available remember fetched ◌>>=◌
  first-fetched share d hf hg = rw hf (rw hg refl)

  figure-fetched :
      (share : ShareResponse) (d later : Driver)
      → later.cache ≡ (fetched share d).cache
      → w.now later.history ≤ w.now (fetched share d).history + 60 * 10 ^ 9
      → figure later ≡ some share.available
  unfolding fetched
  figure-fetched share d later hc hn = rw hc (
      rw
        (get-set_cache_data (get d.cache (backing_share_key name) (w.now d.history)).1
          (backing_share_key name) (backing_share_key name) (number share.available) 60
          (w.now (get_share name ∷ d.history)) (w.now later.history))
        (rw (eq_refl (backing_share_key name)) (rw (in_time _ _ hn) refl)))

  reused :
      (free : ℤ) (later : Driver)
      → figure later ≡ some free
      → ((cached_backing_share_available w name later).0 ≡ ok (some free))
        × ((cached_backing_share_available w name later).1.history ≡ later.history)
  unfolding cached_backing_share_available cached ◌>>=◌
  reused free later h = (rw h refl, rw h refl)

  -- A figure that was fetched is used again: where cachedBackingShareAvailable has asked the Anvil and
  -- got a share, it answers the same to every later call that finds the cache as it was left, for sixty
  -- seconds, and asks for nothing.
  cached_backing_share_available-again :
      (share : ShareResponse) (d later : Driver)
      → figure d ≡ none
      → w.get_share d.history name ≡ ok (some share)
      → later.cache ≡ (cached_backing_share_available w name d).1.cache
      → w.now later.history
        ≤ w.now (cached_backing_share_available w name d).1.history + 60 * 10 ^ 9
      → ((cached_backing_share_available w name later).0 ≡ ok (some share.available))
        × ((cached_backing_share_available w name later).1.history ≡ later.history)
  cached_backing_share_available-again share d later hf hg hc hn =
      let first = first-fetched share d hf hg in
      reused share.available later (
        figure-fetched share d later (hc ∙ ap (λ d. d.cache) first)
          (subst (λ f. w.now later.history ≤ w.now f.history + 60 * 10 ^ 9) first hn))
