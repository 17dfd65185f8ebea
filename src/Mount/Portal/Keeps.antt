-- ===== src/Mount/Portal/Keeps.antt =====
-- Invariants of a mount at a data portal. `Allowed` are the requests that keep `P`.
use text.Mathlib.Text.{starts_with}
use csi_plugin.Base.{
  ◌⊎◌, arith, String, ◌≡◌, Bool, true, false, List, [], ◌∷◌, ◌++◌, Bool-cases, inl, inr, refl, ap,
}
use csi_plugin.Cache.{Cache}
use csi_plugin.Driver.{
  World, Driver, Op, CacheData, DataPortal, mount_nfs, list_exports, get_data_portals,
  get_portal_floating_ip, lock_mount_slot, unlock_mount_slot, cached,
}
use csi_plugin.Driver.Keeps.{
  Keeps, keeps_rules, Keeps-pure, Keeps-raise, Keeps-bind, Keeps-call, Keeps-if, Keeps-attempt,
  Keeps-cached, Keeps-remember, Keeps-Result, Keeps-with_mount_slot,
}
use csi_plugin.Grpc.{ok}
use csi_plugin.Mount.Portal.{
  names_version, contains_nfsvers, without_nfsvers, or_resolved, fetch_exports, cached_nfs_exports,
  export_on, mount_to_data_portal, try_portals, mount_by_default, mount_by_flags, choose_address,
  mount_share_sub_path_at_best_dataportal,
}

-- A flag that begins with a version of NFS. The rest of a flag with commas is not looked at.
abbrev pub IsVersion : String → Type 0
IsVersion flag = (starts_with flag "nfsvers=" ≡ true) ⊎ (starts_with flag "vers=" ≡ true)

abbrev pub AnyVersion : List String → Type 0
AnyVersion [] = ⊥
AnyVersion (flag ∷ flags) = IsVersion flag ⊎ AnyVersion flags

-- `options` is `flags` without the flags that begin with a version.
pub data Stripped : List String → List String → Type 0 where
  done : Stripped [] []
  drops :
      (flag : String) (flags options : List String)
      → IsVersion flag
      → Stripped flags options
      → Stripped (flag ∷ flags) options
  keeps :
      (flag : String) (flags options : List String)
      → ¬ IsVersion flag
      → Stripped flags options
      → Stripped (flag ∷ flags) (flag ∷ options)

-- The options with which a mount is tried: the flags, where one begins with a version of NFS, and the
-- flags that do not, with 4.2 or with 3 and no locks.
pub data Offered (flags options : List String) : Type 0 where
  as_told : AnyVersion flags → options ≡ flags → Offered flags options
  by_4 :
      (rest : List String)
      → Stripped flags rest
      → options ≡ rest ++ "nfsvers=4.2" ∷ []
      → Offered flags options
  by_3 :
      (rest : List String)
      → Stripped flags rest
      → options ≡ rest ++ "nfsvers=3" ∷ "nolock" ∷ []
      → Offered flags options

names_version-IsVersion : (flag : String) → names_version flag ≡ true → IsVersion flag
unfolding names_version
names_version-IsVersion flag h = elim (Bool-cases (starts_with flag "nfsvers=")) [
  | inl e ↦ inl e
  | inr e ↦ inr (rw e at h)
]

other_flag : (flag : String) → names_version flag ≡ false → ¬ IsVersion flag
unfolding names_version
other_flag flag h (inl e) = cc (rw e at h)
other_flag flag h (inr e) = ground arith

without_nfsvers-Stripped : (flags : List String) → Stripped flags (without_nfsvers flags)
unfolding without_nfsvers
without_nfsvers-Stripped [] = done
without_nfsvers-Stripped (flag ∷ flags) =
    let rest = without_nfsvers-Stripped flags in
    elim (Bool-cases (names_version flag)) [
      | inl e ↦ rw e (drops flag flags _ (names_version-IsVersion flag e) rest)
      | inr e ↦ rw e (keeps flag flags _ (other_flag flag e) rest)
    ]

contains_nfsvers-AnyVersion :
    (flags : List String) → contains_nfsvers flags ≡ true → AnyVersion flags
unfolding contains_nfsvers
contains_nfsvers-AnyVersion [] h = cc
contains_nfsvers-AnyVersion (flag ∷ flags) h = elim (Bool-cases (names_version flag)) [
  | inl e ↦ inl (names_version-IsVersion flag e)
  | inr e ↦ inr (contains_nfsvers-AnyVersion flags (rw e at h))
]

bare : (flags : List String) → contains_nfsvers flags ≡ false → without_nfsvers flags ≡ flags
unfolding contains_nfsvers without_nfsvers
bare [] h = refl
bare (flag ∷ flags) h = elim (Bool-cases (names_version flag)) [
  | inl named ↦ cc (rw named at h)
  | inr free ↦ rw free (ap (λ (f : List String). flag ∷ f) (bare flags (rw free at h)))
]

unversioned : (flags : List String) → contains_nfsvers flags ≡ false → Stripped flags flags
unversioned flags h = let s = without_nfsvers-Stripped flags in rw (bare flags h) at s

module _ (w : World) (P : Driver → Type 0)
    (keeps_slot : (d : Driver) → P d → P (record d { history = lock_mount_slot ∷ d.history }))
    (keeps_slot' : (d : Driver) → P d → P (record d { history = unlock_mount_slot ∷ d.history }))
    (keeps_portals : (d : Driver) → P d → P (record d { history = get_data_portals ∷ d.history }))
    (keeps_floating : (d : Driver)
      → P d
      → P (record d { history = get_portal_floating_ip ∷ d.history }))
    (keeps_exports : (a : String) (d : Driver)
      → P d
      → P (record d { history = list_exports a ∷ d.history }))
    (keeps_cache : (c : Cache CacheData) (d : Driver) → P d → P (record d { cache = c })) where
  fetch_exports-Keeps : (address : String) → Keeps P (fetch_exports w address)
  unfolding fetch_exports
  fetch_exports-Keeps address = Keeps-bind _ _ (Keeps-call _ _ (keeps_exports address)) λ exports.
      Keeps-bind _ _ (Keeps-remember w keeps_cache _ _ _)
        λ _. Keeps-bind _ _ (Keeps-remember w keeps_cache _ _ _) λ _. Keeps-pure _

  cached-Keeps : (key : String) → Keeps P (cached w key)
  cached-Keeps = Keeps-cached w keeps_cache

  cached_nfs_exports-Keeps :
      (address : String) (fresh : Bool) → Keeps P (cached_nfs_exports w address fresh)
  unfolding cached_nfs_exports
  cached_nfs_exports-Keeps address fresh =
      search (keeps_rules, fetch_exports-Keeps, cached-Keeps) depth 10

  export_on-Keeps : (address export sub : String) → Keeps P (export_on w address export sub)
  unfolding export_on
  export_on-Keeps address export sub = search (keeps_rules, cached_nfs_exports-Keeps) depth 12

  choose_address-Keeps : (fqdn : String) → Keeps P (choose_address w fqdn)
  unfolding choose_address
  choose_address-Keeps fqdn = search (keeps_rules, keeps_floating) depth 12

  stopped-Keeps : Keeps P (λ d. (ok (w.cancelled d.history), d))
  stopped-Keeps = record { at = λ d h. h }

  module _ (export_path sub_path target : String) where
    mount_to-Keeps :
        (floating : String) (options : List String) (portal : DataPortal)
        → ((export : String) (d : Driver)
            → P d
            → P (record d { history = mount_nfs export target options ∷ d.history }))
        → Keeps P (mount_to_data_portal w floating export_path sub_path target options portal)
    unfolding mount_to_data_portal
    mount_to-Keeps floating options portal keeps_mount =
        search (keeps_rules, stopped-Keeps, export_on-Keeps, keeps_mount) depth 12

    try_portals-Keeps :
        (mount : DataPortal → Op Bool) (portals : List DataPortal)
        → ((p : DataPortal) → Keeps P (mount p))
        → Keeps P (try_portals w mount portals)
    unfolding try_portals
    try_portals-Keeps mount [] k = Keeps-pure false
    try_portals-Keeps mount (p ∷ portals) k =
        Keeps-bind _ _ (k p)
          λ mounted. Keeps-if mounted _ _ (Keeps-pure true) (try_portals-Keeps mount portals k)

    module _ (mount : List String → DataPortal → Op Bool) (portals : List DataPortal) where
      mount_by_default-Keeps :
          (flags : List String)
          → ((p : DataPortal) → Keeps P (mount (flags ++ "nfsvers=4.2" ∷ []) p))
          → ((p : DataPortal) → Keeps P (mount (flags ++ "nfsvers=3" ∷ "nolock" ∷ []) p))
          → Keeps P (mount_by_default w mount portals flags)
      unfolding mount_by_default
      mount_by_default-Keeps flags k4 k3 = Keeps-bind _ _ (try_portals-Keeps _ portals k4) λ by_4.
          Keeps-if by_4 _ _ (Keeps-pure tt) (
            Keeps-bind _ _ (try_portals-Keeps _ portals k3)
              λ by_3. Keeps-if by_3 _ _ (Keeps-pure tt) (Keeps-raise _))

      mount_by_flags-Keeps :
          (flags : List String)
          → ((options : List String)
              → Offered flags options
              → (p : DataPortal) → Keeps P (mount options p))
          → Keeps P (mount_by_flags w mount portals flags)
      unfolding mount_by_flags
      mount_by_flags-Keeps flags k = elim (Bool-cases (contains_nfsvers flags)) [
        | inl told ↦ rw told (
            Keeps-bind _ _
              (try_portals-Keeps _ portals
                (k flags (as_told (contains_nfsvers-AnyVersion flags told) refl)))
              λ mounted. Keeps-if mounted _ _ (Keeps-pure tt) (
                mount_by_default-Keeps (without_nfsvers flags)
                  (k _ (by_4 _ (without_nfsvers-Stripped flags) refl))
                  (k _ (by_3 _ (without_nfsvers-Stripped flags) refl))))
        | inr free ↦ rw free (
            mount_by_default-Keeps flags (k _ (by_4 flags (unversioned flags free) refl))
              (k _ (by_3 flags (unversioned flags free) refl)))
      ]

    pub mount_share_sub_path-Keeps :
        (flags : List String) (fqdn : String)
        → ((export : String) (options : List String) (d : Driver)
            → Offered flags options
            → P d
            → P (record d { history = mount_nfs export target options ∷ d.history }))
        → Keeps P (mount_share_sub_path_at_best_dataportal w export_path sub_path target flags fqdn)
    unfolding mount_share_sub_path_at_best_dataportal
    mount_share_sub_path-Keeps flags fqdn keeps_mount =
        Keeps-with_mount_slot keeps_slot keeps_slot' w _ (
          Keeps-bind _ _ (Keeps-attempt _ (Keeps-call _ _ keeps_portals)) λ listed.
            Keeps-Result listed _ _
              (λ portals. Keeps-bind _ _ (choose_address-Keeps fqdn) λ floating.
                mount_by_flags-Keeps _ (or_resolved fqdn floating portals) flags
                  λ options offered p.
                    mount_to-Keeps floating options p
                      (λ export d. keeps_mount export options d offered))
              λ e. Keeps-raise _)
