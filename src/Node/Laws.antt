-- ===== src/Node/Laws.antt =====
-- What the paths and flags of nested NFS volumes are.
use Prim.Native.String
use Prim.Native.String.{len}
use text.Mathlib.Text.{starts_with}
use text.Mathlib.TextPositions.{len_utf8-pos, slice-append_right, len-append, starts_with-append}
use text.Mathlib.TextEquality.{starts_with_iff}
use text.Mathlib.TextBridge.{IsPrefix}
use text.Mathlib.TextLemmas.{nil-append}
use mathlib.Core.Path.{subst}
use csi_plugin.Base.{
  ◌<◌, ◌≡◌, ◌↔◌, ◌≢◌, refl, ◌∙◌, sym, ap, ◌⊎◌, inl, inr, String, ◌<>◌, ◌==◌, eq_iff, true, false,
  List, [], ◌∷◌, ◌++◌, arith, ltb, Bool-cases,
}
use csi_plugin.Base.Text.{split}
use csi_plugin.Grpc.{ok}
use csi_plugin.Node.{
  trim_string_prefix, nested_nfs_sub_path, option_given, cache_option_given, nested_nfs_mount_flags,
  is_exported, match_under, match_nfs_export, default_data_portal_mount_prefixes,
}

cache_option_given-append :
    (l m : List String) → cache_option_given m ≡ true → cache_option_given (l ++ m) ≡ true
unfolding cache_option_given
cache_option_given-append [] m h = h
cache_option_given-append (f ∷ l) m h = ground (arith, cache_option_given-append l m h)

nosharecache_given : cache_option_given ("nosharecache" ∷ []) ≡ true
unfolding cache_option_given option_given split
nosharecache_given = refl

-- The flags of a nested volume always decide on the sharing of the superblock, and adding the option
-- once more changes nothing.
nested_nfs_mount_flags_idempotent :
    (flags : List String)
    → (cache_option_given (nested_nfs_mount_flags flags) ≡ true)
      × (nested_nfs_mount_flags (nested_nfs_mount_flags flags) ≡ nested_nfs_mount_flags flags)
unfolding nested_nfs_mount_flags
nested_nfs_mount_flags_idempotent flags = elim (Bool-cases (cache_option_given flags)) [
  | inl e ↦ rw e (e, rw e refl)
  | inr e ↦ rw e (
    cache_option_given-append flags _ nosharecache_given,
    rw (cache_option_given-append flags _ nosharecache_given) refl,
  )
]

-- The source stands under an export of the portal.
pub record IsUnderExport (exports : List String) (addr share_export_path sub_path source : String)
    : Type 0 where
  pub prefix : String
  pub exported : is_exported (prefix <> share_export_path) exports ≡ true
  pub at_portal : source ≡ addr <> ":" <> prefix <> share_export_path <> sub_path

match_under-IsUnderExport :
    (prefixes exports : List String) (addr share sub : String)
    → (match_under prefixes exports addr share sub ≡ "")
      ⊎ IsUnderExport exports addr share sub (match_under prefixes exports addr share sub)
unfolding match_under
match_under-IsUnderExport [] exports addr share sub = inl refl
match_under-IsUnderExport (p ∷ prefixes) exports addr share sub =
    elim (Bool-cases (is_exported (p <> share) exports)) [
      | inl e ↦ rw e (inr (record { prefix = p; exported = e; at_portal = refl }))
      | inr e ↦ rw e (match_under-IsUnderExport prefixes exports addr share sub)
    ]

-- matchNFSExport finds nothing, or a source at the portal that stands under one of its exports: a prefix
-- before the export path of the share, and the sub-path behind it.
match_nfs_export-IsUnderExport :
    (exports : List String) (addr share sub : String)
    → (match_nfs_export exports addr share sub ≡ "")
      ⊎ IsUnderExport exports addr share sub (match_nfs_export exports addr share sub)
unfolding match_nfs_export
match_nfs_export-IsUnderExport = match_under-IsUnderExport default_data_portal_mount_prefixes

trimmed : (e s : String) → trim_string_prefix (e <> s) e ≡ s
unfolding trim_string_prefix
trimmed e s = rw (starts_with-append e s) (rw (len-append e s) (slice-append_right e s))

is_equal : (s t : String) → (s == t) ≡ true → s ≡ t
is_equal s t h = ground (arith, eq_iff s t)

too_long : (e s : String) → 0 < len e → s ≢ e <> s
too_long e s h same = omega (arith, ap len same ∙ len-append e s)

prefixed : (v e : String) → IsPrefix e v → v ≡ e <> trim_string_prefix v e
prefixed v e (rest, same) =
    subst (λ v. v ≡ e <> trim_string_prefix v e) same (ap (λ s. e <> s) (sym (trimmed e rest)))

not_whole : (e s : String) → 0 < len e → (s == (e <> s)) ≡ false
not_whole e s h = elim (Bool-cases (s == (e <> s))) [
  | inl same ↦ absurd (too_long e s h (is_equal s (e <> s) same))
  | inr other ↦ other
]

long_enough : (n : String) → 0 < len n → ltb (len ("/" <> n)) 2 ≡ false
long_enough n h = rw (len-append "/" n) (ground arith)

-- The ID of a nested volume, a backing share's export path, "/" and a name, gives the directory "/" and
-- the name inside the share, if neither the path nor the name is empty.
nested_nfs_sub_path_of_id :
    (path name : String)
    → 0 < len path
    → 0 < len name
    → nested_nfs_sub_path (path <> "/" <> name) path ≡ ok ("/" <> name)
unfolding nested_nfs_sub_path
nested_nfs_sub_path_of_id path name h k = rw (trimmed path ("/" <> name)) (
    rw (not_whole path ("/" <> name) h)
      (rw (starts_with-append "/" name) (rw (long_enough name k) refl)))

trim_string_prefix_cases :
    (v e : String) → (trim_string_prefix v e ≡ v) ⊎ (v ≡ e <> trim_string_prefix v e)
trim_string_prefix_cases v e = elim (Bool-cases (starts_with v e)) [
  | inl begins ↦ inr (prefixed v e ((starts_with_iff v e).0 begins))
  | inr apart ↦ inl (unfold trim_string_prefix in rw apart refl)
]

-- The ID is longer than the directory behind it, so something stands before it.
not_empty :
    (volume path sub : String) → volume ≡ path <> sub → (sub == volume) ≡ false → 0 < len path
not_empty volume String.[] sub e n =
    let same = e ∙ nil-append sub in ground (arith, eq_iff sub volume)
not_empty volume (String.◌∷◌ c s) sub e n =
    let (k, positive) = len_utf8-pos c in omega (arith, positive, String.len.cons c s)

answered_inside :
    (volume path sub : String)
    → nested_nfs_sub_path volume path ≡ ok sub
    → (volume ≡ path <> sub) × (0 < len path) × (starts_with sub "/" ≡ true) × (1 < len sub)
unfolding nested_nfs_sub_path
answered_inside volume path sub h = ground (
  arith,
  trim_string_prefix_cases volume path,
  eq_iff (trim_string_prefix volume path) volume,
  not_empty volume path sub,
)

inside_answered :
    (volume path sub : String)
    → (volume ≡ path <> sub) × (0 < len path) × (starts_with sub "/" ≡ true) × (1 < len sub)
    → nested_nfs_sub_path volume path ≡ ok sub
unfolding nested_nfs_sub_path
inside_answered volume path sub (e, p, b, l) =
    rw (e, trimmed path sub, not_whole path sub p, b) (ground (arith, l))

-- nestedNFSSubPath answers a directory exactly if the ID is the export path of the share, which is not
-- empty, with that directory behind it, which begins with "/" and is longer than that. It does not
-- look for ".." in it.
pub nested_nfs_sub_path_iff :
    (volume path sub : String)
    → (nested_nfs_sub_path volume path ≡ ok sub)
      ↔ ((volume ≡ path <> sub) × (0 < len path) × (starts_with sub "/" ≡ true) × (1 < len sub))
nested_nfs_sub_path_iff volume path sub =
    (answered_inside volume path sub, inside_answered volume path sub)
