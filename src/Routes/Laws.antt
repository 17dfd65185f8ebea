-- ===== src/Routes/Laws.antt =====
-- That a route is its own route.
use csi_plugin.Base.{
  String, ◌==◌, ◌≡◌, refl, ap, ◌∙◌, Bool, true, false, ◌||◌, not, ◌&&◌, List, [], ◌∷◌, arith,
  eq_iff, if◌then◌else◌,
}
use csi_plugin.Base.Text.{split, join, has_char}
use csi_plugin.Base.Text.Laws.{AllWithout, HasFirst, split-HasFirst, split-AllWithout, split-join}
use csi_plugin.Routes.{
  is_collection, is_snapshot_action, fill, collapse_one, collapse, collapse_from_start, anvil_route,
}

fill-fill : (s : String) → fill (fill s) ≡ fill s
unfolding fill
fill-fill s = ground (arith, eq_iff s "")

collapse_one-again : (b s : String) → collapse_one b (collapse_one b s) ≡ collapse_one b s
unfolding collapse_one
collapse_one-again b s = ground (arith, fill-fill s, eq_iff s "", eq_iff s "list")

collapse_one-fill : (b s : String) → fill (collapse_one b (fill s)) ≡ collapse_one b (fill s)
unfolding collapse_one fill
collapse_one-fill b s = ground (arith, eq_iff s "")

module _ (b s : String) where
  again :
      (f g : Bool)
      → (g ≡ true → f ≡ true)
      → collapse_one b (
          if g
          then fill (collapse_one b (if f then fill s else s))
          else collapse_one b (if f then fill s else s))
        ≡ collapse_one b (if f then fill s else s)
  again true true h = rw collapse_one-fill (collapse_one-again b (fill s))
  again true false h = collapse_one-again b (fill s)
  again false true h = let f = h refl in cc
  again false false h = collapse_one-again b s

also : (f g k : Bool) → (g ≡ true → f ≡ true) → (g || k) ≡ true → (f || k) ≡ true
also true g k h e = refl
also false true k h e = let f = h refl in cc
also false false k h e = e

collapse-again :
    (f g : Bool) (b : String) (l : List String)
    → (g ≡ true → f ≡ true)
    → collapse g b (collapse f b l) ≡ collapse f b l
unfolding collapse
collapse-again f g b [] h = refl
collapse-again f g b (s ∷ l) h = rw (again b s f g h) (
    ap (λ r. collapse_one b (if f then fill s else s) ∷ r)
      (collapse-again (f || is_snapshot_action b) (g || is_snapshot_action b)
        (collapse_one b (if f then fill s else s)) l (also f g (is_snapshot_action b) h)))

abbrev NoSlash : String → Type 0
NoSlash s = has_char b'/' s ≡ false

abbrev AllNoSlash : List String → Type 0
AllNoSlash l = AllWithout b'/' l

if-NoSlash : (b : Bool) (s t : String) → NoSlash s → NoSlash t → NoSlash (if b then s else t)
if-NoSlash true s t h k = h
if-NoSlash false s t h k = k

fill-NoSlash : (s : String) → NoSlash s → NoSlash (fill s)
unfolding fill has_char
fill-NoSlash s h = if-NoSlash (s == "") s "{id}" h refl

collapse_one-NoSlash : (b s : String) → NoSlash s → NoSlash (collapse_one b s)
unfolding collapse_one has_char
collapse_one-NoSlash b s h = if-NoSlash (is_collection b) _ _ (fill-NoSlash s h) (
    if-NoSlash (b == "file-snapshots") _ _
      (if-NoSlash (not (s == "") && not (s == "list")) "{id}" s refl h)
      (if-NoSlash (is_snapshot_action b) _ _ (fill-NoSlash s h) h))

collapse-NoSlash :
    (l : List String) (f : Bool) (b : String) → AllNoSlash l → AllNoSlash (collapse f b l)
unfolding collapse
collapse-NoSlash [] f b h = tt
collapse-NoSlash (s ∷ l) f b (h, hs) = (
  collapse_one-NoSlash b _ (if-NoSlash f (fill s) s (fill-NoSlash s h) h),
  collapse-NoSlash l _ _ hs,
)

split-join_collapsed :
    (l : List String)
    → HasFirst l
    → AllNoSlash l
    → split b'/' (join "/" (collapse_from_start l)) ≡ collapse_from_start l
unfolding collapse_from_start
split-join_collapsed [] first h = absurd first
split-join_collapsed (s ∷ l) first (h, hs) =
    split-join "/" s (collapse false s l) (h, collapse-NoSlash l false s hs)

-- The segments of a route are those of the path with their replacements.
pub split-anvil_route :
    (url_path : String)
    → split b'/' (anvil_route url_path) ≡ collapse_from_start (split b'/' url_path)
unfolding anvil_route
split-anvil_route url_path =
    split-join_collapsed (split b'/' url_path) (split-HasFirst b'/' url_path)
      (split-AllWithout b'/' url_path)

collapse_from_start-again :
    (l : List String) → collapse_from_start (collapse_from_start l) ≡ collapse_from_start l
unfolding collapse_from_start
collapse_from_start-again [] = refl
collapse_from_start-again (s ∷ l) = ap (λ r. s ∷ r) (collapse-again false false s l (λ e. e))

-- A route is its own route, whatever the path is.
anvil_route-again : (url_path : String) → anvil_route (anvil_route url_path) ≡ anvil_route url_path
unfolding anvil_route
anvil_route-again url_path =
    ap (λ l. join "/" (collapse_from_start l)) (split-anvil_route url_path)
    ∙ ap (join "/") (collapse_from_start-again (split b'/' url_path))
