-- ===== src/Base/Text/Laws.antt =====
-- How `split` takes apart what was put together with a separator.
use csi_plugin.Base.Tests.{eqb, Bool-cases}
use csi_plugin.Base.Text.{cons_head, join, split, has_char, sprintf, contains, base, dir}
use Prim.Native.Nat.{ℕ}
use Prim.Native.Char.{Char, code}
use Prim.Native.String
use Prim.Native.String.{String, ◌++◌ as ◌<>◌}
use mathlib.Core.Path.{◌≡◌, refl}
use mathlib.Core.Logic.{inl, inr}
use mathlib.Core.Bool.{true, false}
use mathlib.Core.List.{List, [], ◌∷◌}
use native.Mathlib.Omega.{arith}
use text.Mathlib.Text.{◌==◌, starts_with}
use text.Mathlib.TextEquality.{Char-path}
use text.Mathlib.TextPositions.{starts_with-append}
use text.Mathlib.TextLemmas.{cons-append, nil-append}

-- A text without the separator is one part.
pub split-of-part : (sep : ℕ) (s : String) → has_char sep s ≡ false → split sep s ≡ s ∷ []
unfolding split has_char
split-of-part sep String.[] h = refl
split-of-part sep (String.◌∷◌ c s) h = ground (arith, split-of-part sep s)

-- The first part ends at the first separator.
pub split-append :
    (sep : ℕ) (s t : String) (c : Char)
    → code c ≡ sep
    → has_char sep s ≡ false
    → split sep (s <> String.◌∷◌ c t) ≡ s ∷ split sep t
unfolding split has_char
split-append sep String.[] t c e h = rw nil-append (ground arith)
split-append sep (String.◌∷◌ d s) t c e h =
    rw cons-append (ground (arith, split-append sep s t c e))

-- A separator of one character, in front of a text.
pub separator : (c : Char) (t : String) → String.◌∷◌ c "" <> t ≡ String.◌∷◌ c t
separator c t = rw (cons-append, nil-append)

-- Parts without the separator.
abbrev pub AllWithout : ℕ → List String → Type 0
AllWithout sep [] = Unit
AllWithout sep (s ∷ l) = (has_char sep s ≡ false) × AllWithout sep l

cons_head-AllWithout :
    (sep : ℕ) (c : Char) (l : List String)
    → eqb (code c) sep ≡ false
    → AllWithout sep l
    → AllWithout sep (cons_head c l)
unfolding cons_head has_char
cons_head-AllWithout sep c [] e h = tt
cons_head-AllWithout sep c (s ∷ l) e (h, hs) = (rw e h, hs)

pub split-AllWithout : (sep : ℕ) (s : String) → AllWithout sep (split sep s)
unfolding split has_char
split-AllWithout sep String.[] = (refl, tt)
split-AllWithout sep (String.◌∷◌ c s) =
    let rest = split-AllWithout sep s in
    elim (Bool-cases (eqb (code c) sep)) [
      | inl e ↦ rw e (refl, rest)
      | inr e ↦ rw e (cons_head-AllWithout sep c (split sep s) e rest)
    ]

-- There is a first part.
abbrev pub HasFirst : List String → Type 0
HasFirst [] = ⊥
HasFirst (s ∷ l) = Unit

cons_head-HasFirst : (c : Char) (l : List String) → HasFirst l → HasFirst (cons_head c l)
unfolding cons_head
cons_head-HasFirst c [] h = h
cons_head-HasFirst c (s ∷ l) h = tt

pub split-HasFirst : (sep : ℕ) (s : String) → HasFirst (split sep s)
unfolding split
split-HasFirst sep String.[] = tt
split-HasFirst sep (String.◌∷◌ c s) =
    let rest = cons_head-HasFirst c (split sep s) (split-HasFirst sep s) in
    elim (Bool-cases (eqb (code c) sep)) [ inl e ↦ rw e tt | inr e ↦ rw e rest ]

-- Parts that are joined are found again.
pub split-join :
    (c : Char) (s : String) (l : List String)
    → AllWithout (code c) (s ∷ l)
    → split (code c) (join (String.◌∷◌ c "") (s ∷ l)) ≡ s ∷ l
unfolding join
split-join c s [] (h, hs) = split-of-part (code c) s h
split-join c s (t ∷ l) (h, hs) =
    let rest = join (String.◌∷◌ c "") (t ∷ l) in
    rw (separator c rest, split-append (code c) s rest c refl h, split-join c t l hs) refl

pub cons-ne-empty : (c : Char) (t : String) → (String.◌∷◌ c t == "") ≡ false
cons-ne-empty c t = rw (String.compare.cons-nil c t)

pub root-ne-share : (share : String) → (share == "") ≡ false → ("/" <> share == "/") ≡ false
root-ne-share share h = rw (separator "/" share, String.compare.cons-cons "/" "/" share "") h

-- A name that `path.Clean` keeps as it is.
pub record IsName (s : String) : Type 0 where
  pub no_slash : has_char b'/' s ≡ false
  pub not_empty : (s == "") ≡ false
  pub not_dot : (s == ".") ≡ false
  pub not_dots : (s == "..") ≡ false

pub split-share :
    (share : String) → has_char b'/' share ≡ false → split b'/' ("/" <> share) ≡ "" ∷ share ∷ []
split-share share h =
    rw (separator "/" share) (unfold split in ground (arith, split-of-part b'/' share h))

pub split-file :
    (share file : String)
    → has_char b'/' share ≡ false
    → has_char b'/' file ≡ false
    → split b'/' ("/" <> share <> "/" <> file) ≡ "" ∷ share ∷ file ∷ []
split-file share file h k =
    rw (separator "/" file, separator "/" (share <> String.◌∷◌ "/" file))
      (unfold split in
        ground (arith, split-append b'/' share file "/" refl h, split-of-part b'/' file k))

-- The directory of a path with one component is the root.
pub dir-share : (share : String) → has_char b'/' share ≡ false → dir ("/" <> share) ≡ "/"
unfolding dir
dir-share share h = rw (split-share share h, separator "/" share)

-- The directory of a path with two components is the first, if it is a name.
pub dir-file :
    (share file : String)
    → IsName share
    → has_char b'/' file ≡ false
    → dir ("/" <> share <> "/" <> file) ≡ "/" <> share
unfolding dir
dir-file share file n k =
    rw (split-file share file n.no_slash k, separator "/" (share <> "/" <> file)) (ground arith)

pub base-share :
    (share : String)
    → has_char b'/' share ≡ false
    → (share == "") ≡ false
    → base ("/" <> share) ≡ share
unfolding base
base-share share h k =
    rw (split-share share h, separator "/" share) (ground (arith, cons-ne-empty "/" share))

pub base-file :
    (share file : String)
    → has_char b'/' share ≡ false
    → IsName file
    → base ("/" <> share <> "/" <> file) ≡ file
unfolding base
base-file share file h n =
    rw (split-file share file h n.no_slash, separator "/" (share <> "/" <> file))
      (ground (arith, cons-ne-empty "/" (share <> "/" <> file)))

pub has_char-append :
    (sep : ℕ) (s t : String)
    → has_char sep s ≡ false
    → has_char sep t ≡ false
    → has_char sep (s <> t) ≡ false
unfolding has_char
has_char-append sep String.[] t h k = rw nil-append k
has_char-append sep (String.◌∷◌ c s) t h k =
    rw cons-append (ground (arith, has_char-append sep s t))

-- A format without the separator gives a text without it, if the argument has none.
pub has_char-sprintf :
    (sep : ℕ) (format arg : String)
    → has_char sep format ≡ false
    → has_char sep arg ≡ false
    → has_char sep (sprintf format arg) ≡ false
unfolding has_char sprintf
has_char-sprintf sep String.[] arg h k = refl
has_char-sprintf sep (String.◌∷◌ c String.[]) arg h k = h
has_char-sprintf sep (String.◌∷◌ c (String.◌∷◌ d s)) arg h k =
    ground (arith, has_char-sprintf sep (String.◌∷◌ d s) arg, has_char-append sep arg s)

starts_with-slash :
    (c : Char) (s : String) → code c ≡ b'/' → starts_with (String.◌∷◌ c s) "/" ≡ true
starts_with-slash c s e = rw (Char-path c "/" e, ← separator "/" s) (starts_with-append "/" s)

pub has_char-of-contains : (s : String) → contains s "/" ≡ false → has_char b'/' s ≡ false
unfolding contains has_char
has_char-of-contains String.[] h = refl
has_char-of-contains (String.◌∷◌ c s) h =
    ground (arith, starts_with-slash c s, has_char-of-contains s)
