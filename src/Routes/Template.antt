-- ===== src/Routes/Template.antt =====
-- What is replaced in a route.
use csi_plugin.Base.{String, ◌≡◌, ◌≢◌, ◌⊎◌, Bool, List, [], ◌∷◌, if◌then◌else◌}
use csi_plugin.Routes.{fill, collapse_one}

abbrev Elem : String → List String → Type 0
Elem s [] = ⊥
Elem s (t ∷ l) = (s ≡ t) ⊎ Elem s l

-- Behind these stands an identifier, behind "file-snapshots" one or the word "list", and behind an action
-- there are identifiers to the end.
abbrev collections : List String
collections = "shares" ∷ "tasks" ∷ "files" ∷ "objectives" ∷ []

abbrev actions : List String
actions = "snapshot-create" ∷ "snapshot-list" ∷ "snapshot-delete" ∷ []

abbrev IsPlace : String → Type 0
IsPlace s = (s ≡ "") ⊎ (s ≡ "{id}")

abbrev AllPlaces : List String → Type 0
AllPlaces [] = Unit
AllPlaces (s ∷ l) = IsPlace s × AllPlaces l

abbrev pub IsTemplate : List String → Type 0
IsTemplate [] = Unit
IsTemplate (s ∷ []) = Unit
IsTemplate (s ∷ t ∷ l) =
    ((¬ Elem s collections) ⊎ IsPlace t)
    × ((s ≢ "file-snapshots") ⊎ (IsPlace t ⊎ (t ≡ "list")))
    × ((¬ Elem s actions) ⊎ AllPlaces (t ∷ l))
    × IsTemplate (t ∷ l)

-- Each segment is as it was, or "{id}" behind one of the words; `Filled` is whether an action came before.
abbrev AreKept : Type 0 → String → List String → List String → Type 0
AreKept Filled before [] [] = Unit
AreKept Filled before [] (t ∷ m) = ⊥
AreKept Filled before (s ∷ l) [] = ⊥
AreKept Filled before (s ∷ l) (t ∷ m) =
    ((t ≡ s)
      ⊎ ((t ≡ "{id}")
          × (Filled
              ⊎ (Elem before collections ⊎ ((before ≡ "file-snapshots") ⊎ Elem before actions)))))
    × AreKept (Filled ⊎ Elem before actions) t l m

-- Why a segment may be replaced that stands behind `b`.
abbrev Reason : String → Type 0
Reason b = Elem b collections ⊎ ((b ≡ "file-snapshots") ⊎ Elem b actions)

-- What must be true of the segments behind `b`.
module _ (b s : String) (f : Bool) (l : List String) where
  abbrev t : String
  t = collapse_one b (if f then fill s else s)

-- The first segment is as it was.
abbrev pub AreKeptFromStart : List String → List String → Type 0
AreKeptFromStart [] m = ⊥
AreKeptFromStart (s ∷ l) [] = ⊥
AreKeptFromStart (s ∷ l) (t ∷ m) = (t ≡ s) × AreKept ⊥ t l m
