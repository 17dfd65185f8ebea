-- ===== src/Host/Mounting/Laws.antt =====
-- What GetNFSExports and SetMetadataTags answer.
use csi_plugin.Base.{
  String, ◌==◌, ◌≡◌, ◌≢◌, refl, Option, none, some, List, [], ◌∷◌, Bool-cases, inl, inr,
}
use csi_plugin.Base.Dict.{Dict}
use csi_plugin.Base.Text.{split}
use csi_plugin.Effect.{continue, on_result, pure, raise, ◌>>=◌}
use csi_plugin.Effect.Keeps.{Returns, Returns-bind, Outcome}
use csi_plugin.Grpc.{Result, ok, err, Holds}
use csi_plugin.Host.{Machine, Op, Calls, exec_command}
use csi_plugin.Host.Mounting.{
  pieces, first_field, with_first, exports_in, or_no_exports, get_nfs_exports, set_tags,
  set_metadata_tags,
}

-- None of the texts is empty.
unfoldable pub NoneEmpty : List String → Type 0
NoneEmpty [] = Unit
NoneEmpty (s ∷ l) = (s ≢ "") × NoneEmpty l

abbrev Nonempty : Option String → Type 0
Nonempty none = Unit
Nonempty (some s) = s ≢ ""

first_field-Nonempty : (l : List String) → Nonempty (first_field l)
unfolding first_field
first_field-Nonempty [] = tt
first_field-Nonempty (s ∷ l) = elim (Bool-cases (s == "")) [
  | inl empty ↦ rw empty (first_field-Nonempty l)
  | inr full ↦ rw full λ e. cc (rw e at full)
]

with_first-NoneEmpty :
    (o : Option String) (l : List String) → Nonempty o → NoneEmpty l → NoneEmpty (with_first o l)
unfolding NoneEmpty
with_first-NoneEmpty none l n h = h
with_first-NoneEmpty (some s) l n h = (n, h)

exports_in-NoneEmpty : (lines : List String) → NoneEmpty (exports_in lines)
unfolding exports_in NoneEmpty
exports_in-NoneEmpty [] = tt
exports_in-NoneEmpty (line ∷ lines) =
    with_first-NoneEmpty _ _ (first_field-Nonempty (pieces line)) (exports_in-NoneEmpty lines)

abbrev pub IsExports : List String → Type 0
IsExports [] = ⊥
IsExports (s ∷ l) = NoneEmpty (s ∷ l)

or_no_exports-IsExports : (l : List String) → NoneEmpty l → Holds IsExports (or_no_exports l)
or_no_exports-IsExports [] h = tt
or_no_exports-IsExports (s ∷ l) h = h

abbrev Anything : Calls → Type 0
Anything h = Unit

any_outcome : {A : Type 0} (r : Result A) (h : Calls) → Outcome (λ (a : A). Anything) Anything r h
any_outcome (ok a) h = tt
any_outcome (err e) h = tt

Returns-any : {A : Type 0} (o : Op A) → Returns Anything (λ (a : A). Anything) Anything o
Returns-any o = record { at = λ h p. any_outcome (o h).0 (o h).1 }

abbrev Listing : List String → Calls → Type 0
Listing l h = IsExports l

listed : (r : Result (List String)) (h : Calls) → Holds IsExports r → Outcome Listing Anything r h
listed (ok l) h p = p
listed (err e) h p = tt

held : (r : Result (List String)) (h : Calls) → Outcome Listing Anything r h → Holds IsExports r
held (ok l) h p = p
held (err e) h p = tt

on_result_ok :
    (r : Result String) (f : String → Op (Unit {0})) (h : Calls)
    → ((s : String) (h : Calls) → (f s h).0 ≡ ok tt)
    → (on_result r f (λ e. pure tt) h).0 ≡ ok tt
on_result_ok (ok s) f h k = k s h
on_result_ok (err e) f h k = refl

-- The result of a command, without what it printed.
abbrev pub outcome : Result String → Result (Unit {0})
outcome (ok output) = ok tt
outcome (err e) = err e

module _ (m : Machine) where
  -- GetNFSExports answers no empty list, and no export in it is the empty text (of which every path
  -- would be a part).
  get_nfs_exports-IsExports :
      (address : String) (h : Calls) → Holds IsExports (get_nfs_exports m address h).0
  unfolding get_nfs_exports
  get_nfs_exports-IsExports address h =
      held (get_nfs_exports m address h).0 (get_nfs_exports m address h).1 (
        (Returns-bind _ _ (Returns-any _) λ output. Returns-bind _ _ (Returns-any _) λ expired.
            Returns-bind _ _ (Returns-any _) λ _. Returns-bind _ _ (Returns-any _) λ text. record {
              at = λ t p.
                  listed (or_no_exports (exports_in (split 10 text))) t
                    (or_no_exports-IsExports _ (exports_in-NoneEmpty (split 10 text)));
            }).at
          h tt)

  -- A tag that fails does not fail the loop over the tags.
  set_tags_ok :
      (path : String) (tags : Dict String) (h : Calls) → (set_tags m path tags h).0 ≡ ok tt
  unfolding set_tags ◌>>=◌
  set_tags_ok path [] h = refl
  set_tags_ok path ((key, value) ∷ tags) h =
      on_result_ok
        (exec_command m ("hs" ∷ "-v" ∷ "tag" ∷ "set" ∷ "-e" ∷ value ∷ key ∷ path ∷ []) h).0
        (λ _. set_tags m path tags) _ λ s. set_tags_ok path tags

  answered :
      (tagged : Result (Unit {0})) (output : Result String) (h : Calls)
      → tagged ≡ ok tt
      → (continue tagged (λ _. on_result output (λ _. pure tt) raise) h).0 ≡ outcome output
  answered (ok _) (ok s) h e = refl
  answered (ok _) (err x) h e = refl
  answered (err x) output h e = cc

  -- What SetMetadataTags answers is how the command for the details of the plugin ended, whatever the
  -- tags are and whether they could be set.
  pub set_metadata_tags_lem :
      (details path : String) (tags : Dict String) (h : Calls)
      → (set_metadata_tags m details path tags h).0
        ≡ outcome
            (exec_command m ("hs" ∷ "attribute" ∷ "set" ∷ "CSI_DETAILS" ∷ details ∷ path ∷ []) h).0
  unfolding set_metadata_tags ◌>>=◌
  set_metadata_tags_lem details path tags h =
      answered _
        (exec_command m ("hs" ∷ "attribute" ∷ "set" ∷ "CSI_DETAILS" ∷ details ∷ path ∷ []) h).0 _
        (set_tags_ok path tags
          (exec_command m ("hs" ∷ "attribute" ∷ "set" ∷ "CSI_DETAILS" ∷ details ∷ path ∷ []) h).1)
