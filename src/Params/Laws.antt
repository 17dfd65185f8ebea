-- ===== src/Params/Laws.antt =====
-- What holds of every set of parameters that parse_vol_params accepts.
use csi_plugin.Base.{
  ◌≤◌, String, ◌==◌, eq_iff, ◌≡◌, refl, ◌⊎◌, false, Option, none, some, List, [], ◌∷◌, arith,
}
use csi_plugin.Base.Int.{ℤ, Int64}
use csi_plugin.Base.Text.Laws.{has_char-sprintf, has_char-of-contains}
use csi_plugin.Base.Text.{split, contains, count, parse_int, has_char, sprintf}
use csi_plugin.Base.Dict.{Dict}
use csi_plugin.Grpc.{Holds, Holds-any, Holds-bind, Holds-ok, ok}
use csi_plugin.Params.{
  HsVolumeParameters, parse_vol_params, int_or_error, parse_delete_delay, parse_comment,
  keep_objectives, parse_objectives, parse_export_options, parse_name_format, parse_tags,
  parse_objective_target,
}
use Prim.Native.String.{len}

abbrev pub AllNonEmpty : List String → Type 0
AllNonEmpty [] = Unit
AllNonEmpty (s ∷ l) = ((s == "") ≡ false) × AllNonEmpty l

abbrev pub IsTarget : String → Type 0
IsTarget s = (s ≡ "share") ⊎ ((s ≡ "file") ⊎ (s ≡ "both"))

-- The limits that the parser promises to the handlers.
pub record IsValid (p : HsVolumeParameters) : Type 0 where
  pub delay : Int64 p.delete_delay
  pub comment_size : len p.comment ≤ 255
  pub one_verb : count p.volume_name_format "%s" ≡ 1
  pub no_slash : contains p.volume_name_format "/" ≡ false
  pub named : AllNonEmpty p.objectives
  pub target : IsTarget p.objective_target

parse_int-Int64 : (s : String) (z : ℤ) → parse_int s ≡ some z → Int64 z
unfolding parse_int
parse_int-Int64 String.[] z h = cc
parse_int-Int64 (String.◌∷◌ c s) z h = ground arith

Option-Holds : (o : Option ℤ) → ((z : ℤ) → o ≡ some z → Int64 z) → Holds Int64 (int_or_error o)
Option-Holds none h = tt
Option-Holds (some z) h = h z refl

parse_delete_delay-Int64 : (o : Option String) → Holds Int64 (parse_delete_delay o)
unfolding parse_delete_delay
parse_delete_delay-Int64 none = omega arith
parse_delete_delay-Int64 (some v) = Option-Holds (parse_int v) (parse_int-Int64 v)

parse_comment-size : (o : Option String) → Holds (λ c. len c ≤ 255) (parse_comment o)
unfolding parse_comment
parse_comment-size none = omega arith
parse_comment-size (some v) = ground arith

keep_objectives-AllNonEmpty : (l : List String) → AllNonEmpty (keep_objectives l)
unfolding keep_objectives
keep_objectives-AllNonEmpty [] = tt
keep_objectives-AllNonEmpty (o ∷ l) = ground (arith, keep_objectives-AllNonEmpty l)

parse_objectives-AllNonEmpty : (o : Option String) → AllNonEmpty (parse_objectives o)
unfolding parse_objectives
parse_objectives-AllNonEmpty none = tt
parse_objectives-AllNonEmpty (some v) = keep_objectives-AllNonEmpty (split b',' v)

abbrev IsFormat : String → Type 0
IsFormat f = (count f "%s" ≡ 1) × (contains f "/" ≡ false)

parse_name_format-IsFormat : (o : Option String) → Holds IsFormat (parse_name_format o)
unfolding parse_name_format
parse_name_format-IsFormat none = unfold count contains in (refl, refl)
parse_name_format-IsFormat (some v) = ground arith

parse_objective_target-IsTarget : (s : String) → Holds IsTarget (parse_objective_target s)
unfolding parse_objective_target
parse_objective_target-IsTarget s = ground (arith, eq_iff s "file", eq_iff s "both")

module _ (lookup_ip : String → Option (List String)) (params : Dict String) where
  -- On success every field is within the limits that the handlers rely on: a 64-bit delay, a comment of
  -- at most 255 bytes, a name format with one verb and no slash, no empty objective, a known target.
  parse_vol_params-Holds : Holds IsValid (parse_vol_params lookup_ip params)
  unfolding parse_vol_params
  parse_vol_params-Holds =
      Holds-bind Int64 IsValid (parse_delete_delay _) _ (parse_delete_delay-Int64 _) λ delay hd.
        Holds-bind (λ c. len c ≤ 255) IsValid (parse_comment _) _ (parse_comment-size _)
          λ comment hc.
            Holds-bind (λ _. Unit {0}) IsValid (parse_export_options _) _ (Holds-any _)
              λ exports _.
                Holds-bind IsFormat IsValid (parse_name_format _) _ (parse_name_format-IsFormat _)
                  λ format hf.
                    Holds-bind (λ _. Unit {0}) IsValid (parse_tags _) _ (Holds-any _)
                      λ tags _.
                        Holds-bind IsTarget IsValid (parse_objective_target _) _
                          (parse_objective_target-IsTarget _)
                          λ target ht. record {
                            delay = hd;
                            comment_size = hc;
                            one_verb = hf.0;
                            no_slash = hf.1;
                            named = parse_objectives-AllNonEmpty _;
                            target = ht;
                          }

-- An accepted set of parameters is valid: the delay is a 64-bit integer, the comment has at most 255
-- bytes, the name format has one verb and no slash, no objective is empty, and the objective target
-- is share, file or both.
parse_vol_params-IsValid :
    (lookup_ip : String → Option (List String)) (params : Dict String) (p : HsVolumeParameters)
    → parse_vol_params lookup_ip params ≡ ok p
    → IsValid p
parse_vol_params-IsValid lookup_ip params p h =
    Holds-ok IsValid _ (parse_vol_params-Holds lookup_ip params) h

-- The name that an accepted format gives a volume has no slash, if the requested name has none.
volume_name-no-slash :
    (lookup_ip : String → Option (List String)) (params : Dict String) (p : HsVolumeParameters)
    (name : String)
    → parse_vol_params lookup_ip params ≡ ok p
    → has_char b'/' name ≡ false
    → has_char b'/' (sprintf p.volume_name_format name) ≡ false
volume_name-no-slash lookup_ip params p name h k =
    has_char-sprintf b'/' p.volume_name_format name
      (has_char-of-contains _ (parse_vol_params-IsValid lookup_ip params p h).no_slash) k
