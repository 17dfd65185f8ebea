-- ===== src/Params/Errors.antt =====
-- How parameters and sizes are refused.
use csi_plugin.Base.{
  String, eq_iff, ◌≡◌, ◌≢◌, refl, ◌↔◌, ◌⊎◌, inl, inr, sym, Option, none, some, List, [], ◌∷◌, arith,
}
use mathlib.Core.Path.{subst}
use csi_plugin.Base.Int.{ℤ, pos, ◌≤ℤ◌}
use csi_plugin.Base.Dict.{Dict}
use csi_plugin.Grpc.{Error, ok, err, Fails, Fails-bind, Fails-err, invalid_argument, code_of}
use csi_plugin.Params.{
  parse_vol_params, parse_delete_delay, parse_comment, parse_export_option, parse_export_options,
  parse_export_list, parse_name_format, tag_of, parse_tag_list, parse_tags, parse_objective_target,
  check_file_backed_min_size, min_xfs_size_bytes, min_ext4_size_bytes,
}

abbrev IsInvalid : Error → Type 0
IsInvalid e = code_of e ≡ invalid_argument

parse_export_option-Fails : (l : List String) → Fails IsInvalid (parse_export_option l)
unfolding parse_export_option
parse_export_option-Fails (a ∷ b ∷ c ∷ []) = ground arith
parse_export_option-Fails _ = refl

parse_export_list-Fails : (l : List String) → Fails IsInvalid (parse_export_list l)
unfolding parse_export_list
parse_export_list-Fails [] = tt
parse_export_list-Fails (o ∷ l) =
    Fails-bind IsInvalid _ _ (parse_export_option-Fails _)
      λ a. Fails-bind IsInvalid _ _ (parse_export_list-Fails l) λ b. tt

tag_of-Fails : (l : List String) (tags : Dict String) → Fails IsInvalid (tag_of l tags)
unfolding tag_of
tag_of-Fails (k ∷ v ∷ []) tags = tt
tag_of-Fails _ tags = refl

parse_tag_list-Fails :
    (l : List String) (tags : Dict String) → Fails IsInvalid (parse_tag_list l tags)
unfolding parse_tag_list
parse_tag_list-Fails [] tags = tt
parse_tag_list-Fails (m ∷ l) tags =
    Fails-bind IsInvalid _ _ (tag_of-Fails _ tags) λ tags'. parse_tag_list-Fails l tags'

parse_delete_delay-Fails : (o : Option String) → Fails IsInvalid (parse_delete_delay o)
unfolding parse_delete_delay
parse_delete_delay-Fails none = tt
parse_delete_delay-Fails (some v) = ground arith

parse_comment-Fails : (o : Option String) → Fails IsInvalid (parse_comment o)
unfolding parse_comment
parse_comment-Fails none = tt
parse_comment-Fails (some v) = ground arith

parse_export_options-Fails : (o : Option String) → Fails IsInvalid (parse_export_options o)
unfolding parse_export_options
parse_export_options-Fails none = tt
parse_export_options-Fails (some v) = parse_export_list-Fails _

parse_name_format-Fails : (o : Option String) → Fails IsInvalid (parse_name_format o)
unfolding parse_name_format
parse_name_format-Fails none = tt
parse_name_format-Fails (some v) = ground arith

parse_tags-Fails : (o : Option String) → Fails IsInvalid (parse_tags o)
unfolding parse_tags
parse_tags-Fails none = tt
parse_tags-Fails (some v) = parse_tag_list-Fails _ []

parse_objective_target-Fails : (s : String) → Fails IsInvalid (parse_objective_target s)
unfolding parse_objective_target
parse_objective_target-Fails s = ground arith

-- Parameters that are not accepted are answered with InvalidArgument, whichever of them is wrong.
parse_vol_params_error :
    (lookup_ip : String → Option (List String)) (params : Dict String) (e : Error)
    → parse_vol_params lookup_ip params ≡ err e
    → code_of e ≡ invalid_argument
unfolding parse_vol_params
parse_vol_params_error lookup_ip params e =
    Fails-err IsInvalid (parse_vol_params lookup_ip params) (
      Fails-bind IsInvalid (parse_delete_delay _) _ (parse_delete_delay-Fails _) λ delay.
        Fails-bind IsInvalid (parse_comment _) _ (parse_comment-Fails _) λ comment.
          Fails-bind IsInvalid (parse_export_options _) _ (parse_export_options-Fails _) λ exports.
            Fails-bind IsInvalid (parse_name_format _) _ (parse_name_format-Fails _) λ format.
              Fails-bind IsInvalid (parse_tags _) _ (parse_tags-Fails _) λ tags.
                Fails-bind IsInvalid (parse_objective_target _) _ (parse_objective_target-Fails _)
                  λ target. tt)

abbrev pub IsLargeEnough : String → ℤ → Type 0
IsLargeEnough fs_type size =
    ((fs_type ≡ "xfs") × (pos min_xfs_size_bytes ≤ℤ size))
    ⊎ (((fs_type ≡ "ext4") × (pos min_ext4_size_bytes ≤ℤ size))
        ⊎ ((fs_type ≢ "xfs") × (fs_type ≢ "ext4") × (fs_type ≢ "ext3")))

accepts_xfs :
    (size : ℤ) → pos min_xfs_size_bytes ≤ℤ size → check_file_backed_min_size "xfs" size ≡ ok tt
unfolding check_file_backed_min_size
accepts_xfs size h = ground arith

accepts_ext4 :
    (size : ℤ) → pos min_ext4_size_bytes ≤ℤ size → check_file_backed_min_size "ext4" size ≡ ok tt
unfolding check_file_backed_min_size
accepts_ext4 size h = ground arith

refuses_ext3 :
    (size : ℤ) (fs_type : String)
    → check_file_backed_min_size fs_type size ≡ ok tt
    → fs_type ≢ "ext3"
unfolding check_file_backed_min_size
refuses_ext3 size fs_type h e = cc (subst (λ s. check_file_backed_min_size s size ≡ ok tt) e h)

accepts :
    (fs_type : String) (size : ℤ)
    → IsLargeEnough fs_type size
    → check_file_backed_min_size fs_type size ≡ ok tt
unfolding check_file_backed_min_size
accepts fs_type size (inl (e, h)) =
    subst (λ s. check_file_backed_min_size s size ≡ ok tt) (sym e) (accepts_xfs size h)
accepts fs_type size (inr (inl (e, h))) =
    subst (λ s. check_file_backed_min_size s size ≡ ok tt) (sym e) (accepts_ext4 size h)
accepts fs_type size (inr (inr (a, b, c))) =
    ground (arith, eq_iff fs_type "xfs", eq_iff fs_type "ext4", eq_iff fs_type "ext3")

-- A file-backed size is accepted exactly if the file system is not ext3, and it is xfs or ext4 and the
-- size is not below its minimum, or is another one.
pub check_file_backed_min_size_iff :
    (fs_type : String) (size : ℤ)
    → (check_file_backed_min_size fs_type size ≡ ok tt) ↔ IsLargeEnough fs_type size
unfolding check_file_backed_min_size
check_file_backed_min_size_iff fs_type size = (
  λ h. ground (arith, eq_iff fs_type "xfs", eq_iff fs_type "ext4", refuses_ext3 size fs_type h),
  accepts fs_type size,
)
