-- ===== src/Host/Growth/Laws.antt =====
-- The sizes of file systems are computed without overflow where the code checks it.
use csi_plugin.Base.{
  ℕ, ◌+◌, ◌*◌, ◌/◌, ◌^◌, ◌-◌, ◌≤◌, ◌<◌, String, ◌≡◌, ◌∙◌, sym, refl, [], true, false, Option, none,
  some, ltb, arith, Bool-cases, inl, inr,
}
use csi_plugin.Base.Dict.{lookup}
use csi_plugin.Base.Int.{ℤ, pos, negsuc, ltb_ℤ, mul64, sub64_nonneg, mul64_nonneg}
use csi_plugin.Base.Text.{split}
use csi_plugin.Grpc.{Result, ok, err, Holds, Holds-bind, Holds-any, guard, plain, ◌>>=◌, ◌>>◌}
use csi_plugin.Host.Growth.{
  keys, read_lines, parse_filesystem_geometry, parse_filesystem_size, check_geometry, overflows,
  exceeds_slack, filesystem_growth_slack,
}
use mathlib.Core.Bool.{or-true}
use native.Mathlib.Nat.{le-div_iff_mul-le}

-- Both numbers are above 0.
abbrev IsPositive : ℤ × ℤ → Type 0
IsPositive (pos c, pos s) = (0 < c) × (0 < s)
IsPositive (pos c, negsuc s) = ⊥
IsPositive (negsuc c, s) = ⊥

negative : (n : ℕ) → ltb_ℤ (pos 0) (negsuc n) ≡ false
negative n = ground arith

positive : (n : ℕ) → ltb_ℤ (pos 0) (pos n) ≡ true → 0 < n
positive n h = ground arith

check_geometry-IsPositive : (c s : Option ℤ) → Holds IsPositive (check_geometry c s)
unfolding check_geometry
check_geometry-IsPositive none s = tt
check_geometry-IsPositive (some c) none = tt
check_geometry-IsPositive (some (negsuc c)) (some s) = rw (negative c) tt
check_geometry-IsPositive (some (pos c)) (some (negsuc s)) = rw (negative s, or-true) tt
check_geometry-IsPositive (some (pos c)) (some (pos s)) =
    elim (Bool-cases (ltb_ℤ (pos 0) (pos c))) [
      | inr low ↦ rw low tt
      | inl high ↦ elim (Bool-cases (ltb_ℤ (pos 0) (pos s))) [
        | inr low ↦ rw (high, low) tt
        | inl high' ↦ rw (high, high') (positive c high, positive s high')
      ]
    ]

geometry-IsPositive :
    (output fs_type : String) → Holds IsPositive (parse_filesystem_geometry output fs_type)
unfolding parse_filesystem_geometry
geometry-IsPositive output fs_type =
    let (count_key, size_key, sep) = keys fs_type in
    Holds-bind (λ v. Unit {0}) IsPositive (read_lines count_key size_key sep (split 10 output) [])
      (λ values. check_geometry (lookup count_key values) (lookup size_key values)) (Holds-any _)
      λ values _. check_geometry-IsPositive _ _

not_below : (q c : ℕ) → ltb q c ≡ false → c ≤ q
not_below q c h = ground arith

value : {a b : ℤ} → ok a ≡ ok b → a ≡ b
value h = cc

accepted :
    (r : Result (ℤ × ℤ)) (n : ℤ)
    → Holds IsPositive r
    → (r >>= λ g.
        guard (overflows g.0 g.1) (plain "filesystem size overflows int64") >> ok (mul64 g.0 g.1))
      ≡ ok n
    → (c : ℕ) × (s : ℕ) × (r ≡ ok (pos c, pos s)) × (n ≡ pos (c * s)) × (c * s ≤ 2 ^ 63 - 1)
accepted (err e) n p h = cc
accepted (ok (pos c, negsuc s)) n p h = absurd p
accepted (ok (negsuc c, s)) n p h = absurd p
accepted (ok (pos c, pos s)) n (hc, hs) h = elim (Bool-cases (ltb ((2 ^ 63 - 1) / s) c)) [
  | inl over ↦ cc (rw over at h)
  | inr fits ↦
      let within = (le-div_iff_mul-le hs).0 (not_below ((2 ^ 63 - 1) / s) c fits) in
      (c, s, refl, sym (value (rw fits at h)) ∙ mul64_nonneg c s within, within)
]

-- A size that parseFilesystemSize accepts is the product of the block count and the block size that it
-- read from the text, computed without overflow.
pub parse_filesystem_size-IsProduct :
    (output fs_type : String) (n : ℤ)
    → parse_filesystem_size output fs_type ≡ ok n
    → (c : ℕ) × (s : ℕ) × (parse_filesystem_geometry output fs_type ≡ ok (pos c, pos s))
      × (n ≡ pos (c * s))
      × (c * s ≤ 2 ^ 63 - 1)
unfolding parse_filesystem_size
parse_filesystem_size-IsProduct output fs_type n h =
    accepted (parse_filesystem_geometry output fs_type) n (geometry-IsPositive output fs_type) h

-- Where the size of the file system is within 64 bits, FilesystemNeedsGrowth finds that it must grow
-- exactly if the file is larger by more than the slack.
exceeds_slack_lem :
    (file_size count size : ℕ)
    → file_size ≤ 2 ^ 63 - 1
    → count * size ≤ 2 ^ 63 - 1
    → exceeds_slack (pos file_size) (pos count) (pos size)
      ≡ ltb (count * size + filesystem_growth_slack) file_size
unfolding exceeds_slack
exceeds_slack_lem file_size count size hf hp =
    rw (mul64_nonneg count size hp, sub64_nonneg file_size (count * size) hf hp) (ground arith)
