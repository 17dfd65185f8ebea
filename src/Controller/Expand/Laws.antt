-- ===== src/Controller/Expand/Laws.antt =====
-- What ControllerExpandVolume grants, and what it asks for.
use csi_plugin.Base.{
  ℕ, ◌-◌, ◌≤◌, ◌<◌, ◌^◌, String, ◌==◌, ◌≡◌, refl, true, false, some, ◌∷◌, arith, if◌then◌else◌, inl,
  inr, Bool-cases, ltb, ltb→lt,
}
use csi_plugin.Base.Int.{pos, ltb_ℤ, sub64, sub64_nonneg}
use csi_plugin.Base.Text.{base, dir}
use csi_plugin.Driver.{
  World, Driver, get_file, get_share, update_share_size, on_result, pure, raise, ◌>>=◌,
}
use csi_plugin.Grpc.{Result, ok, err, status, internal}
use csi_plugin.Types.{ShareResponse, File, CapacityRange}
use csi_plugin.VolumeId.{get_volume_name_from_path, is_file_backed_volume_id}
use csi_plugin.Controller.Expand.{
  ExpandResponse, requested_size, out_of_capacity, expand_file, expand_found_file,
  expand_file_backed, expand_found_share, expand_share_backed, file_backed,
  controller_expand_volume,
}

ltb-pos : (a b : ℕ) → ltb_ℤ (pos a) (pos b) ≡ ltb a b
ltb-pos a b = ground arith

difference : (a b : ℕ) → a < b → b ≤ 2 ^ 63 - 1 → sub64 (pos b) (pos a) ≡ pos (b - a)
difference a b h k = ground (arith, sub64_nonneg b a)

-- The test on two differences of `int64` is the test on the numbers.
out_of_space :
    (free size requested : ℕ)
    → size < requested
    → requested ≤ 2 ^ 63 - 1
    → free ≤ 2 ^ 63 - 1
    → ltb_ℤ (sub64 (pos free) (sub64 (pos requested) (pos size))) (pos 0)
      ≡ ltb free (requested - size)
out_of_space free size requested h k l =
    rw (difference size requested h k)
      (rw (sub64_nonneg free (requested - size) l (omega arith)) (ground arith))

-- How a share-backed expansion ends.
abbrev pub ended : ℕ → Result (Unit {0}) → Result ExpandResponse
ended requested (ok _) =
    ok (record { capacity_bytes = pos requested; node_expansion_required = false })
ended requested (err e) = err (status internal "unknown internal error")

either_way :
    (requested : ℕ) (r : Result (Unit {0})) (d : Driver)
    → on_result r
        (λ _. pure (record { capacity_bytes = pos requested; node_expansion_required = false }))
        (λ _. raise (status internal "unknown internal error"))
        d
      ≡ (ended requested r, d)
either_way requested (ok _) d = refl
either_way requested (err _) d = refl

module _ (w : World) where
  -- A file-backed volume of `size` bytes, and `free` bytes free on its backing share.
  expanded-file :
      (volume_id : String) (file : File) (share : ShareResponse) (size requested free : ℕ)
      (d : Driver)
      → file.size ≡ pos size
      → share.available ≡ pos free
      → requested ≤ 2 ^ 63 - 1
      → free ≤ 2 ^ 63 - 1
      → w.get_share d.history (base (dir volume_id)) ≡ ok (some share)
      → (expand_file w volume_id (pos requested) file d).0 ≡ (
          if ltb size requested
          then if ltb free (requested - size)
            then err out_of_capacity
            else ok (record { capacity_bytes = pos requested; node_expansion_required = true })
          else ok (record { capacity_bytes = pos size; node_expansion_required = false }))
  unfolding expand_file ◌>>=◌
  expanded-file volume_id file share size requested free d hs hf hr hq hg = rw hs (
      rw (ltb-pos size requested) (elim (Bool-cases (ltb size requested)) [
        | inl grows ↦ rw grows (
            rw hg (
              rw hf (
                rw (out_of_space free size requested (ltb→lt _ _ grows) hr hq)
                  (elim (Bool-cases (ltb free (requested - size))) [
                    | inl e ↦ rw e refl
                    | inr e ↦ rw e refl
                  ]))))
        | inr keeps ↦ rw keeps refl
      ]))

  -- Expanding a file-backed volume, where the file and its backing share are found, and no number
  -- exceeds an int64: a volume that has the size already is left as it is; one that has to grow by more
  -- than is free on the backing share is refused with OutOfRange; and any other is granted exactly
  -- what was requested, to be grown by the node.
  controller_expand-file :
      (volume_id : String) (range : CapacityRange) (file : File) (share : ShareResponse)
      (size requested free : ℕ) (d : Driver)
      → (volume_id == "") ≡ false
      → is_file_backed_volume_id volume_id ≡ true
      → requested_size range ≡ pos requested
      → file.size ≡ pos size
      → share.available ≡ pos free
      → requested ≤ 2 ^ 63 - 1
      → free ≤ 2 ^ 63 - 1
      → w.get_file d.history volume_id ≡ ok (some file)
      → w.get_share (get_file volume_id ∷ d.history) (base (dir volume_id)) ≡ ok (some share)
      → (controller_expand_volume w volume_id range d).0 ≡ (
          if ltb size requested
          then if ltb free (requested - size)
            then err out_of_capacity
            else ok (record { capacity_bytes = pos requested; node_expansion_required = true })
          else ok (record { capacity_bytes = pos size; node_expansion_required = false }))
  unfolding controller_expand_volume file_backed expand_file_backed expand_found_file ◌>>=◌
  controller_expand-file volume_id range file share size requested free d hn hi hr hs hf hq hp hg
        hb =
      rw hn (
        rw hi (
          rw hg (
            rw hr (
              expanded-file volume_id file share size requested free
                (record d { history = get_file volume_id ∷ d.history }) hs hf hq hp hb))))

  -- Expanding a share-backed volume, which is found in both looks, asks to set it to the requested size
  -- exactly if less than that is free in it, and else asks for nothing more. It reports the requested
  -- size, with nothing to do on the node, unless setting it fails, which is an internal error. How
  -- large the share is plays no part: it is set to the requested size also where it is larger.
  pub controller_expand-share :
      (volume_id : String) (range : CapacityRange) (first share : ShareResponse)
      (free requested : ℕ) (d : Driver)
      → (volume_id == "") ≡ false
      → ((get_volume_name_from_path volume_id) == "") ≡ false
      → is_file_backed_volume_id volume_id ≡ false
      → requested_size range ≡ pos requested
      → share.available ≡ pos free
      → w.get_share d.history (get_volume_name_from_path volume_id) ≡ ok (some first)
      → w.get_share
          (get_share (get_volume_name_from_path volume_id) ∷ d.history)
          (get_volume_name_from_path volume_id)
        ≡ ok (some share)
      → controller_expand_volume w volume_id range d ≡ (
          let name = get_volume_name_from_path volume_id in
          let looked = get_share name ∷ get_share name ∷ d.history in
          if ltb free requested
          then (
            ended requested (w.update_share_size looked name (pos requested)),
            record d { history = update_share_size name (pos requested) ∷ looked },
          )
          else (ended requested (ok tt), record d { history = looked }))
  unfolding controller_expand_volume file_backed expand_share_backed expand_found_share ◌>>=◌
  controller_expand-share volume_id range first share free requested d hn he hi hr hf hg hb =
      rw (hn, hi, hg, he, hb, hr, hf, ltb-pos free requested)
        (elim (Bool-cases (ltb free requested)) [
          | inl less ↦ rw less (either_way requested _ _)
          | inr enough ↦ rw enough refl
        ])
