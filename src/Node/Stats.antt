-- ===== src/Node/Stats.antt =====
-- NodeGetVolumeStats of pkg/driver/node.go, and what its figures are.
use csi_plugin.Base.{ℕ, ◌+◌, ◌-◌, ◌*◌, ◌^◌, ◌%◌, ◌≤◌, String, ◌==◌, ◌≡◌, not, arith}
use csi_plugin.Base.Int.{ℤ, pos, wrap64, mul64, sub64, wrap64_small, mul64_nonneg}
use csi_plugin.Driver.{
  World, Op, Probe, answered, not_exist, failed, Fault, io_error, stale_handle, other_fault, Kind,
  symlink, block_device, directory, other_kind, StatFs, open_block_device, probe_volume, pure,
  raise, call, guard, map_error, last_fault, ◌>>=◌, ◌>>◌,
}
use csi_plugin.Grpc.{
  Error, Result, ok, err, status, internal, invalid_argument, not_found, unavailable,
}

-- What is reported in bytes and in inodes; a block volume reports its size alone, and 0 elsewhere.
pub record Usage : Type 0 where
  pub available : ℤ
  pub total : ℤ
  pub used : ℤ

pub record Stats : Type 0 where
  pub bytes : Usage
  pub inodes : Usage

-- int64(x) of a uint64
abbrev int64 : ℕ → ℤ
int64 x = wrap64 (pos x)

-- a - b on uint64
abbrev sub_u64 : ℕ → ℕ → ℕ
sub_u64 a b = (a + 2 ^ 64 - b) % 2 ^ 64

unfoldable pub figures : StatFs → Stats
figures st = record {
  bytes = record {
    available = mul64 st.block_size (int64 st.available_blocks);
    total = mul64 st.block_size (int64 st.blocks);
    used = mul64 st.block_size (int64 (sub_u64 st.blocks st.free_blocks));
  };
  inodes = record {
    available = int64 st.free_files;
    total = int64 st.files;
    used = sub64 (int64 st.files) (int64 st.free_files);
  };
}

abbrev nothing : Usage
nothing = record { available = pos 0; total = pos 0; used = pos 0 }

abbrev inaccessible : Error
inaccessible =
    status unavailable
      "volume path %s is inaccessible due to an I/O error; filesystem teardown and retry are required"

monotone : (s n m : ℕ) → n ≤ m → s * n ≤ s * m
monotone s n m h = grind arith

bytes :
    (s n m : ℕ)
    → m ≤ 2 ^ 63 - 1
    → n ≤ m
    → s * m ≤ 2 ^ 63 - 1
    → mul64 (pos s) (int64 n) ≡ pos (s * n)
bytes s n m hm h k =
    rw (wrap64_small n (omega arith)) (mul64_nonneg s n (omega (arith, monotone s n m h)))

difference : (a b : ℕ) → a ≤ 2 ^ 63 - 1 → b ≤ a → sub_u64 a b ≡ a - b
difference a b h k = omega arith

distributes : (s a b : ℕ) → s * (a + b) ≡ s * a + s * b
distributes s a b = grind arith

parts : (s a b n : ℕ) → a + b ≤ n → s * a + s * b ≤ s * n
parts s a b n h = omega (arith, monotone s (a + b) n h, distributes s a b)

module _ (w : World) where
  -- A block device is opened and asked for its size in one request, whichever of the two fails.
  unfoldable pub block_stats : String → Op Stats
  block_stats path = do
    size ←
        map_error (call (open_block_device path) (λ h. w.block_device_size h path))
          λ e. status internal "failed to get block size: %v"
    pure (record { bytes = record nothing { total = size }; inodes = nothing })

  unfoldable pub file_stats : Result StatFs → Op Stats
  file_stats (ok st) = pure (figures st)
  file_stats (err e) = raise (status internal "file does not exist")

  unfoldable pub stats_of_kind : String → Kind → Op Stats
  stats_of_kind path block_device = block_stats path
  stats_of_kind path symlink = λ d. file_stats (w.stat_fs d.history path) d
  stats_of_kind path directory = λ d. file_stats (w.stat_fs d.history path) d
  stats_of_kind path other_kind = λ d. file_stats (w.stat_fs d.history path) d

  unfoldable pub stats_after_fault : Fault → Op Stats
  stats_after_fault io_error = raise inaccessible
  stats_after_fault stale_handle = raise inaccessible
  stats_after_fault other_fault = raise (status not_found "volume does not exist")

  unfoldable pub stats_of : String → Probe → Op Stats
  stats_of path (answered b) = λ d. stats_of_kind path (w.kind d.history path) d
  stats_of path not_exist = raise (status not_found "volume does not exist")
  stats_of path failed = do fault ← last_fault w path; stats_after_fault fault

  -- One probe of the path is a stat, and a statfs of what is no block device, within ten seconds.
  unfoldable pub node_get_volume_stats : String → String → Op Stats
  node_get_volume_stats volume_id path = do
    guard (volume_id == "") (status invalid_argument "volume ID cannot be empty")
    guard (path == "") (status invalid_argument "volume Path cannot be empty")
    in_time ← call (probe_volume path) (λ h. ok (w.answers_in_time h path))
    guard (not in_time) (
        status unavailable
          "volume path %s did not answer within %s; its NFS server may be unreachable")
    stated ← λ d. (ok (w.stat d.history path), d)
    stats_of path stated

-- A file system of `blocks` blocks, of which `free` are free and `available` may be taken: where the
-- size in bytes is an int64, the figures of NodeGetVolumeStats are the sizes without any wrap-around,
-- and what is used and what is available are together no more than the total.
pub figures_bounds :
    (st : StatFs) (s : ℕ)
    → st.block_size ≡ pos s
    → st.blocks ≤ 2 ^ 63 - 1
    → s * st.blocks ≤ 2 ^ 63 - 1
    → st.free_blocks ≤ st.blocks
    → st.available_blocks ≤ st.free_blocks
    → ((figures st).bytes.total ≡ pos (s * st.blocks))
      × ((figures st).bytes.used ≡ pos (s * (st.blocks - st.free_blocks)))
      × ((figures st).bytes.available ≡ pos (s * st.available_blocks))
      × (s * (st.blocks - st.free_blocks) + s * st.available_blocks ≤ s * st.blocks)
unfolding figures
figures_bounds st s hs hb hm hf ha = (
  rw hs (bytes s st.blocks st.blocks hb (omega arith) hm),
  rw hs (
      rw (difference st.blocks st.free_blocks hb hf)
        (bytes s (st.blocks - st.free_blocks) st.blocks hb (omega arith) hm)),
  rw hs (bytes s st.available_blocks st.blocks hb (omega arith) hm),
  parts s (st.blocks - st.free_blocks) st.available_blocks st.blocks (omega arith),
)
