-- ===== src/Tests/Serving.antt =====
-- The node service on the small host.
use csi_plugin.Base.{◌+◌, ◌*◌, ◌-◌, ◌≤◌, ◌≡◌, refl, true, [], arith}
use csi_plugin.Base.Int.{pos}
use csi_plugin.Driver.{StatFs, finally, on_failure, ◌>>=◌}
use csi_plugin.Grpc.{Error, ok, err}
use csi_plugin.Node.Private.{bind_mount_read_only, bind_through, leave_private}
use csi_plugin.Node.Publish.{ensure_staged, publish_at}
use csi_plugin.Node.Safety.{publish_at-unbacked, bind_mount_read_only-private, bound_read_only}
use csi_plugin.Node.Stats.{figures, figures_bounds}
use csi_plugin.Tests.{world, driver}

publish_at-unbacked_example :
    (e : Error) × (publish_at world "/vol" "/staging" "/target" [] true [] driver
      ≡ (err e, (ensure_staged world "/vol" "/staging" [] [] driver).1))
publish_at-unbacked_example =
    publish_at-unbacked world "/vol" "/staging" [] [] (λ h. tt) "/target" true driver refl

bound : (bind_mount_read_only world "/staging" "/target" driver).0 ≡ ok tt
unfolding bind_mount_read_only bind_through leave_private finally on_failure ◌>>=◌
bound = refl

bind_mount_read_only-private_example :
    (bind_mount_read_only world "/staging" "/target" driver).1.history
    ≡ bound_read_only world "/staging" "/target" "/tmp/private" driver refl
bind_mount_read_only-private_example =
    bind_mount_read_only-private world "/staging" "/target" "/tmp/private" driver refl bound

abbrev small : StatFs
small = record {
  block_size = pos 4096;
  blocks = 100;
  free_blocks = 40;
  available_blocks = 30;
  files = 10;
  free_files = 5;
}

figures_bounds_example :
    ((figures small).bytes.total ≡ pos (4096 * small.blocks))
    × ((figures small).bytes.used ≡ pos (4096 * (small.blocks - small.free_blocks)))
    × ((figures small).bytes.available ≡ pos (4096 * small.available_blocks))
    × (4096 * (small.blocks - small.free_blocks) + 4096 * small.available_blocks
        ≤ 4096 * small.blocks)
figures_bounds_example =
    figures_bounds small 4096 refl (omega arith) (omega arith) (omega arith) (omega arith)
