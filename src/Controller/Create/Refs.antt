-- ===== src/Controller/Create/Refs.antt =====
-- CreateVolume and the references of the backing mounts.
use csi_plugin.Base.{String, ◌≡◌, refl}
use csi_plugin.Driver.{World, Driver}
use csi_plugin.Mount.Balance.{refs_at, HasRefs, holding-refs}
use csi_plugin.Controller.Create.{create_volume}
use csi_plugin.Controller.Create.Handler.{create_volume-Keeps}
use csi_plugin.Controller.Create.Plan.{CreateRequest}

-- CreateVolume gives back every reference on a backing mount that it takes, also in the paths that
-- restore a snapshot and grow its file system: whatever the Anvil and the host answer, and whether it
-- succeeds or fails, each directory has as many references afterwards as before.
pub create_volume-refs :
    (w : World) (req : CreateRequest) (other : String) (d : Driver)
    → refs_at (create_volume w req d).1 other ≡ refs_at d other
create_volume-refs w req other d =
    (create_volume-Keeps w (HasRefs other) (λ e c n d h. h) (λ c n d h. h) (holding-refs w other)
        (refs_at d other) req).at
      d refl
