-- ===== src/Mount/Classify.antt =====
-- classifyMount of pkg/driver/utils.go, and IsShareMounted of pkg/common/host_utils.go.
use csi_plugin.Base.{ℕ, zero, suc, String, Bool, true, false}
use csi_plugin.Driver.{
  World, Op, Probe, answered, not_exist, failed, probe_mount, pure, call, ◌>>=◌,
}
use csi_plugin.Grpc.{ok}

pub data MountState : Type 0 where
  healthy absent stale : MountState

abbrev pub is_share_mounted : Probe → Bool
is_share_mounted (answered b) = b
is_share_mounted not_exist = false
is_share_mounted failed = false

module _ (w : World) where
  -- An answer of one probe decides, or is left to the next one.
  unfoldable pub decide : Probe → Op MountState → Op MountState
  decide (answered true) next = pure healthy
  decide (answered false) next = pure absent
  decide not_exist next = pure absent
  decide failed next = next

  unfoldable pub classify_mount : String → ℕ → Op MountState
  classify_mount path zero = pure stale
  classify_mount path (suc probes) = do
    answer ← call (probe_mount path) (λ h. ok (w.probe_mount h path))
    decide answer (classify_mount path probes)
