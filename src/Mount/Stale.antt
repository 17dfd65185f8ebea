-- ===== src/Mount/Stale.antt =====
-- When a mount counts as stale: classifyMount of pkg/driver/utils.go.
use csi_plugin.Base.{ℕ, zero, suc, String, arith, ◌≡◌, ◌↔◌, true, false, ◌∷◌}
use csi_plugin.Driver.{
  World, Driver, History, Probe, answered, not_exist, failed, probe_mount, ◌>>=◌,
}
use csi_plugin.Grpc.{ok}
use csi_plugin.Mount.Classify.{stale, decide, classify_mount}

module _ (w : World) (path : String) where
  -- The next `n` probes all fail.
  abbrev pub AllFail : ℕ → History → Type 0
  AllFail zero h = Unit
  AllFail (suc n) h = (w.probe_mount h path ≡ failed) × AllFail n (probe_mount path ∷ h)

  chosen :
      (answer : Probe) (n : ℕ) (d : Driver)
      → ((classify_mount w path n d).0 ≡ ok stale) ↔ AllFail n d.history
      → ((decide w answer (classify_mount w path n) d).0 ≡ ok stale)
        ↔ ((answer ≡ failed) × AllFail n d.history)
  unfolding decide
  chosen (answered true) n d ih = ground arith
  chosen (answered false) n d ih = ground arith
  chosen not_exist n d ih = ground arith
  chosen failed n d ih = ground arith

  -- A mount is called stale exactly if every probe failed: one answer, of whatever kind, is enough
  -- for healthy or absent.
  classify_stale_iff :
      (n : ℕ) (d : Driver) → ((classify_mount w path n d).0 ≡ ok stale) ↔ AllFail n d.history
  unfolding classify_mount ◌>>=◌
  classify_stale_iff zero d = ground arith
  classify_stale_iff (suc n) d =
      chosen (w.probe_mount d.history path) n (record d { history = probe_mount path ∷ d.history })
        (classify_stale_iff n (record d { history = probe_mount path ∷ d.history }))
