-- ===== src/Tests/Mounts.antt =====
-- Backing mounts of concrete shares, and short runs of goroutines.
use csi_plugin.Base.{ℕ, ◌⊎◌, ◌<◌, ◌≡◌, refl, true, false, [], ◌∷◌, arith}
use csi_plugin.Base.Dict.{Dict}
use csi_plugin.Mount.Refs.{refs_of}
use csi_plugin.Mount.Threads.{
  Pc, idle, bumping, mounting, acquired, working, good, advance, System, Step, Reach, here, next,
  step,
}
use csi_plugin.Mount.Threads.Invariant.{Known}
use csi_plugin.Driver.Since.{Since}
use csi_plugin.Mount.Counters.{
  bump, drop, answers, refs_after, spec_answers, spec_counts, answers-spec_answers,
}
use csi_plugin.Mount.Portal.{mount_share_sub_path_at_best_dataportal}
use csi_plugin.Mount.Portal.Versions.{MountRequest, mount_share_sub_path-MountRequest}
use csi_plugin.Mount.Threads.Progress.{work_left, runs_end}
use csi_plugin.Mount.Threads.Safety.{start, working_on_a_mount}
use csi_plugin.Mount.Threads.Race.{Good, before, after, direct_unmount-races}
use csi_plugin.Tests.{world, driver}

abbrev two_refs : Dict ℕ
two_refs = ("/tmp/export", 2) ∷ []

-- One goroutine of two acquires the share and works on it.
abbrev after_start : Pc → ℕ → System
after_start p refs = record {
  threads = p ∷ idle ∷ [];
  shared = record { refs = refs; mounted = true; locked = true };
}

abbrev at_work : System
at_work = record {
  threads = working ∷ idle ∷ [];
  shared = record { refs = 1; mounted = true; locked = false };
}

run : Reach Known (start 2 true) at_work
unfolding advance
run =
    let s1 =
      next {t = start 2 true} {u = after_start bumping 0} here
        (step [] (idle ∷ []) idle bumping good tt refl refl refl) in
    let s2 =
      next {u = after_start mounting 1} s1
        (step [] (idle ∷ []) bumping mounting good tt refl refl refl) in
    let s3 =
      next {u = after_start acquired 1} s2
        (step [] (idle ∷ []) mounting acquired good tt refl refl refl) in
    next s3 (step [] (idle ∷ []) acquired working good tt refl refl refl)

working_on_a_mount_example : at_work.shared.mounted ≡ true
working_on_a_mount_example = working_on_a_mount 2 true at_work run (omega arith)

direct_unmount-races_example : Reach Good (before []) (after [])
direct_unmount-races_example = direct_unmount-races []

runs_end_example :
    (work_left at_work ≡ 0)
    ⊎ ((u : System) × Step Known at_work u × (work_left u < work_left at_work))
runs_end_example = runs_end 2 true at_work run

answers-spec_answers_example :
    (answers (bump "/tmp/a" ∷ bump "/tmp/a" ∷ drop "/tmp/a" ∷ []) [] ≡ true ∷ false ∷ false ∷ [])
    × (refs_of "/tmp/a" (refs_after (bump "/tmp/a" ∷ bump "/tmp/a" ∷ drop "/tmp/a" ∷ []) []) ≡ 1)
unfolding spec_answers spec_counts
answers-spec_answers_example =
    answers-spec_answers (bump "/tmp/a" ∷ bump "/tmp/a" ∷ drop "/tmp/a" ∷ []) "/tmp/a"

mount_share_sub_path-MountRequest_example :
    Since
      (MountRequest "/target" ("nfsvers=4" ∷ []))
      driver.history
      (mount_share_sub_path_at_best_dataportal world "/export" "/vol" "/target"
        ("nfsvers=4" ∷ [])
        ""
        driver).1.history
mount_share_sub_path-MountRequest_example =
    mount_share_sub_path-MountRequest world "/export" "/vol" "/target" ("nfsvers=4" ∷ []) "" driver
