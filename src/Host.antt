-- ===== src/Host.antt =====
-- The commands and system calls of pkg/common/host_utils.go on the host, which answers each as an
-- arbitrary function of those before.
pub mod Growth
pub mod Devices
pub mod Mounting
pub mod Attempts
use csi_plugin.Base.{String, Bool, Option, none, some, List, ◌∷◌}
use csi_plugin.Base.Int.{ℤ}
pub use csi_plugin.Effect.{request}
use csi_plugin.Effect.{OpOn, raise, lift, ◌>>=◌, ◌>>◌}
use csi_plugin.Grpc.{Error, Result, ok, err, plain}

-- A command is its name and its arguments.
pub data Call : Type 0 where
  start : List String → Call
  kill : List String → Call
  stat : String → Call
  is_mount_point : String → Call
  mkdir_all : String → Call
  create_file : String → Call
  chmod : String → Call
  mount : String → String → String → List String → Call
  unmount : String → Call
  remove : String → Call

-- The calls so far, newest first.
abbrev pub Calls : Type 0
Calls = List Call

pub record FileInfo : Type 0 where
  pub is_dir : Bool
  pub size : ℤ

-- `finish` and `is_mount_point` have no answer where the call does not return in time; `finish` is what
-- a command that was started prints. `expired` is whether the caller's own limit of time ended first.
pub record Machine : Type 0 where
  pub start : Calls → List String → Result (Unit {0})
  pub finish : Calls → List String → Option (Result String)
  pub stat : Calls → String → Result FileInfo
  pub is_mount_point : Calls → String → Option (Result Bool)
  pub mount : Calls → Call → Option (Result (Unit {0}))
  pub act : Calls → Call → Result (Unit {0})
  pub expired : Calls → Bool
  pub is_not_exist : Error → Bool
  pub is_permission : Error → Bool
  pub exit_code_is_2 : Error → Bool

abbrev pub Op : Type 0 → Type 0
Op = OpOn Calls

module _ (m : Machine) where
  abbrev pub act : Call → Op (Unit {0})
  act c = request c (λ h. m.act h c)

  -- A command that does not end in time is killed; an error of that is only logged.
  abbrev pub finished : List String → Option (Result String) → Op String
  finished argv none h = (err (plain "process killed as timeout reached"), kill argv ∷ h)
  finished argv (some r) h = (r, h)

  abbrev pub wait : List String → Op String
  wait argv h = finished argv (m.finish h argv) h

  -- ExecCommand: the output of a command that fails is dropped.
  unfoldable pub exec_command : List String → Op String
  exec_command argv = do request (start argv) (λ h. m.start h argv); wait argv
