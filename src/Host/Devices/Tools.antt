-- ===== src/Host/Devices/Tools.antt =====
-- Which commands grow a file system, and on what.
use csi_plugin.Base.{
  String, ◌==◌, ◌≡◌, ◌⊎◌, inl, inr, refl, Option, none, some, List, [], ◌∷◌, Bool-cases,
  if◌then◌else◌,
}
use csi_plugin.Base.Text.{split}
use csi_plugin.Effect.{pure, continue, lift, ◌>>=◌}
use csi_plugin.Effect.Keeps.{Returns, Outcome, Returns-bind}
use csi_plugin.Grpc.{Result, ok, err}
use csi_plugin.Host.{Machine, Calls, Call, start, kill, exec_command, wait, finished}
use csi_plugin.Host.Devices.{find_loop_device}

abbrev pub list_devices : List String
list_devices = "losetup" ∷ "-a" ∷ []

module _ (m : Machine) (target_path backing_file : String) where
  abbrev Names : Option (Result String) → String → Type 0
  Names none device = ⊥
  Names (some (err e)) device = ⊥
  Names (some (ok output)) device = find_loop_device backing_file (split 10 output) ≡ ok device

  -- A list of the devices that was asked for before names the device for the file.
  unfoldable pub Listed : String → Calls → Type 0
  Listed device [] = ⊥
  Listed device (start argv ∷ h) =
      ((argv ≡ list_devices) × Names (m.finish (start argv ∷ h) argv) device) ⊎ Listed device h
  Listed device (_ ∷ h) = Listed device h

  -- The commands are: to list the devices; to have the device of the file look at its size, and to grow
  -- an ext file system on it, for the device that such a list names; and to grow an xfs file system at
  -- the target. None of them changes the size of the file.
  unfoldable pub Suits : Call → Calls → Type 0
  Suits (start argv) h =
      (argv ≡ list_devices)
      ⊎ (((device : String) × ((argv ≡ "losetup" ∷ "-c" ∷ device ∷ [])
              ⊎ (argv ≡ "resize2fs" ∷ device ∷ []))
            × Listed device h)
          ⊎ (argv ≡ "xfs_growfs" ∷ target_path ∷ []))
  Suits (kill argv) h = Unit
  Suits _ h = ⊥

  unfoldable pub Suited : Calls → Type 0
  Suited [] = Unit
  Suited (c ∷ h) = Suits c h × Suited h

  abbrev On : String → Calls → Type 0
  On device h = Suited h × Listed device h

  abbrev look : String → List String
  look device = "losetup" ∷ "-c" ∷ device ∷ []

  abbrev grow : String → String → List String
  grow fs_type device =
      if fs_type == "xfs" then "xfs_growfs" ∷ target_path ∷ [] else "resize2fs" ∷ device ∷ []

  -- A command after what `P` holds of, which ran to its end.
  abbrev After : (Calls → Type 0) → List String → Calls → Type 0
  After P argv h = (before : Calls) × (h ≡ start argv ∷ before) × P before

  exec-Returns :
      (P : Calls → Type 0) (argv : List String)
      → ((h : Calls) → P h → Suited (start argv ∷ h))
      → Returns P (λ _. After P argv) Suited (exec_command m argv)
  unfolding exec_command ◌>>=◌ Suited Suits
  exec-Returns P argv suits = record { at = λ h p. started h p (m.start h argv) }
    where
      printed :
          (h : Calls)
          → P h
          → (o : Option (Result String))
          → Outcome
              (λ _. After P argv)
              Suited
              (finished m argv o (start argv ∷ h)).0
              (finished m argv o (start argv ∷ h)).1
      printed h p none = (tt, suits h p)
      printed h p (some (err x)) = suits h p
      printed h p (some (ok output)) = (h, refl, p)

      started :
          (h : Calls)
          → P h
          → (r : Result (Unit {0}))
          → Outcome
              (λ _. After P argv)
              Suited
              (continue r (λ _. wait m argv) (start argv ∷ h)).0
              (continue r (λ _. wait m argv) (start argv ∷ h)).1
      started h p (err e) = suits h p
      started h p (ok _) = printed h p (m.finish (start argv ∷ h) argv)

  looked-Suited : (device : String) (h : Calls) → After (On device) (look device) h → Suited h
  unfolding Suited Suits
  looked-Suited device h (before, e, p) = rw e (inr (inl (device, inl refl, p.1)), p.0)

  -- What the list of devices has shown.
  abbrev Shown : String → Calls → Type 0
  Shown output h =
      Suited h
      × ((device : String)
          → find_loop_device backing_file (split 10 output) ≡ ok device
          → Listed device h)

  found :
      (output : String)
      → Returns (Shown output) On Suited (lift (find_loop_device backing_file (split 10 output)))
  found output = record {
    at = λ h p. named (find_loop_device backing_file (split 10 output)) h p.0 p.1;
  }
    where
      named :
          (r : Result String) (h : Calls)
          → Suited h
          → ((device : String) → r ≡ ok device → Listed device h)
          → Outcome On Suited r h
      named (ok device) h s l = (s, l device refl)
      named (err e) h s l = s

  -- The commands that a growth ends with, newest first: the device of the file looks at the size, and
  -- then the file system is grown.
  abbrev pub Grown : String → Calls → Type 0
  Grown fs_type h =
      (device : String) × (before : Calls) × (h
        ≡ start (grow fs_type device) ∷ start (look device) ∷ before)
      × Listed device before

  looked-Listed :
      (device : String) (h : Calls) → After (On device) (look device) h → Listed device h
  unfolding Listed
  looked-Listed device h (before, e, p) = rw e (inr p.1)

  grow-Suited :
      (fs_type device : String) (h : Calls)
      → After (On device) (look device) h
      → Suited (start (grow fs_type device) ∷ h)
  unfolding Suited Suits
  grow-Suited fs_type device h p = elim (Bool-cases (fs_type == "xfs")) [
    | inl xfs ↦ rw xfs (inr (inr refl), looked-Suited device h p)
    | inr ext ↦
        rw ext (inr (inl (device, inr refl, looked-Listed device h p)), looked-Suited device h p)
  ]

  abbrev Ending : String → Calls → Type 0
  Ending fs_type h = Suited h × Grown fs_type h

  ended :
      (fs_type device : String) (h : Calls)
      → After (After (On device) (look device)) (grow fs_type device) h
      → Ending fs_type h
  ended fs_type device h (before, e, p) =
      let (first, e', q) = p in
      (rw e (grow-Suited fs_type device before p), (device, first, rw e' at e, q.1))

  finish :
      (fs_type device : String)
      → Returns
          (After (On device) (look device))
          (λ _. Ending fs_type)
          Suited
          (exec_command m (grow fs_type device) >>= λ _. pure tt)
  finish fs_type device =
      Returns-bind _ _
        (exec-Returns (After (On device) (look device)) (grow fs_type device)
          (grow-Suited fs_type device))
        λ output. record { at = λ h p. ended fs_type device h p }
