-- ===== src/Mount/Server.antt =====
-- Which server a backing share is mounted from, and whether loop devices use it: serverIn to
-- loopDevicesUnder of pkg/driver/utils.go. Address parsing and DNS are parameters; `parse_ip` gives one
-- text for all spellings of an address, so that two addresses are equal when their texts are.
use csi_plugin.Base.{
  String, ◌<>◌, ◌==◌, Bool, true, false, ◌&&◌, ◌||◌, Option, none, some, List, [], ◌∷◌, ◌++◌, eqb,
  if◌then◌else◌,
}
use csi_plugin.Base.Text.{split, trim_prefix, trim_suffix}
use csi_plugin.Driver.{
  World, Op, MountEntry, list_mounts, nfs_server_addresses, list_loop_devices, pure, raise, call,
  attempt, on_result, ◌>>=◌,
}
use csi_plugin.Grpc.{status, internal}
use Prim.Native.Char.{Char, code}
use text.Mathlib.Text.{starts_with}

abbrev prepend : Char → Option String → Option String
prepend c none = none
prepend c (some s) = some (String.◌∷◌ c s)

-- The text before the first ":/".
before_root : String → Option String
before_root String.[] = none
before_root (String.◌∷◌ c s) =
    let rest = before_root s in
    if starts_with (String.◌∷◌ c s) ":/" then some "" else prepend c rest

abbrev host_or_empty : Option String → String
host_or_empty none = ""
host_or_empty (some host) = trim_suffix b']' (trim_prefix b'[' host)

unfoldable pub nfs_source_host : String → String
unfolding before_root trim_suffix trim_prefix
nfs_source_host source = host_or_empty (before_root source)

-- The last entry at the path counts.
topmost : String → String → List MountEntry → String
unfolding nfs_source_host
topmost path server [] = server
topmost path server (m ∷ mounts) =
    topmost path
      (if m.path == path && starts_with m.fs_type "nfs" then nfs_source_host m.device else server)
      mounts

unfoldable pub mounted_nfs_server : String → List MountEntry → String
unfolding topmost
mounted_nfs_server path mounts = topmost path "" mounts

member : String → List String → Bool
member c [] = false
member c (x ∷ l) = x == c || member c l

-- An address that does not parse equals none.
abbrev parsed : Option String → List String → Bool
parsed none candidates = false
parsed (some ip) candidates = member ip candidates

any_equal : (String → Option String) → List String → List String → Bool
any_equal parse_ip candidates [] = false
any_equal parse_ip candidates (a ∷ addresses) =
    parsed (parse_ip a) candidates || any_equal parse_ip candidates addresses

server_in_candidates : (String → Option String) → Option (List String) → List String → Bool
unfolding any_equal member
server_in_candidates parse_ip none addresses = true
server_in_candidates parse_ip (some candidates) addresses = any_equal parse_ip candidates addresses

abbrev candidates_of : Option String → Option (List String) → Option (List String)
candidates_of none looked_up = looked_up
candidates_of (some ip) looked_up = some (ip ∷ [])

unfoldable pub server_in :
    (String → Option String) → (String → Option (List String)) → String → List String → Bool
unfolding server_in_candidates
server_in parse_ip lookup_ip server addresses =
    server_in_candidates parse_ip (candidates_of (parse_ip server) (lookup_ip server)) addresses

is_cut : Char → Bool
is_cut c = eqb (code c) b':' || eqb (code c) b'(' || eqb (code c) b')'

cut_left : String → String
unfolding is_cut
cut_left String.[] = ""
cut_left (String.◌∷◌ c s) = let rest = cut_left s in if is_cut c then rest else String.◌∷◌ c s

cut_right : String → String
unfolding is_cut
cut_right String.[] = ""
cut_right (String.◌∷◌ c s) =
    let rest = cut_right s in if is_cut c && rest == "" then "" else String.◌∷◌ c rest

last_field : String → List String → String
last_field found [] = found
last_field found (s ∷ l) = last_field s l

-- Whether a line of `losetup -a` names a file under the path.
uses : String → String → Bool
unfolding cut_left cut_right last_field split
uses mount_path line =
    starts_with (cut_right (cut_left (last_field "" (split b' ' line)))) (mount_path <> "/")

any_uses : String → List String → Bool
unfolding uses
any_uses mount_path [] = false
any_uses mount_path (line ∷ lines) =
    (if line == "" then false else uses mount_path line) || any_uses mount_path lines

unfoldable pub loop_devices_use : String → String → Bool
unfolding any_uses split
loop_devices_use mount_path output = any_uses mount_path (split 10 output)

module _ (w : World) where
  unfoldable pub loop_devices_under : String → Op Bool
  loop_devices_under mount_path = do
    output ← attempt (call list_loop_devices (λ h. w.loop_devices h))
    on_result output (λ lines. pure (loop_devices_use mount_path lines))
        λ e. raise (status internal "could not list backing files for loop devices, %v")

  pub with_fqdn : String → List String → List String
  with_fqdn fqdn addresses =
      if fqdn == ""
      then addresses
      else elim (w.lookup_ip fqdn) [ none ↦ addresses | some ips ↦ addresses ++ ips ]

  pub foreign : String → List String → String
  unfolding server_in
  foreign server [] = ""
  foreign server (a ∷ addresses) =
      if server_in w.parse_ip w.lookup_ip server (a ∷ addresses) then "" else server

  unfoldable pub check_server : String → String → Op String
  check_server fqdn server = if server == "" then pure "" else do
    addresses ← attempt (call nfs_server_addresses (λ h. w.nfs_server_addresses h))
    on_result addresses (λ l. pure (foreign server (with_fqdn fqdn l))) (λ e. pure "")

  unfoldable pub foreign_backing_mount_server : String → String → Op String
  foreign_backing_mount_server path fqdn = do
    mounts ← attempt (call list_mounts (λ h. w.list_mounts h))
    on_result mounts (λ l. check_server fqdn (mounted_nfs_server path l)) (λ e. pure "")
