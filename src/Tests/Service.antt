-- ===== src/Tests/Service.antt =====
-- The start, the locks, the routes and the service for version 0.3 at concrete values.
use csi_plugin.Base.{
  ◌≡◌, ◌≤◌, ◌+◌, ◌⊎◌, refl, inl, String, false, none, some, [], ◌∷◌, Option, arith,
}
use csi_plugin.Base.Dict.{insert, lookup}
use csi_plugin.Base.Int.{pos}
use csi_plugin.Base.Text.{split, join, count, contains, trim_space, parse_bool, parse_int}
use csi_plugin.CsiV0.{CreateRequestV0, convert, convert_all, create_volume_v0, get_capacity_v0}
use csi_plugin.CsiV0.Laws.{IsSized, Refuses, create_volume_v0-Refuses}
use csi_plugin.Grpc.{ok, err, plain, Holds}
use csi_plugin.Locks.{
  waiting, holding, System, start, acquire_volume_lock, find_lock, lock_granted, with_weight,
  holders, lock_size, Reach, here, after, asks, granted,
}
use csi_plugin.Locks.Exclusion.{one_holder_at_once, waits_for_holder}
use csi_plugin.Main.{
  Environment, Url, csi_driver, main, validate_environment_vars, check_variables, is_https_url,
  error_is_set, server_for, tls_verify_of, max_concurrent_nfs_mounts,
}
use csi_plugin.Main.Laws.{with_version, served_as, main-any_version}
use csi_plugin.Params.{
  parse_vol_params, parse_delete_delay, parse_comment, parse_export_options, parse_name_format,
  parse_tags, parse_objective_target, parse_objectives, parse_cache_enabled, parse_fqdn,
}
use csi_plugin.Routes.{
  anvil_route, collapse_from_start, collapse, collapse_one, fill, is_collection, is_snapshot_action,
}
use csi_plugin.Tests.{world, driver}
use csi_plugin.Types.{multi_node_multi_writer}

abbrev ext4 : CreateRequestV0
ext4 = record {
  name = "vol";
  capabilities = record { mount = some ("ext4", []); access_mode = multi_node_multi_writer } ∷ [];
  parameters = ("fsType", "ext4") ∷ ("mountBackingShareName", "share") ∷ [];
  capacity_range = none;
}

ext4-IsSized : Holds (λ p. IsSized p.fs_type) (parse_vol_params world.lookup_ip ext4.parameters)
unfolding parse_vol_params parse_delete_delay parse_comment parse_export_options parse_name_format
    count contains parse_tags parse_objective_target parse_objectives parse_cache_enabled parse_fqdn
    split trim_space
ext4-IsSized = inl refl

create_volume_v0-Refuses_example : Refuses (create_volume_v0 world ext4) driver
create_volume_v0-Refuses_example = create_volume_v0-Refuses world ext4 driver refl ext4-IsSized

-- A raw volume has no capacity.
no_capacity :
    get_capacity_v0 world
      (record { mount = none; access_mode = multi_node_multi_writer } ∷ [])
      []
      driver
    ≡ (ok (pos 0), driver)
unfolding get_capacity_v0 convert_all convert
no_capacity = refl

-- Two callers for one volume, of which the first has the lock.
abbrev asked : System
asked = acquire_volume_lock "/share" start

abbrev locked : System
locked = lock_granted [] [] "/share" 0 asked

abbrev contended : System
contended = acquire_volume_lock "/share" locked

asked-callers : asked.callers ≡ waiting "/share" 0 ∷ []
unfolding acquire_volume_lock find_lock lookup
asked-callers = refl

asked-weight : asked.weights 0 + 1 ≤ lock_size
unfolding acquire_volume_lock find_lock lookup with_weight
asked-weight = omega arith

contended-callers : contended.callers ≡ waiting "/share" 0 ∷ holding "/share" 0 ∷ []
unfolding acquire_volume_lock find_lock lookup lock_granted insert
contended-callers = refl

contended-Reach : Reach contended
contended-Reach =
    after
      (after (after here (asks start "/share"))
        (granted asked [] [] "/share" 0 asked-callers asked-weight))
      (asks locked "/share")

one_holder_at_once_example : holders "/share" contended.callers ≤ 1
one_holder_at_once_example = one_holder_at_once contended "/share" contended-Reach

waits_for_holder_example :
    (contended.weights 0 + 1 ≤ lock_size) ⊎ (holders "/share" contended.callers ≡ 1)
waits_for_holder_example =
    waits_for_holder contended [] (holding "/share" 0 ∷ []) "/share" 0 contended-Reach
      contended-callers

abbrev parse_url : String → Option Url
parse_url text = some (record { scheme = "https"; host = "anvil" })

abbrev env : Environment
env = record {
  csi_endpoint = "/csi/csi.sock";
  hs_endpoint = "https://anvil";
  hs_username = "admin";
  hs_password = "secret";
  hs_tls_verify = "";
  csi_major_version = "1";
  hs_data_portal_mount_prefix = "";
  max_concurrent_nfs_mounts = "0";
}

-- The default number of mounts, where the given one is less than 1.
starts :
    main parse_url env
    ≡ ok (record {
      server = csi_driver;
      endpoint = "/csi/csi.sock";
      tls_verify = false;
      mount_slots = pos 10;
      data_portal_mount_prefix = "";
    })
unfolding main validate_environment_vars check_variables is_https_url error_is_set server_for
    tls_verify_of max_concurrent_nfs_mounts parse_bool parse_int contains
starts = refl

not_a_bool :
    main parse_url (record env { hs_tls_verify = "maybe" })
    ≡ err (plain "HS_TLS_VERIFY must be a bool")
unfolding main validate_environment_vars check_variables is_https_url error_is_set parse_bool
    contains
not_a_bool = refl

main-any_version_example :
    main parse_url (with_version "2" env) ≡ served_as "2" (main parse_url env)
main-any_version_example = main-any_version parse_url "2" env

deletion_route :
    anvil_route "/rest/share-snapshots/snapshot-delete/k8s/2026"
    ≡ "/rest/share-snapshots/snapshot-delete/{id}/{id}"
unfolding anvil_route collapse_from_start collapse collapse_one fill is_collection
    is_snapshot_action split join
deletion_route = refl

list_route : anvil_route "/rest/file-snapshots/list" ≡ "/rest/file-snapshots/list"
unfolding anvil_route collapse_from_start collapse collapse_one fill is_collection
    is_snapshot_action split join
list_route = refl
