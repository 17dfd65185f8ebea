-- ===== src/Main.antt =====
-- The start of the driver (main.go, with NewCSIDriver of pkg/driver/driver.go) up to the server that it
-- starts, from the environment. Where the program exits, the result is the message that it logs. Of a
-- URL (net/url) the scheme and the host are read. The login of the client is not modelled.
pub mod Laws
use csi_plugin.Base.{
  String, ◌==◌, Bool, false, not, ◌&&◌, ◌||◌, Option, none, some, is_some, if◌then◌else◌,
}
use csi_plugin.Base.Int.{ℤ, pos, ltb_ℤ}
use csi_plugin.Base.Text.{contains, parse_bool, parse_int}
use csi_plugin.Grpc.{plain, Result, ok, guard, ◌>>◌}

-- The variables that are read here, "" where one is not set.
pub record Environment : Type 0 where
  pub csi_endpoint : String
  pub hs_endpoint : String
  pub hs_username : String
  pub hs_password : String
  pub hs_tls_verify : String
  pub csi_major_version : String
  pub hs_data_portal_mount_prefix : String
  pub max_concurrent_nfs_mounts : String

pub record Url : Type 0 where
  pub scheme : String
  pub host : String

unfoldable pub is_https_url : Option Url → Bool
is_https_url none = false
is_https_url (some url) = not (not (url.scheme == "https") || (url.host == ""))

-- Whether the variable `err` of validateEnvironmentVars is set at its last test: by ParseBool, or else
-- by url.Parse.
unfoldable pub error_is_set : (String → Option Url) → Environment → Bool
error_is_set parse_url env =
    if not (env.hs_tls_verify == "")
    then not (is_some (parse_bool env.hs_tls_verify))
    else not (is_some (parse_url env.hs_endpoint))

-- The tests before that of the version.
unfoldable pub check_variables : (String → Option Url) → Environment → Result (Unit {0})
check_variables parse_url env = do
  guard (env.csi_endpoint == "") (plain "CSI_ENDPOINT must be defined and must be a path")
  guard (contains env.csi_endpoint ":") (plain "CSI_ENDPOINT must be a unix path")
  guard (env.hs_endpoint == "") (plain "HS_ENDPOINT must be defined")
  guard (not (is_https_url (parse_url env.hs_endpoint)))
      (plain "HS_ENDPOINT must be a valid HTTPS URL")
  guard (env.hs_username == "") (plain "HS_USERNAME must be defined")
  guard (env.hs_password == "") (plain "HS_PASSWORD must be defined")
  guard (not (env.hs_tls_verify == "") && not (is_some (parse_bool env.hs_tls_verify)))
      (plain "HS_TLS_VERIFY must be a bool")

unfoldable pub validate_environment_vars : (String → Option Url) → Environment → Result (Unit {0})
validate_environment_vars parse_url env = do
  check_variables parse_url env
  guard
      ((not (env.csi_major_version == "0") || not (env.csi_major_version == "1"))
        && error_is_set parse_url env)
      (plain "CSI_MAJOR_VERSION must be set to \"0\" or \"1\"")

abbrev value_or_false : Option Bool → Bool
value_or_false none = false
value_or_false (some b) = b

unfoldable pub tls_verify_of : String → Bool
tls_verify_of value = if not (value == "") then value_or_false (parse_bool value) else false

abbrev pub default_max_concurrent_nfs_mounts : ℤ
default_max_concurrent_nfs_mounts = pos 10

abbrev limit_or_default : Option ℤ → ℤ
limit_or_default none = default_max_concurrent_nfs_mounts
limit_or_default (some n) = if ltb_ℤ n (pos 1) then default_max_concurrent_nfs_mounts else n

-- maxConcurrentNFSMounts
unfoldable pub max_concurrent_nfs_mounts : String → ℤ
max_concurrent_nfs_mounts value =
    if value == "" then default_max_concurrent_nfs_mounts else limit_or_default (parse_int value)

-- Which service answers: the driver itself, or the service for version 0.3 of CSI in front of it.
pub data Server : Type 0 where
  csi_driver csi_v0_support : Server

pub record Started : Type 0 where
  pub server : Server
  pub endpoint : String
  pub tls_verify : Bool
  pub mount_slots : ℤ
  pub data_portal_mount_prefix : String

unfoldable pub server_for : String → Server
server_for version = if version == "0" then csi_v0_support else csi_driver

unfoldable pub main : (String → Option Url) → Environment → Result Started
main parse_url env = do
  validate_environment_vars parse_url env
  ok (record {
    server = server_for env.csi_major_version;
    endpoint = env.csi_endpoint;
    tls_verify = tls_verify_of env.hs_tls_verify;
    mount_slots = max_concurrent_nfs_mounts env.max_concurrent_nfs_mounts;
    data_portal_mount_prefix = env.hs_data_portal_mount_prefix;
  })
