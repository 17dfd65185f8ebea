-- ===== src/Lib.antt =====
-- The Hammerspace CSI plugin: the controller service, the node service, the client of the Anvil and what
-- they stand on.
--
-- The plugin answers the requests of Kubernetes for volumes and snapshots. A share-backed volume is a
-- share of the Hammerspace cluster (the Anvil); a file-backed one is a file in a backing share, which
-- the driver mounts under the staging directory while it works on it; a nested NFS volume is a
-- directory of a backing share. The controller service makes and deletes them by requests to the Anvil,
-- and the node service mounts them on the host where a pod runs. The operator installs both on a cluster.
--
-- The parts and the code that they model, by paths from the root of the repository:
--   Base          Go's strings, paths, strconv, int64 and maps, over native numbers and strings
--   Grpc          gRPC status errors and results; hsError of pkg/driver/controller.go
--   Effect        operations on a state that may fail, with Go's early return and `defer`; Effect/Keeps
--                 the rules for what they keep and lead to
--   VolumeId      volume and snapshot IDs (pkg/driver/utils.go, pkg/common/config.go)
--   Params        parseVolParams, checkFileBackedMinSize (pkg/driver/controller.go), ResolveFQDN
--                 (pkg/common/host_utils.go)
--   Cache         the driver-wide cache (pkg/common/hs_cache.go, pkg/common/utils.go)
--   Rotation      GetRoundRobinOrderedList (pkg/common/utils.go)
--   Types         the data of pkg/common/hs_types.go and of the CSI messages that is read
--   Driver        the state of CSIDriver (pkg/driver/driver.go), its requests, and operations on it;
--                 Driver/Keeps, Driver/Ends and Driver/Since are the rules for invariants, for results
--                 and for what is asked of the Anvil and the host
--   Mount         backing mounts and their references (pkg/driver/utils.go): Mount/Refs the counters,
--                 which Mount/Counters compares with a counter for each directory, Mount/Classify and
--                 Mount/Stale the probes, Mount/Server the check for a mount of another Anvil,
--                 Mount/Portal the choice of a data portal and of an NFS version, Mount/Threads the
--                 interleavings of goroutines on one directory
--   Controller    the handlers of pkg/driver/controller.go: Create (CreateVolume: Plan its checks, Backing,
--                 File and Share the ways to make a volume, Identity its IDs), Delete, Expand, Snapshots
--                 (CreateSnapshot and DeleteSnapshot), Find (ListSnapshots), Capacity, Validate and List
--                 (ListVolumes)
--   Node          the node service (pkg/driver/node.go, pkg/driver/node_helper.go): the paths and flags of
--                 nested NFS volumes, Private the private mounts, Publish and FileBacked the publishing of
--                 volumes, Unpublish, Expand, Stats, and Service the handlers that compose them
--   Client        the client of the Anvil (pkg/client/hsclient.go): requests and logins, where what
--                 a request does that is used a second time is the Http record's, Tasks the waits
--                 for tasks, Shares, Delete, Snapshots, and Portals the addresses of the cluster
--   Host          pkg/common/host_utils.go on the host: Growth the sizes of file systems, Devices the loop
--                 devices, Mounting the mounts, folders, exports and tags, Attempts the goroutines that
--                 mount one path
--   Freezer       the freeze and thaw for a snapshot (pkg/driver/freezer.go)
--   CsiV0         the service for CSI 0.3 (pkg/driver/driver_csi_v0.go), which converts requests and calls
--                 the handlers
--   Locks         the locks by volume ID and the callers that wait for them (pkg/driver/driver.go)
--   Main          the checks of the environment and the choice of the server (main.go, NewCSIDriver)
--   Routes        the routes that requests are counted under (AnvilRoute of pkg/common/metrics.go)
--   Operator      the operator that installs the plugin (operator/internal/operator): Parse and Render
--                 (render.go), Conditions, Workload, Apply and Reconcile (reconcile.go)
--   Tests         a small Anvil, host and cluster, and each theorem on concrete values
--
-- A handler is a function from the driver's state to a result and the next state (Driver.Op). What it
-- asks of the Hammerspace client and of the host is recorded in a history, newest first, and answered by
-- the World, an arbitrary function of the history: every theorem on a handler is about every World, but
-- for what its hypotheses say. Go's early return is the error of a result, and `defer` is Effect.finally.
-- Inside a handler nothing else runs; other goroutines come in by the answers of the World, for one
-- backing directory in Mount/Threads, where each step is what the code does under the global mutex or in
-- one call, and for the locks by volume ID in Locks. The client is a function of its own state in the
-- same way, where the Http record answers each exchange and stands for JSON and URLs; the World's answers
-- for the client are not derived from it. The operator is a function of its requests to the API server,
-- which the Api record answers; clients other than the operator come in by those answers.
--
-- Bounds: an int64 is an integer with its wrap-around written out; the round-robin index wraps at 2^32.
-- Two loops run on fuel. The wait for a new file to be seen has 6001 rounds, since a round takes 100 ms
-- and the wait ends after 10 minutes; the wait for a task has 1801, since a round takes two seconds and
-- the wait ends after an hour. That this is enough is proved where the clock of the host behaves.
-- classifyMount runs on the number of its probes and upgradeManagedFields on that of its attempts, and
-- every other loop on a list.
--
-- Not modelled: how callers share one probe of a volume path, and the retry of attaching a loop device;
-- the probe of an NFS server by RPC and the ioctls of pkg/common/host_utils.go; contexts, but for whether
-- the caller's has ended; logs, traces and metrics but for the names of routes, which have no part in an
-- answer; the generation of the operator's manifests and its start-up; verbs but %s in
-- the format of volume names; the gRPC servers, the login at the
-- start and the signals. The identity service answers constants. For the handlers of the plugin, what
-- Host and Freezer do is an answer of the World.
pub mod Base
pub mod Grpc
pub mod Effect
pub mod VolumeId
pub mod Params
pub mod Cache
pub mod Rotation
pub mod Types
pub mod Driver
pub mod Mount
pub mod Controller
pub mod Node
pub mod Client
pub mod Host
pub mod Freezer
pub mod Operator
pub mod CsiV0
pub mod Locks
pub mod Main
pub mod Routes
pub mod Tests
