-- ===== src/Lib.antt =====
-- Presto operator: a Kubernetes controller that keeps the objects of each PrestoCluster resource.
--
-- A request names a cluster. `PrestoClusterController.reconcile` (controllers/controller.go) inspects
-- the cluster and its five children (two config maps, two deployments, a service), computes the
-- objects that the cluster should have, creates or updates what differs, and then writes the count of
-- available workers to the status of the cluster.
--
-- The files and the code that they model:
--   Api, Api/DeepCopy        api/v1alpha1/prestocluster_types.go, groupversion_info.go and, as
--                            functions on values, zz_generated.deepcopy.go
--   Api/Cells, Api/Heap      the same structs with pointers, and the generated copies over a heap:
--                            Shapes, Structs and Reading say what a pointer stands for and reaches,
--                            metadata and resources included, Copies and Separate what a copy does
--   Utils                    controllers/utils.go; Utils/Names, Splitting, Properties, Readable
--                            hold its laws
--   Desired                  controllers/desired.go, preStopScript.go and coresite.go:
--                            Desired/Deployments, Mounts, Service, ConfigMaps, PreStop and CoreSite
--                            are the definitions, and Keys, MountsHeld, MountedFiles, Contents,
--                            Ownership, Reordered and Unordered the laws
--   Inspector                controllers/inspector.go (`inspect_part` is the block that `inspect`
--                            repeats for each object)
--   Reconciler               controllers/reconciler.go (`reconcile_children` is its `reconcile`);
--                            Plan, Children, Settled, Refines, Alike and Follows specify its steps
--   Status                   controllers/status.go
--   Controller               controllers/controller.go (`reconcile`); Round, Converges, Isolated, Runs,
--                            Alike, Order, Program (a request as a program of calls), Among (with others
--                            between its calls), Concurrent (requests that are served at the same time),
--                            Rollout, Requeues, Returns, Writes, Calls (with the RBAC markers), Deletes
--                            and Errors hold the theorems on whole requests
--   Process                  main.go, with `Reconcile` and `SetupWithManager` of controller.go
--   Kube                     the Kubernetes API: object shapes with the fields that the operator
--                            sets, the library functions and the client
--   Go, Maps, Sorting, Strings, Decimal, Text, Prelude
--                            what the code uses of Go and its standard library, and shared helpers
--   Tests                    an API server in memory and the theorems at concrete inputs
--
-- How it is modelled. A function that calls the API server is an `Action` on the client's state: it
-- returns, or it panics on a nil pointer. An error is a value and nil is `none`. Methods take the
-- fields of their receiver as arguments. A repeated loop or block of the source is one function with
-- the parts that differ as arguments. A Go map is a list of entries without a repeated key
-- (`HasMaps`), whose order stands for the order in which Go visits it (Maps/Unordered has the quotient
-- that forgets it); a text is the list of its code points, whose order agrees with that of the bytes
-- of UTF-8. An int32 is a whole number, since the operator only copies, compares and prints it.
--
-- The client, the event recorder (`Client`) and the functions of the Kubernetes libraries
-- (`Machinery`, and `HeapMachinery` over a heap) are parameters. `IsDocumented` and `HasCopies` say
-- what the libraries document. `IsQuiet` says how
-- the server answers while nobody else writes, no call fails and reads have caught up with writes;
-- theorems without it hold for every client, those that fail at any call included. `IsDeleting` says
-- the same of deletions, `IsRollout` what others do to the worker deployment between two requests, and
-- `ReadsCounts` that a cluster that was read has its count of workers and a deployment its replicas.
-- `IsLocal` says that a call, failed or not, concerns one object alone. For such a client,
-- Controller/Among lets others act before every call, and Controller/Concurrent serves many clusters
-- at the same time, a call at a time and each cluster's requests in a row, as the work queue of the
-- manager does (`Step`, `Reach`). For that, Controller/Program lays `reconcile` open as a program of
-- calls which runs as `reconcile` does with every client (`Opened`). A server in memory has all of this
-- (Tests). The manager library of main.go is the parameter `Runtime`.
--
-- A requeued request is a step of the relation `Served`, whose length Controller/Requeues bounds by the
-- number of workers that are missing. The only fuel is that of `digits` (Decimal): each round divides
-- by ten, and there is one round more than the number itself, so that the printed number reads back
-- (Decimal/Laws).
--
-- Not modelled: the syntax of the command line and the logger in main.go, log lines, the stale
-- generated code for types and fields that are no longer declared (CatalogConfig, DynamicArgs), CRDs,
-- charts and scripts.
pub mod Prelude
pub mod Go
pub mod Text
pub mod Maps
pub mod Sorting
pub mod Strings
pub mod Kube
pub mod Api
pub mod Utils
pub mod Desired
pub mod Inspector
pub mod Reconciler
pub mod Status
pub mod Controller
pub mod Process
pub mod Decimal
pub mod Tests
