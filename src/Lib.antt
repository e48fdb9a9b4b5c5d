-- ===== src/Lib.antt =====
-- The ACK controller for MWAA environments, which creates, reads, updates and deletes an Amazon
-- Managed Workflows for Apache Airflow environment for a custom resource of Kubernetes.
--
-- Parts, by file, with the code of the repository that each is about:
--   Api         apis/v1alpha1/environment.go and types.go: the spec, the status and their structs.
--               Api/Enums has the enumerations of enums.go that the controller compares with.
--   Tags        pkg/tags/sync.go: `SyncTags`.
--   DeepCopy    apis/v1alpha1/zz_generated.deepcopy.go, over a memory of cells: `DeepCopy` of
--               `Environment` and `EnvironmentList`, and every function that these reach.
--   Controller  cmd/controller/main.go: the start of the process.
--   Env         pkg/resource/environment:
--     TagFields   tags.go, and `EnsureTags`, `FilterSystemTags`, `mirrorAWSTags` of manager.go
--     Delta       delta.go (`newResourceDelta`), and `customPreCompare` of hooks.go
--     Status      `setStatusDefaults`, `updateConditions`, `terminalAWSError` of sdk.go, `onError`
--                 and `onSuccess` of manager.go
--     Calls       a call of the AWS API with `RecordAPICall`
--     Hooks       `handleUpdateFailed` of hooks.go
--     Read        `sdkFind` of sdk.go
--     Payload     the payloads of create and update requests of sdk.go
--     Write       `sdkCreate`, `sdkUpdate` and `sdkDelete` of sdk.go
--     Manage      the methods `ReadOne`, `Create`, `Update`, `Delete`, `IsSynced` of manager.go
--     LateInit    `LateInitialize` of manager.go and its helpers
--     Reachable   any sequence of these methods, as a predicate on resources
--     References  references.go
--     Descriptor  descriptor.go: the finalizer and the annotation of a managed resource
--     Resource    resource.go and identifiers.go: the wrapper of a resource
--     Factory     manager_factory.go, and `newResourceManager` of manager.go; Factory/Threads has
--                 concurrent calls of `ManagerFor` as a step relation
--   Ext         what the code takes from other repositories, each a record of operations that the
--               definitions take as a parameter, and a record of the documented laws: errors, the
--               AWS client, the reader of Kubernetes, the comparators and the delta of the runtime, its
--               helpers, the finalizers of controller-runtime, and what `main` calls.
--   Common      Go's `==`, maps, slices, `int64`, panics and error results.
--   Samples     instances of the parameters with the proofs of their laws, and sample resources.
--
-- How the parts interact: a method of Manage calls Read or Write, which make calls over a state of
-- the service (`Cloud`: the world that only the service knows and the calls recorded), and hands
-- the answer to Status, which writes the conditions. Write uses Payload and Tags; the reconciler of
-- the runtime, which is not in the repository, calls the methods of Manage with a delta of Delta. It
-- takes a manager from Factory, resolves and clears references around these calls, and marks a
-- resource by Descriptor before `Create` and after `Delete`.
--
-- How the code is translated: a pointer is an `Option`; a slice or a map that may be nil is an
-- `Option` of a list; a map is an association list in any order, with the theorems for maps asking
-- for keys without repetition; an early return with an error is a result; a nil dereference and
-- `panic` are the outcome `panics`. A deep copy is the value itself, but in DeepCopy, where a pointer
-- is an address. A change of a shared resource is returned beside the result (`mirror_aws_tags`
-- changes the argument of `ReadOne`, and `handle_update_failed` the resource that it returns).
-- `int32(x)` takes the low 32 bits. No definition needs fuel: every loop is over a list.
--
-- Concurrency: the code shares one mutable value between goroutines, the cache of managers.
-- Factory/Threads cuts a call of `ManagerFor` at every operation of its `sync.RWMutex` and every
-- access to the cache; a step is one such operation of any call, so a sequence of steps is an
-- interleaving. The lock grants what the Go documentation promises: any number of readers, or one
-- writer, and no new reader while a call waits in `Lock`.
--
-- Not modelled: logs and traces, but for the lines of `main`; `context.Context`; the registration of
-- types and manifests; the deep copies of types that the controller does not use;
-- `IsAdoptable`, `RequeueOnSuccessSeconds` and the accessors that return a constant or the object
-- itself.
pub mod Common
pub mod Api
pub mod Ext
pub mod Tags
pub mod DeepCopy
pub mod Controller
pub mod Env
pub mod Samples
