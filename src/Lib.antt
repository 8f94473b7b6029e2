-- ===== src/Lib.antt =====
-- ACK controller for the AWS Database Migration Service: a model of its resource managers.
--
-- The ACK runtime watches a custom resource and calls the resource manager of its kind: ReadOne
-- asks AWS for the resource, a delta compares it with the desired one, and Create, Update or Delete
-- calls AWS to remove the difference. Each kind has a package below pkg/resource; tags.go, the tag
-- functions of hooks.go, updateConditions and manager.go are one text in all of them but for the
-- type of the resource, and are modelled once. The replication task and the
-- replication instance are modelled in detail.
--
--   Base, Go, Runtime   shared names; a call that returns or panics; a method that changes the state
--                       of AWS and the metrics; the errors of the ACK runtime
--   Tags                tags.go of a package: tag lists and the map of tags
--   Util                pkg/util/tags.go: the difference of two tag lists
--   TagSync             getTags and syncTags of hooks.go
--   Status              setStatusDefaults and updateConditions of sdk.go, onError and onSuccess of
--                       manager.go, on the metadata and the conditions of a resource
--   Compare             what the code asks a delta of ackcompare, and what a list of comparisons makes
--                       of a delta
--   Integer, Resource   Go's integers with the conversion to int32; types of Kubernetes and AWS
--   References          references.go of a package, over a description of the fields, which
--                       References/Shapes builds
--   ReplicationTask     apis/v1alpha1/replication_task.go (Types) and, of
--                       pkg/resource/replication_task: hooks.go (TaskStatus, Hooks, and the requests
--                       of Payload), sdk.go (Payload, Merge, Connections, Sdk, Update, Delete) and
--                       delta.go (Delta), references.go (References)
--   ReplicationInstance apis/v1alpha1/replication_instance.go (Types) and, of
--                       pkg/resource/replication_instance: hooks.go (Hooks), sdk.go (Payload, Merge,
--                       Sdk), delta.go (Delta), references.go (References)
--   Certificate, EventSubscription, ReplicationSubnetGroup, Endpoint
--                       the other kinds: their files of apis/v1alpha1, with the settings of the
--                       engines of an endpoint (Endpoint/Settings), and references.go of their
--                       packages (of the endpoint, Slots, Fields and References)
--   Manager             ReadOne, Create, Update, Delete, EnsureTags, FilterSystemTags and
--                       mirrorAWSTags of manager.go, over an interface of a kind of resource
--   ManagerFactory      manager_factory.go of a package: ManagerFor by the parts under its two locks,
--                       and its callers in every order
--   below these         the proofs: Tags/Convert and Tags/System, Util/Loops, Util/Drift and
--                       Util/Panics, TagSync/Effect, Status/Conditions, Single, Outcome and Failing,
--                       Compare/Content and Fields, References/Clearing, Blocks, Targets,
--                       Resolving, Validity, Manager/TagLaws, Failing and TaskDeletion,
--                       ManagerFactory/Keys, Runs and Callers; of the task Starting, Stopping,
--                       Routing, Deletion, Creation, FindParts, Finding, DeltaContent,
--                       DeltaFields, Transitions, Settling, Syncing (the last with IsSynced
--                       of manager.go) and two below References; of the instance Bounds, Versions,
--                       Guards and one below References; of the endpoint Kept, SlotLaws, FieldLaws,
--                       Keeping, Cleared and RoundTrip
--   Manager/TaskKind, Manager/InstanceKind
--                       the two kinds, with terminalAWSError of their sdk.go
--   Tests               each theorem at a concrete input
--
-- A definition bears the name of its function in snake case; a part of a long function has a name
-- of its own, and its comment says which part it is. A Go pointer is an Option, a nil dereference is
-- `panics`, a Go map is an association list in which each key stands once, and a method that writes
-- to an object it was given returns the object. Every loop is structural recursion, so no fuel is
-- used. An int64 is an integer without a bound; where the code goes to int32, the check and the
-- wrap-around are written out. A manager that the factory makes bears a serial number in place of
-- its address.
--
-- Parameters: the AWS SDK (TagApi, TaskApi and InstanceApi, functions of a state of AWS that may do
-- anything), the errors of the ACK runtime, the names of the condition types, the questions to a
-- delta, the comparisons of newResourceDelta, json.Indent, ackcondition.SetSynced, acktags.Merge,
-- the Kubernetes API and the namespaces that references may cross (ReferenceEnv), and the order in
-- which `range` walks a map. A hypothesis on one of them says what its documentation says
-- (TagApiLaws, MergeLaws, DeltaLaws, NilLaws, AnswersCompletely, FindsApiError, IsRange).
--
-- Not modelled: logging and tracing, contexts, the transition times of conditions, late
-- initialization, resource.go and descriptor.go, the sdk.go, hooks.go and delta.go of the
-- certificate, the event subscription, the subnet group and the endpoint beyond the texts that all
-- packages share, deep copies (values are copied by nature), and the start-up of the program.
pub mod Base
pub mod Go
pub mod Integer
pub mod Resource
pub mod Tags
pub mod Util
pub mod Runtime
pub mod Status
pub mod TagSync
pub mod Compare
pub mod References
pub mod ReplicationTask
pub mod ReplicationInstance
pub mod Certificate
pub mod EventSubscription
pub mod ReplicationSubnetGroup
pub mod Endpoint
pub mod Manager
pub mod ManagerFactory
pub mod Tests
