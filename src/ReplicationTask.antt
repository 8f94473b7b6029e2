-- ===== src/ReplicationTask.antt =====
-- pkg/resource/replication_task: the manager of replication tasks.
pub mod Types
pub mod TaskStatus
pub mod Hooks
pub mod StatusView
pub mod Starting
pub mod Stopping
pub mod Api
pub mod Payload
pub mod Merge
pub mod Connections
pub mod Sdk
pub mod Update
pub mod Delete
pub mod Routing
pub mod FindParts
pub mod Finding
pub mod Deletion
pub mod Creation
pub mod Delta
pub mod DeltaContent
pub mod DeltaFields
pub mod Transitions
pub mod Settling
pub mod Syncing
pub mod References
