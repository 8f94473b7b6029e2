-- ===== src/ReplicationInstance.antt =====
-- The replication instance: apis/v1alpha1/replication_instance.go and
-- pkg/resource/replication_instance.
pub mod Types
pub mod Api
pub mod Hooks
pub mod Payload
pub mod Merge
pub mod Sdk
pub mod Delta
pub mod Bounds
pub mod Versions
pub mod Guards
pub mod References
