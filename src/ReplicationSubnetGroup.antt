-- ===== src/ReplicationSubnetGroup.antt =====
-- The replication subnet group: apis/v1alpha1/replication_subnet_group.go and references.go of pkg/resource/replication_subnet_group.
pub mod Types
pub mod References
