-- ===== src/ReplicationSubnetGroup/Types.antt =====
-- ReplicationSubnetGroup, its Spec and its Status of
-- apis/v1alpha1/replication_subnet_group.go.
use ack_dms_controller.Base.{Bool, List, Option, String}
use ack_dms_controller.Manager.{Kind}
use ack_dms_controller.Resource.{ReferenceWrapper}
use ack_dms_controller.Status.{AckStatus}
use ack_dms_controller.Tags.{Tag}

pub record AvailabilityZone : Type 0 where
  pub name : Option String

pub record Subnet : Type 0 where
  pub subnet_availability_zone : Option AvailabilityZone
  pub subnet_identifier : Option String
  pub subnet_status : Option String

pub record ReplicationSubnetGroupSpec : Type 0 where
  pub description : Option String
  pub name : Option String
  pub subnet_ids : Option (List String)
  pub subnet_refs : Option (List ReferenceWrapper)
  pub tags : Option (List Tag)

pub record ReplicationSubnetGroupStatus : Type 0 where
  pub ack : AckStatus
  pub is_read_only : Option Bool
  pub subnet_group_status : Option String
  pub subnets : Option (List Subnet)
  pub supported_network_types : Option (List String)
  pub vpc_id : Option String

-- The fields of the custom resource that the manager reads or writes.
pub record ReplicationSubnetGroup : Type 0 where
  pub namespace : String
  pub spec : ReplicationSubnetGroupSpec
  pub status : ReplicationSubnetGroupStatus

abbrev pub replication_subnet_group_kind : Kind ReplicationSubnetGroup
replication_subnet_group_kind = record {
  ack = λ ko. ko.status.ack;
  set_ack = λ a ko. record ko { status = record (ko.status) { ack = a } };
  tags = λ ko. ko.spec.tags;
  set_tags = λ t ko. record ko { spec = record (ko.spec) { tags = t } };
}
