-- ===== src/ReplicationInstance/Types.antt =====
-- ReplicationInstance, its Spec and its Status, and the two structs of types.go that they hold.
-- A `[]*string` is a list of values: the code passes it on, and reads no element.
use ack_dms_controller.Base.{Bool, List, Option, String, some}
use ack_dms_controller.Integer.{ℤ}
use ack_dms_controller.Resource.{ReferenceWrapper, Time}
use ack_dms_controller.Status.{AckStatus}
use ack_dms_controller.Tags.{Tag}

pub record KerberosAuthenticationSettings : Type 0 where
  pub key_cache_secret_iam_arn : Option String
  pub key_cache_secret_iam_ref : Option ReferenceWrapper
  pub key_cache_secret_id : Option String
  pub key_cache_secret_ref : Option ReferenceWrapper
  pub krb5_file_contents : Option String

pub record ReplicationPendingModifiedValues : Type 0 where
  pub allocated_storage : Option ℤ
  pub engine_version : Option String
  pub multi_az : Option Bool
  pub network_type : Option String
  pub replication_instance_class : Option String

pub record ReplicationInstanceSpec : Type 0 where
  pub allocated_storage : Option ℤ
  pub auto_minor_version_upgrade : Option Bool
  pub availability_zone : Option String
  pub dns_name_servers : Option String
  pub engine_version : Option String
  pub instance_class : Option String
  pub kerberos_authentication_settings : Option KerberosAuthenticationSettings
  pub kms_key_id : Option String
  pub kms_key_ref : Option ReferenceWrapper
  pub multi_az : Option Bool
  pub name : Option String
  pub network_type : Option String
  pub preferred_maintenance_window : Option String
  pub publicly_accessible : Option Bool
  pub resource_identifier : Option String
  pub security_group_ids : Option (List String)
  pub security_group_refs : Option (List ReferenceWrapper)
  pub subnet_group_id : Option String
  pub subnet_group_ref : Option ReferenceWrapper
  pub tags : Option (List Tag)

pub record ReplicationInstanceStatus : Type 0 where
  pub ack : AckStatus
  pub free_until : Option Time
  pub ipv6_addresses : Option (List String)
  pub instance_create_time : Option Time
  pub instance_status : Option String
  pub pending_modified_values : Option ReplicationPendingModifiedValues
  pub private_ip_address : Option String
  pub private_ip_addresses : Option (List String)
  pub public_ip_address : Option String
  pub public_ip_addresses : Option (List String)
  pub secondary_availability_zone : Option String

-- The fields of the custom resource that the manager reads or writes.
pub record ReplicationInstance : Type 0 where
  pub namespace : String
  pub deletion_timestamp : Option Time
  pub spec : ReplicationInstanceSpec
  pub status : ReplicationInstanceStatus

abbrev pub with_instance_ack : AckStatus → ReplicationInstance → ReplicationInstance
with_instance_ack a ko = record ko { status = record (ko.status) { ack = a } }

abbrev pub with_instance_status : String → ReplicationInstance → ReplicationInstance
with_instance_status s ko = record ko { status = record (ko.status) { instance_status = some s } }
