-- ===== src/ReplicationInstance/Api.antt =====
-- The calls of the AWS SDK that the instance manager makes, and the records that they take and
-- return, with the fields that the source names. A parameter of the model.
use ack_dms_controller.Base.{Bool, List, Option, String}
use ack_dms_controller.Compare.{DeltaOps}
use ack_dms_controller.Integer.{ℤ}
use ack_dms_controller.Resource.{Filter, Time}
use ack_dms_controller.Runtime.{ConditionNames, Errors, Reply}
use ack_dms_controller.Status.{AckStatus}
use ack_dms_controller.TagSync.{SdkTag, TagApi}

pub record SdkKerberos : Type 0 where
  pub key_cache_secret_iam_arn : Option String
  pub key_cache_secret_id : Option String
  pub krb5_file_contents : Option String

pub record SdkPending : Type 0 where
  pub allocated_storage : Option ℤ
  pub engine_version : Option String
  pub multi_az : Option Bool
  pub network_type : Option String
  pub replication_instance_class : Option String

-- `svcsdktypes.ReplicationInstance`
pub record SdkInstance : Type 0 where
  pub allocated_storage : ℤ
  pub auto_minor_version_upgrade : Bool
  pub availability_zone : Option String
  pub dns_name_servers : Option String
  pub engine_version : Option String
  pub free_until : Option Time
  pub instance_create_time : Option Time
  pub kerberos_authentication_settings : Option SdkKerberos
  pub kms_key_id : Option String
  pub multi_az : Bool
  pub network_type : Option String
  pub pending_modified_values : Option SdkPending
  pub preferred_maintenance_window : Option String
  pub publicly_accessible : Bool
  pub replication_instance_arn : Option String
  pub replication_instance_class : Option String
  pub replication_instance_identifier : Option String
  pub replication_instance_ipv6_addresses : Option (List String)
  pub replication_instance_private_ip_address : Option String
  pub replication_instance_private_ip_addresses : Option (List String)
  pub replication_instance_public_ip_address : Option String
  pub replication_instance_public_ip_addresses : Option (List String)
  pub replication_instance_status : Option String
  pub secondary_availability_zone : Option String

pub record CreateReplicationInstanceInput : Type 0 where
  pub allocated_storage : Option ℤ
  pub auto_minor_version_upgrade : Option Bool
  pub availability_zone : Option String
  pub dns_name_servers : Option String
  pub engine_version : Option String
  pub kerberos_authentication_settings : Option SdkKerberos
  pub kms_key_id : Option String
  pub multi_az : Option Bool
  pub network_type : Option String
  pub preferred_maintenance_window : Option String
  pub publicly_accessible : Option Bool
  pub replication_instance_class : Option String
  pub replication_instance_identifier : Option String
  pub replication_subnet_group_identifier : Option String
  pub resource_identifier : Option String
  pub tags : Option (List SdkTag)
  pub vpc_security_group_ids : Option (List String)

pub record ModifyReplicationInstanceInput : Type 0 where
  pub allocated_storage : Option ℤ
  pub allow_major_version_upgrade : Bool
  pub apply_immediately : Bool
  pub auto_minor_version_upgrade : Option Bool
  pub engine_version : Option String
  pub kerberos_authentication_settings : Option SdkKerberos
  pub multi_az : Option Bool
  pub network_type : Option String
  pub preferred_maintenance_window : Option String
  pub replication_instance_arn : Option String
  pub replication_instance_class : Option String
  pub replication_instance_identifier : Option String
  pub vpc_security_group_ids : Option (List String)

pub record InstanceApi (W E : Type 0) : Type 0 where
  pub tag_api : TagApi W E
  pub describe_replication_instances : List Filter → W → Reply (List SdkInstance) E × W
  -- `resp.ReplicationInstance` is read without a test: the SDK sets it where there is no error.
  pub create_replication_instance : CreateReplicationInstanceInput → W → Reply SdkInstance E × W
  pub modify_replication_instance : ModifyReplicationInstanceInput → W → Reply SdkInstance E × W
  pub delete_replication_instance : Option String → W → Reply (Unit {0}) E × W

-- What the instance manager takes from outside: the API, the errors of the ACK runtime, the
-- questions to a delta, and `ackcondition.SetSynced`.
pub record InstanceEnv (W E D : Type 0) : Type 0 where
  pub api : InstanceApi W E
  pub errors : Errors E
  pub names : ConditionNames
  pub delta_ops : DeltaOps D
  pub set_synced : String → Option String → Option String → AckStatus → AckStatus
