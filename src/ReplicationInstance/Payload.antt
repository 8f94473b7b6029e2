-- ===== src/ReplicationInstance/Payload.antt =====
-- The requests that sdk.go builds for a replication instance.
use mathlib.Core.Option
use ack_dms_controller.Base.{Option, String, if◌then◌else◌, none, some, true}
use ack_dms_controller.Compare.{DeltaOps}
use ack_dms_controller.Integer.{overflows_int32, to_int32, ℤ}
use ack_dms_controller.ReplicationInstance.Api.{
  CreateReplicationInstanceInput, ModifyReplicationInstanceInput, SdkKerberos,
}
use ack_dms_controller.ReplicationInstance.Types.{
  KerberosAuthenticationSettings, ReplicationInstance,
}
use ack_dms_controller.Runtime.{Errors, Reply, fault, reply}
use ack_dms_controller.Status.{arn_of}
use ack_dms_controller.TagSync.{sdk_tags_from_resource_tags}

abbrev pub sdk_kerberos_of : KerberosAuthenticationSettings → SdkKerberos
sdk_kerberos_of k = record {
  key_cache_secret_iam_arn = k.key_cache_secret_iam_arn;
  key_cache_secret_id = k.key_cache_secret_id;
  krb5_file_contents = k.krb5_file_contents;
}

module _ {E : Type 0} (errors : Errors E) where
  abbrev pub storage_error : E
  storage_error = errors.errorf "error: field AllocatedStorage is of type int32"

  -- The copy of AllocatedStorage, where it is there.
  unfoldable pub storage_copy : Option ℤ → Reply (Option ℤ) E
  unfolding overflows_int32 to_int32
  storage_copy none = reply none
  storage_copy (some x) =
      if overflows_int32 x then fault storage_error else reply (some (to_int32 x))

  unfoldable pub new_create_instance_payload :
      ReplicationInstance → Reply CreateReplicationInstanceInput E
  unfolding storage_copy
  new_create_instance_payload r = elim (storage_copy r.spec.allocated_storage) [
    | fault e ↦ fault e
    | reply storage ↦ reply (record {
      allocated_storage = storage;
      auto_minor_version_upgrade = r.spec.auto_minor_version_upgrade;
      availability_zone = r.spec.availability_zone;
      dns_name_servers = r.spec.dns_name_servers;
      engine_version = r.spec.engine_version;
      kerberos_authentication_settings =
          Option.map sdk_kerberos_of r.spec.kerberos_authentication_settings;
      kms_key_id = r.spec.kms_key_id;
      multi_az = r.spec.multi_az;
      network_type = r.spec.network_type;
      preferred_maintenance_window = r.spec.preferred_maintenance_window;
      publicly_accessible = r.spec.publicly_accessible;
      replication_instance_class = r.spec.instance_class;
      replication_instance_identifier = r.spec.name;
      replication_subnet_group_identifier = r.spec.subnet_group_id;
      resource_identifier = r.spec.resource_identifier;
      tags = Option.map sdk_tags_from_resource_tags r.spec.tags;
      vpc_security_group_ids = r.spec.security_group_ids;
    })
  ]

  module _ {D : Type 0} (ops : DeltaOps D) where
    -- A field that is sent only where the delta is different at its path.
    abbrev pub if_different : {A : Type 0} → D → String → Option A → Option A
    if_different delta path v = if ops.different_at delta path then v else none

    unfoldable pub new_modify_instance_payload :
        ReplicationInstance → D → Reply ModifyReplicationInstanceInput E
    unfolding storage_copy arn_of
    new_modify_instance_payload r delta =
        elim (storage_copy (if_different delta "Spec.AllocatedStorage" r.spec.allocated_storage)) [
          | fault e ↦ fault e
          | reply storage ↦ reply (record {
            allocated_storage = storage;
            allow_major_version_upgrade = true;
            apply_immediately = true;
            auto_minor_version_upgrade =
                if_different delta "Spec.AutoMinorVersionUpgrade" r.spec.auto_minor_version_upgrade;
            engine_version = if_different delta "Spec.EngineVersion" r.spec.engine_version;
            kerberos_authentication_settings =
                if_different delta "Spec.KerberosAuthenticationSettings"
                  (Option.map sdk_kerberos_of r.spec.kerberos_authentication_settings);
            multi_az = if_different delta "Spec.MultiAZ" r.spec.multi_az;
            network_type = if_different delta "Spec.NetworkType" r.spec.network_type;
            preferred_maintenance_window =
                if_different delta "Spec.PreferredMaintenanceWindow"
                  r.spec.preferred_maintenance_window;
            replication_instance_arn = arn_of r.status.ack;
            replication_instance_class =
                if_different delta "Spec.InstanceClass" r.spec.instance_class;
            replication_instance_identifier = if_different delta "Spec.Name" r.spec.name;
            vpc_security_group_ids =
                if_different delta "Spec.SecurityGroupIDs" r.spec.security_group_ids;
          })
        ]

unfoldable pub new_delete_instance_payload : ReplicationInstance → Option String
unfolding arn_of
new_delete_instance_payload r = arn_of r.status.ack
