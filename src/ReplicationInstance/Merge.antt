-- ===== src/ReplicationInstance/Merge.antt =====
-- How sdk.go of the replication instance merges what the API returns into a copy of the resource,
-- and the pending modified values back into its Spec. A field that is set from a pointer, or to nil
-- where the pointer is nil, is set to that pointer.
use mathlib.Core.Option
use ack_dms_controller.Base.{Option, false, none, some, true}
use ack_dms_controller.ReplicationInstance.Api.{SdkInstance, SdkKerberos, SdkPending}
use ack_dms_controller.ReplicationInstance.Types.{
  KerberosAuthenticationSettings, ReplicationInstance, ReplicationPendingModifiedValues,
  with_instance_ack,
}
use ack_dms_controller.Status.{with_arn}

abbrev kerberos_of : SdkKerberos → KerberosAuthenticationSettings
kerberos_of k = record {
  key_cache_secret_iam_arn = k.key_cache_secret_iam_arn;
  key_cache_secret_iam_ref = none;
  key_cache_secret_id = k.key_cache_secret_id;
  key_cache_secret_ref = none;
  krb5_file_contents = k.krb5_file_contents;
}

abbrev pending_of : SdkPending → ReplicationPendingModifiedValues
pending_of p = record {
  allocated_storage = p.allocated_storage;
  engine_version = p.engine_version;
  multi_az = p.multi_az;
  network_type = p.network_type;
  replication_instance_class = p.replication_instance_class;
}

-- What is set from the response, the ARN aside, in one text in sdkFind, sdkCreate and sdkUpdate.
abbrev pub merge_fields : SdkInstance → ReplicationInstance → ReplicationInstance
merge_fields elem ko = record ko {
  spec = record (ko.spec) {
    allocated_storage = some elem.allocated_storage;
    auto_minor_version_upgrade = some elem.auto_minor_version_upgrade;
    availability_zone = elem.availability_zone;
    dns_name_servers = elem.dns_name_servers;
    engine_version = elem.engine_version;
    kerberos_authentication_settings = Option.map kerberos_of elem.kerberos_authentication_settings;
    kms_key_id = elem.kms_key_id;
    multi_az = some elem.multi_az;
    network_type = elem.network_type;
    preferred_maintenance_window = elem.preferred_maintenance_window;
    publicly_accessible = some elem.publicly_accessible;
    instance_class = elem.replication_instance_class;
    name = elem.replication_instance_identifier;
  };
  status = record (ko.status) {
    free_until = elem.free_until;
    instance_create_time = elem.instance_create_time;
    pending_modified_values = Option.map pending_of elem.pending_modified_values;
    ipv6_addresses = elem.replication_instance_ipv6_addresses;
    private_ip_address = elem.replication_instance_private_ip_address;
    private_ip_addresses = elem.replication_instance_private_ip_addresses;
    public_ip_address = elem.replication_instance_public_ip_address;
    public_ip_addresses = elem.replication_instance_public_ip_addresses;
    instance_status = elem.replication_instance_status;
    secondary_availability_zone = elem.secondary_availability_zone;
  };
}

-- The body of the loop of sdkFind.
unfoldable pub merge_found_instance : SdkInstance → ReplicationInstance → ReplicationInstance
merge_found_instance elem ko =
    with_instance_ack (with_arn false elem.replication_instance_arn ko.status.ack)
      (merge_fields elem ko)

-- What sdkCreate sets from the response.
unfoldable pub merge_created_instance : SdkInstance → ReplicationInstance → ReplicationInstance
merge_created_instance task ko =
    with_instance_ack (with_arn true task.replication_instance_arn ko.status.ack)
      (merge_fields task ko)

unfoldable pub merge_modified_instance : SdkInstance → ReplicationInstance → ReplicationInstance
unfolding merge_created_instance
merge_modified_instance = merge_created_instance

-- `if v != nil { field = v }`
abbrev pub or_kept : {A : Type 0} → Option A → Option A → Option A
or_kept none old = old
or_kept (some a) old = some a

-- The hook of sdkFind and of sdkUpdate that merges the pending modified values.
unfoldable pub merge_pending : ReplicationInstance → ReplicationInstance
merge_pending ko = elim ko.status.pending_modified_values [
  | none ↦ ko
  | some pmv ↦ record ko {
    spec = record (ko.spec) {
      multi_az = or_kept pmv.multi_az ko.spec.multi_az;
      instance_class = or_kept pmv.replication_instance_class ko.spec.instance_class;
      allocated_storage = or_kept pmv.allocated_storage ko.spec.allocated_storage;
      engine_version = or_kept pmv.engine_version ko.spec.engine_version;
      network_type = or_kept pmv.network_type ko.spec.network_type;
    };
  }
]
