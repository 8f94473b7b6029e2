-- ===== src/Tests/InstanceSamples.antt =====
-- A concrete API for replication instances, and a replication instance.
use ack_dms_controller.Base.{List, String, [], false, is_none, is_some, none, refl, some, true, ◌∷◌}
use ack_dms_controller.Compare.{same_flag}
use ack_dms_controller.Integer.{pos}
use ack_dms_controller.ReplicationInstance.Api.{InstanceApi, InstanceEnv, SdkInstance}
use ack_dms_controller.ReplicationInstance.Delta.{InstanceComparisons}
use ack_dms_controller.ReplicationInstance.Types.{ReplicationInstance}
use ack_dms_controller.ReplicationInstance.Versions.{NilLaws}
use ack_dms_controller.Runtime.{reply}
use ack_dms_controller.Tags.{AckTags}
use ack_dms_controller.Tests.SampleApi.{tag_store}
use ack_dms_controller.Tests.Samples.{sample_errors, sample_names, sample_status}
use ack_dms_controller.Tests.TaskSamples.{path_ops}

abbrev pub listed_instance : SdkInstance
listed_instance = record {
  allocated_storage = pos 50;
  auto_minor_version_upgrade = true;
  availability_zone = none;
  dns_name_servers = none;
  engine_version = some "3.5.2";
  free_until = none;
  instance_create_time = none;
  kerberos_authentication_settings = none;
  kms_key_id = none;
  multi_az = false;
  network_type = none;
  pending_modified_values = none;
  preferred_maintenance_window = none;
  publicly_accessible = false;
  replication_instance_arn = some "arn:instance";
  replication_instance_class = some "dms.t3.medium";
  replication_instance_identifier = some "instance";
  replication_instance_ipv6_addresses = none;
  replication_instance_private_ip_address = none;
  replication_instance_private_ip_addresses = none;
  replication_instance_public_ip_address = none;
  replication_instance_public_ip_addresses = none;
  replication_instance_status = some "available";
  secondary_availability_zone = none;
}

abbrev pub instance_api : InstanceApi AckTags String
instance_api = record {
  tag_api = tag_store;
  describe_replication_instances = λ fs w. (reply (listed_instance ∷ []), w);
  create_replication_instance = λ input w. (reply listed_instance, w);
  modify_replication_instance = λ input w. (reply listed_instance, w);
  delete_replication_instance = λ arn w. (reply tt, w);
}

abbrev pub sample_instance_env : InstanceEnv AckTags String (List String)
sample_instance_env = record {
  api = instance_api;
  errors = sample_errors;
  names = sample_names;
  delta_ops = path_ops;
  set_synced = λ status message reason s. s;
}

abbrev pub instance_comparisons : InstanceComparisons
instance_comparisons = record {
  nil_difference_text = λ a b. same_flag (is_some a) (is_none b);
  nil_difference_int = λ a b. same_flag (is_some a) (is_none b);
  nil_difference_bool = λ a b. same_flag (is_some a) (is_none b);
  nil_difference_kerberos = λ a b. same_flag (is_some a) (is_none b);
  deep_equal = λ a b. true;
  deep_equal_refs = λ a b. true;
  slice_equal = λ a b. true;
  tags_equal = λ a b. true;
}

pub instance_comparisons-NilLaws : NilLaws instance_comparisons
instance_comparisons-NilLaws = record { both_set = λ x y. refl }

-- An instance of a class and a version, with a status.
abbrev pub instance_at : String → String → ReplicationInstance
instance_at version s = record {
  namespace = "default";
  deletion_timestamp = none;
  spec = record {
    allocated_storage = some (pos 50);
    auto_minor_version_upgrade = none;
    availability_zone = none;
    dns_name_servers = none;
    engine_version = some version;
    instance_class = some "dms.t3.medium";
    kerberos_authentication_settings = none;
    kms_key_id = none;
    kms_key_ref = none;
    multi_az = none;
    name = some "instance";
    network_type = none;
    preferred_maintenance_window = none;
    publicly_accessible = none;
    resource_identifier = none;
    security_group_ids = none;
    security_group_refs = none;
    subnet_group_id = none;
    subnet_group_ref = none;
    tags = none;
  };
  status = record {
    ack = sample_status;
    free_until = none;
    ipv6_addresses = none;
    instance_create_time = none;
    instance_status = some s;
    pending_modified_values = none;
    private_ip_address = none;
    private_ip_addresses = none;
    public_ip_address = none;
    public_ip_addresses = none;
    secondary_availability_zone = none;
  };
}
