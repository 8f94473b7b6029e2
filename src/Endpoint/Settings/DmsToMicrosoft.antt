-- ===== src/Endpoint/Settings/DmsToMicrosoft.antt =====
-- Settings of engines in types.go: DmsTransferSettings to
-- MicrosoftSQLServerSettings.
use ack_dms_controller.Base.{Bool, Option, String}
use ack_dms_controller.Integer.{ℤ}
use ack_dms_controller.Resource.{ReferenceWrapper, SecretKeyReference}

pub record DmsTransferSettings : Type 0 where
  pub bucket_name : Option String
  pub service_access_role_arn : Option String
  pub service_access_role_ref : Option ReferenceWrapper

pub record DocDbSettings : Type 0 where
  pub database_name : Option String
  pub docs_to_investigate : Option ℤ
  pub extract_doc_id : Option Bool
  pub kms_key_id : Option String
  pub kms_key_ref : Option ReferenceWrapper
  pub nesting_level : Option String
  pub password : Option SecretKeyReference
  pub port : Option ℤ
  pub replicate_shard_collections : Option Bool
  pub secrets_manager_access_role_arn : Option String
  pub secrets_manager_access_role_ref : Option ReferenceWrapper
  pub secrets_manager_secret_id : Option String
  pub secrets_manager_secret_ref : Option ReferenceWrapper
  pub server_name : Option String
  pub use_update_look_up : Option Bool
  pub username : Option String

pub record DynamoDbSettings : Type 0 where
  pub service_access_role_arn : Option String
  pub service_access_role_ref : Option ReferenceWrapper

pub record ElasticsearchSettings : Type 0 where
  pub endpoint_uri : Option String
  pub error_retry_duration : Option ℤ
  pub full_load_error_percentage : Option ℤ
  pub service_access_role_arn : Option String
  pub service_access_role_ref : Option ReferenceWrapper
  pub use_new_mapping_type : Option Bool

pub record GcpMySqlSettings : Type 0 where
  pub after_connect_script : Option String
  pub clean_source_metadata_on_mismatch : Option Bool
  pub database_name : Option String
  pub events_poll_interval : Option ℤ
  pub max_file_size : Option ℤ
  pub parallel_load_threads : Option ℤ
  pub password : Option SecretKeyReference
  pub port : Option ℤ
  pub secrets_manager_access_role_arn : Option String
  pub secrets_manager_access_role_ref : Option ReferenceWrapper
  pub secrets_manager_secret_id : Option String
  pub secrets_manager_secret_ref : Option ReferenceWrapper
  pub server_name : Option String
  pub server_timezone : Option String
  pub target_db_type : Option String
  pub username : Option String

pub record Ibmdb2Settings : Type 0 where
  pub current_lsn : Option String
  pub database_name : Option String
  pub keep_csv_files : Option Bool
  pub load_timeout : Option ℤ
  pub max_file_size : Option ℤ
  pub max_k_bytes_per_read : Option ℤ
  pub password : Option SecretKeyReference
  pub port : Option ℤ
  pub secrets_manager_access_role_arn : Option String
  pub secrets_manager_access_role_ref : Option ReferenceWrapper
  pub secrets_manager_secret_id : Option String
  pub secrets_manager_secret_ref : Option ReferenceWrapper
  pub server_name : Option String
  pub set_data_capture_changes : Option Bool
  pub username : Option String
  pub write_buffer_size : Option ℤ

pub record KafkaSettings : Type 0 where
  pub broker : Option String
  pub include_control_details : Option Bool
  pub include_null_and_empty : Option Bool
  pub include_partition_value : Option Bool
  pub include_table_alter_operations : Option Bool
  pub include_transaction_details : Option Bool
  pub message_format : Option String
  pub message_max_bytes : Option ℤ
  pub no_hex_prefix : Option Bool
  pub partition_include_schema_table : Option Bool
  pub sasl_mechanism : Option String
  pub sasl_password : Option SecretKeyReference
  pub sasl_username : Option String
  pub security_protocol : Option String
  pub ssl_ca_certificate_arn : Option String
  pub ssl_ca_certificate_ref : Option ReferenceWrapper
  pub ssl_client_certificate_arn : Option String
  pub ssl_client_certificate_ref : Option ReferenceWrapper
  pub ssl_client_key_arn : Option String
  pub ssl_client_key_password : Option SecretKeyReference
  pub ssl_client_key_ref : Option ReferenceWrapper
  pub ssl_endpoint_i_dentification_algorithm : Option String
  pub topic : Option String
  pub use_large_integer_value : Option Bool

pub record KinesisSettings : Type 0 where
  pub include_control_details : Option Bool
  pub include_null_and_empty : Option Bool
  pub include_partition_value : Option Bool
  pub include_table_alter_operations : Option Bool
  pub include_transaction_details : Option Bool
  pub message_format : Option String
  pub no_hex_prefix : Option Bool
  pub partition_include_schema_table : Option Bool
  pub service_access_role_arn : Option String
  pub service_access_role_ref : Option ReferenceWrapper
  pub stream_arn : Option String
  pub stream_ref : Option ReferenceWrapper
  pub use_large_integer_value : Option Bool

pub record LakehouseSettings : Type 0 where
  pub arn : Option String

pub record MicrosoftSqlServerSettings : Type 0 where
  pub authentication_method : Option String
  pub bcp_packet_size : Option ℤ
  pub control_tables_file_group : Option String
  pub database_name : Option String
  pub force_lob_lookup : Option Bool
  pub password : Option SecretKeyReference
  pub port : Option ℤ
  pub query_single_always_on_node : Option Bool
  pub read_backup_only : Option Bool
  pub safeguard_policy : Option String
  pub secrets_manager_access_role_arn : Option String
  pub secrets_manager_access_role_ref : Option ReferenceWrapper
  pub secrets_manager_secret_id : Option String
  pub secrets_manager_secret_ref : Option ReferenceWrapper
  pub server_name : Option String
  pub tlog_access_mode : Option String
  pub trim_space_in_char : Option Bool
  pub use_bcp_full_load : Option Bool
  pub use_third_party_backup_device : Option Bool
  pub username : Option String
