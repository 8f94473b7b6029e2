-- ===== src/Endpoint/Settings/MongoToRedis.antt =====
-- Settings of engines in types.go: MongoDBSettings to
-- RedisSettings.
use ack_dms_controller.Base.{Bool, List, Option, String}
use ack_dms_controller.Integer.{ℤ}
use ack_dms_controller.Resource.{ReferenceWrapper, SecretKeyReference}

pub record MongoDbSettings : Type 0 where
  pub auth_mechanism : Option String
  pub auth_source : Option String
  pub auth_type : Option String
  pub database_name : Option String
  pub docs_to_investigate : Option String
  pub extract_doc_id : Option String
  pub kms_key_id : Option String
  pub kms_key_ref : Option ReferenceWrapper
  pub nesting_level : Option String
  pub password : Option SecretKeyReference
  pub port : Option ℤ
  pub replicate_shard_collections : Option Bool
  pub secrets_manager_access_role_arn : Option String
  pub secrets_manager_access_role_ref : Option ReferenceWrapper
  pub secrets_manager_secret_id : Option String
  pub secrets_manager_secret_ref : Option ReferenceWrapper
  pub server_name : Option String
  pub use_update_look_up : Option Bool
  pub username : Option String

pub record MySqlSettings : Type 0 where
  pub after_connect_script : Option String
  pub authentication_method : Option String
  pub clean_source_metadata_on_mismatch : Option Bool
  pub database_name : Option String
  pub events_poll_interval : Option ℤ
  pub execute_timeout : Option ℤ
  pub max_file_size : Option ℤ
  pub parallel_load_threads : Option ℤ
  pub password : Option SecretKeyReference
  pub port : Option ℤ
  pub secrets_manager_access_role_arn : Option String
  pub secrets_manager_access_role_ref : Option ReferenceWrapper
  pub secrets_manager_secret_id : Option String
  pub secrets_manager_secret_ref : Option ReferenceWrapper
  pub server_name : Option String
  pub server_timezone : Option String
  pub service_access_role_arn : Option String
  pub service_access_role_ref : Option ReferenceWrapper
  pub target_db_type : Option String
  pub username : Option String

pub record NeptuneSettings : Type 0 where
  pub error_retry_duration : Option ℤ
  pub iam_auth_enabled : Option Bool
  pub max_file_size : Option ℤ
  pub max_retry_count : Option ℤ
  pub s3_bucket_folder : Option String
  pub s3_bucket_name : Option String
  pub s3_bucket_ref : Option ReferenceWrapper
  pub service_access_role_arn : Option String
  pub service_access_role_ref : Option ReferenceWrapper

pub record OracleSettings : Type 0 where
  pub access_alternate_directly : Option Bool
  pub add_supplemental_logging : Option Bool
  pub additional_archived_log_dest_id : Option ℤ
  pub allow_select_nested_tables : Option Bool
  pub archived_log_dest_id : Option ℤ
  pub archived_logs_only : Option Bool
  pub asm_password : Option SecretKeyReference
  pub asm_server : Option String
  pub asm_user : Option String
  pub authentication_method : Option String
  pub char_length_semantics : Option String
  pub convert_timestamp_with_zone_to_utc : Option Bool
  pub database_name : Option String
  pub direct_path_no_log : Option Bool
  pub direct_path_parallel_load : Option Bool
  pub enable_homogenous_tablespace : Option Bool
  pub extra_archived_log_dest_ids : Option (List ℤ)
  pub fail_tasks_on_lob_truncation : Option Bool
  pub number_datatype_scale : Option ℤ
  pub open_transaction_window : Option ℤ
  pub oracle_path_prefix : Option String
  pub parallel_asm_read_threads : Option ℤ
  pub password : Option SecretKeyReference
  pub port : Option ℤ
  pub read_ahead_blocks : Option ℤ
  pub read_table_space_name : Option Bool
  pub replace_path_prefix : Option Bool
  pub retry_interval : Option ℤ
  pub secrets_manager_access_role_arn : Option String
  pub secrets_manager_access_role_ref : Option ReferenceWrapper
  pub secrets_manager_oracle_asm_access_role_arn : Option String
  pub secrets_manager_oracle_asm_secret_id : Option String
  pub secrets_manager_secret_id : Option String
  pub secrets_manager_secret_ref : Option ReferenceWrapper
  pub security_db_encryption : Option String
  pub security_db_encryption_name : Option String
  pub server_name : Option String
  pub spatial_data_option_to_geo_json_function_name : Option String
  pub standby_delay_time : Option ℤ
  pub trim_space_in_char : Option Bool
  pub use_alternate_folder_for_online : Option Bool
  pub use_b_file : Option Bool
  pub use_direct_path_full_load : Option Bool
  pub use_logminer_reader : Option Bool
  pub use_path_prefix : Option String
  pub username : Option String

pub record PostgreSqlSettings : Type 0 where
  pub after_connect_script : Option String
  pub authentication_method : Option String
  pub babelfish_database_name : Option String
  pub capture_ddls : Option Bool
  pub database_mode : Option String
  pub database_name : Option String
  pub ddl_artifacts_schema : Option String
  pub disable_unicode_source_filter : Option Bool
  pub execute_timeout : Option ℤ
  pub fail_tasks_on_lob_truncation : Option Bool
  pub heartbeat_enable : Option Bool
  pub heartbeat_frequency : Option ℤ
  pub heartbeat_schema : Option String
  pub map_boolean_as_boolean : Option Bool
  pub map_jso_nb_as_clob : Option Bool
  pub map_long_varchar_as : Option String
  pub max_file_size : Option ℤ
  pub password : Option SecretKeyReference
  pub plugin_name : Option String
  pub port : Option ℤ
  pub secrets_manager_access_role_arn : Option String
  pub secrets_manager_access_role_ref : Option ReferenceWrapper
  pub secrets_manager_secret_id : Option String
  pub secrets_manager_secret_ref : Option ReferenceWrapper
  pub server_name : Option String
  pub service_access_role_arn : Option String
  pub service_access_role_ref : Option ReferenceWrapper
  pub slot_name : Option String
  pub trim_space_in_char : Option Bool
  pub username : Option String

pub record RedisSettings : Type 0 where
  pub auth_password : Option SecretKeyReference
  pub auth_type : Option String
  pub auth_user_name : Option String
  pub port : Option ℤ
  pub server_name : Option String
  pub ssl_ca_certificate_arn : Option String
  pub ssl_ca_certificate_ref : Option ReferenceWrapper
  pub ssl_security_protocol : Option String
