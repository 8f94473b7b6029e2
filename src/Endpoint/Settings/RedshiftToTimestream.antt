-- ===== src/Endpoint/Settings/RedshiftToTimestream.antt =====
-- Settings of engines in types.go: RedshiftSettings to
-- TimestreamSettings.
use ack_dms_controller.Base.{Bool, Option, String}
use ack_dms_controller.Integer.{ℤ}
use ack_dms_controller.Resource.{ReferenceWrapper, SecretKeyReference}

pub record RedshiftSettings : Type 0 where
  pub accept_any_date : Option Bool
  pub after_connect_script : Option String
  pub bucket_folder : Option String
  pub bucket_name : Option String
  pub bucket_ref : Option ReferenceWrapper
  pub case_sensitive_names : Option Bool
  pub comp_update : Option Bool
  pub connection_timeout : Option ℤ
  pub database_name : Option String
  pub date_format : Option String
  pub empty_as_null : Option Bool
  pub encryption_mode : Option String
  pub explicit_ids : Option Bool
  pub file_transfer_upload_streams : Option ℤ
  pub load_timeout : Option ℤ
  pub map_boolean_as_boolean : Option Bool
  pub max_file_size : Option ℤ
  pub password : Option SecretKeyReference
  pub port : Option ℤ
  pub remove_quotes : Option Bool
  pub replace_chars : Option String
  pub replace_invalid_chars : Option String
  pub secrets_manager_access_role_arn : Option String
  pub secrets_manager_access_role_ref : Option ReferenceWrapper
  pub secrets_manager_secret_id : Option String
  pub secrets_manager_secret_ref : Option ReferenceWrapper
  pub server_name : Option String
  pub server_side_encryption_kms_key_id : Option String
  pub server_side_encryption_kms_key_ref : Option ReferenceWrapper
  pub service_access_role_arn : Option String
  pub service_access_role_ref : Option ReferenceWrapper
  pub time_format : Option String
  pub trim_blanks : Option Bool
  pub truncate_columns : Option Bool
  pub username : Option String
  pub write_buffer_size : Option ℤ

pub record S3Settings : Type 0 where
  pub add_column_name : Option Bool
  pub add_trailing_padding_character : Option Bool
  pub bucket_folder : Option String
  pub bucket_name : Option String
  pub bucket_ref : Option ReferenceWrapper
  pub canned_acl_for_objects : Option String
  pub cdc_inserts_and_updates : Option Bool
  pub cdc_inserts_only : Option Bool
  pub cdc_max_batch_interval : Option ℤ
  pub cdc_min_file_size : Option ℤ
  pub cdc_path : Option String
  pub compression_type : Option String
  pub csv_delimiter : Option String
  pub csv_no_sup_value : Option String
  pub csv_null_value : Option String
  pub csv_row_delimiter : Option String
  pub data_format : Option String
  pub data_page_size : Option ℤ
  pub date_partition_delimiter : Option String
  pub date_partition_enabled : Option Bool
  pub date_partition_sequence : Option String
  pub date_partition_timezone : Option String
  pub dict_page_size_limit : Option ℤ
  pub enable_statistics : Option Bool
  pub encoding_type : Option String
  pub encryption_mode : Option String
  pub expected_bucket_owner : Option String
  pub external_table_definition : Option String
  pub glue_catalog_generation : Option Bool
  pub ignore_header_rows : Option ℤ
  pub include_op_for_full_load : Option Bool
  pub max_file_size : Option ℤ
  pub parquet_timestamp_in_millisecond : Option Bool
  pub parquet_version : Option String
  pub preserve_transactions : Option Bool
  pub rfc4180 : Option Bool
  pub row_group_length : Option ℤ
  pub server_side_encryption_kms_key_id : Option String
  pub server_side_encryption_kms_key_ref : Option ReferenceWrapper
  pub service_access_role_arn : Option String
  pub service_access_role_ref : Option ReferenceWrapper
  pub timestamp_column_name : Option String
  pub use_csv_no_sup_value : Option Bool
  pub use_task_start_time_for_full_load_timestamp : Option Bool

pub record SybaseSettings : Type 0 where
  pub database_name : Option String
  pub password : Option SecretKeyReference
  pub port : Option ℤ
  pub secrets_manager_access_role_arn : Option String
  pub secrets_manager_access_role_ref : Option ReferenceWrapper
  pub secrets_manager_secret_id : Option String
  pub secrets_manager_secret_ref : Option ReferenceWrapper
  pub server_name : Option String
  pub username : Option String

pub record TimestreamSettings : Type 0 where
  pub cdc_inserts_and_updates : Option Bool
  pub database_name : Option String
  pub enable_magnetic_store_writes : Option Bool
  pub magnetic_duration : Option ℤ
  pub memory_duration : Option ℤ
