-- ===== src/Endpoint/Fields/OracleToSybase.antt =====
-- Fields with references, in the order of references.go: OracleSettings.SecretsManagerAccessRoleARN to
-- SybaseSettings.SecretsManagerSecretID.
use ack_dms_controller.Base.{List, [], false, ◌∷◌}
use ack_dms_controller.Endpoint.Settings.MongoToRedis.{
  OracleSettings, PostgreSqlSettings, RedisSettings,
}
use ack_dms_controller.Endpoint.Settings.RedshiftToTimestream.{
  RedshiftSettings, S3Settings, SybaseSettings,
}
use ack_dms_controller.Endpoint.Slots.{bucket_target, certificate_target}
use ack_dms_controller.Endpoint.Types.{Endpoint}
use ack_dms_controller.References.{ReferenceField}
use ack_dms_controller.References.Shapes.{scalar}
use ack_dms_controller.ReplicationInstance.References.{key_target, role_target, secret_target}

abbrev pub oracle_secrets_manager_access_role_arn_field : ReferenceField OracleSettings
oracle_secrets_manager_access_role_arn_field =
    scalar "OracleSettings.SecretsManagerAccessRoleARN" "OracleSettings.SecretsManagerAccessRoleRef"
      false role_target (λ s. s.secrets_manager_access_role_ref)
      (λ s. s.secrets_manager_access_role_arn)
      (λ o s. record s { secrets_manager_access_role_arn = o })

abbrev pub oracle_secrets_manager_secret_id_field : ReferenceField OracleSettings
oracle_secrets_manager_secret_id_field =
    scalar "OracleSettings.SecretsManagerSecretID" "OracleSettings.SecretsManagerSecretRef" false
      secret_target (λ s. s.secrets_manager_secret_ref) (λ s. s.secrets_manager_secret_id)
      (λ o s. record s { secrets_manager_secret_id = o })

abbrev pub oracle_settings_fields : List (ReferenceField OracleSettings)
oracle_settings_fields =
    oracle_secrets_manager_access_role_arn_field ∷ oracle_secrets_manager_secret_id_field ∷ []

abbrev pub postgre_sql_secrets_manager_access_role_arn_field : ReferenceField PostgreSqlSettings
postgre_sql_secrets_manager_access_role_arn_field =
    scalar "PostgreSQLSettings.SecretsManagerAccessRoleARN"
      "PostgreSQLSettings.SecretsManagerAccessRoleRef" false role_target
      (λ s. s.secrets_manager_access_role_ref) (λ s. s.secrets_manager_access_role_arn)
      (λ o s. record s { secrets_manager_access_role_arn = o })

abbrev pub postgre_sql_secrets_manager_secret_id_field : ReferenceField PostgreSqlSettings
postgre_sql_secrets_manager_secret_id_field =
    scalar "PostgreSQLSettings.SecretsManagerSecretID" "PostgreSQLSettings.SecretsManagerSecretRef"
      false secret_target (λ s. s.secrets_manager_secret_ref) (λ s. s.secrets_manager_secret_id)
      (λ o s. record s { secrets_manager_secret_id = o })

abbrev pub postgre_sql_service_access_role_arn_field : ReferenceField PostgreSqlSettings
postgre_sql_service_access_role_arn_field =
    scalar "PostgreSQLSettings.ServiceAccessRoleARN" "PostgreSQLSettings.ServiceAccessRoleRef" false
      role_target (λ s. s.service_access_role_ref) (λ s. s.service_access_role_arn)
      (λ o s. record s { service_access_role_arn = o })

abbrev pub postgre_sql_settings_fields : List (ReferenceField PostgreSqlSettings)
postgre_sql_settings_fields =
    postgre_sql_secrets_manager_access_role_arn_field ∷ postgre_sql_secrets_manager_secret_id_field
    ∷ postgre_sql_service_access_role_arn_field ∷ []

abbrev pub redis_ssl_ca_certificate_arn_field : ReferenceField RedisSettings
redis_ssl_ca_certificate_arn_field =
    scalar "RedisSettings.SSLCaCertificateARN" "RedisSettings.SSLCaCertificateRef" false
      certificate_target (λ s. s.ssl_ca_certificate_ref) (λ s. s.ssl_ca_certificate_arn)
      (λ o s. record s { ssl_ca_certificate_arn = o })

abbrev pub redis_settings_fields : List (ReferenceField RedisSettings)
redis_settings_fields = redis_ssl_ca_certificate_arn_field ∷ []

abbrev pub redshift_bucket_name_field : ReferenceField RedshiftSettings
redshift_bucket_name_field =
    scalar "RedshiftSettings.BucketName" "RedshiftSettings.BucketRef" false bucket_target
      (λ s. s.bucket_ref) (λ s. s.bucket_name) (λ o s. record s { bucket_name = o })

abbrev pub redshift_secrets_manager_access_role_arn_field : ReferenceField RedshiftSettings
redshift_secrets_manager_access_role_arn_field =
    scalar "RedshiftSettings.SecretsManagerAccessRoleARN"
      "RedshiftSettings.SecretsManagerAccessRoleRef" false role_target
      (λ s. s.secrets_manager_access_role_ref) (λ s. s.secrets_manager_access_role_arn)
      (λ o s. record s { secrets_manager_access_role_arn = o })

abbrev pub redshift_secrets_manager_secret_id_field : ReferenceField RedshiftSettings
redshift_secrets_manager_secret_id_field =
    scalar "RedshiftSettings.SecretsManagerSecretID" "RedshiftSettings.SecretsManagerSecretRef"
      false secret_target (λ s. s.secrets_manager_secret_ref) (λ s. s.secrets_manager_secret_id)
      (λ o s. record s { secrets_manager_secret_id = o })

abbrev pub redshift_server_side_encryption_kms_key_id_field : ReferenceField RedshiftSettings
redshift_server_side_encryption_kms_key_id_field =
    scalar "RedshiftSettings.ServerSideEncryptionKMSKeyID"
      "RedshiftSettings.ServerSideEncryptionKMSKeyRef" false key_target
      (λ s. s.server_side_encryption_kms_key_ref) (λ s. s.server_side_encryption_kms_key_id)
      (λ o s. record s { server_side_encryption_kms_key_id = o })

abbrev pub redshift_service_access_role_arn_field : ReferenceField RedshiftSettings
redshift_service_access_role_arn_field =
    scalar "RedshiftSettings.ServiceAccessRoleARN" "RedshiftSettings.ServiceAccessRoleRef" false
      role_target (λ s. s.service_access_role_ref) (λ s. s.service_access_role_arn)
      (λ o s. record s { service_access_role_arn = o })

abbrev pub redshift_settings_fields : List (ReferenceField RedshiftSettings)
redshift_settings_fields =
    redshift_bucket_name_field ∷ redshift_secrets_manager_access_role_arn_field
    ∷ redshift_secrets_manager_secret_id_field ∷ redshift_server_side_encryption_kms_key_id_field
    ∷ redshift_service_access_role_arn_field ∷ []

abbrev pub s3_bucket_name_field : ReferenceField S3Settings
s3_bucket_name_field =
    scalar "S3Settings.BucketName" "S3Settings.BucketRef" false bucket_target (λ s. s.bucket_ref)
      (λ s. s.bucket_name) (λ o s. record s { bucket_name = o })

abbrev pub s3_server_side_encryption_kms_key_id_field : ReferenceField S3Settings
s3_server_side_encryption_kms_key_id_field =
    scalar "S3Settings.ServerSideEncryptionKMSKeyID" "S3Settings.ServerSideEncryptionKMSKeyRef"
      false key_target (λ s. s.server_side_encryption_kms_key_ref)
      (λ s. s.server_side_encryption_kms_key_id)
      (λ o s. record s { server_side_encryption_kms_key_id = o })

abbrev pub s3_service_access_role_arn_field : ReferenceField S3Settings
s3_service_access_role_arn_field =
    scalar "S3Settings.ServiceAccessRoleARN" "S3Settings.ServiceAccessRoleRef" false role_target
      (λ s. s.service_access_role_ref) (λ s. s.service_access_role_arn)
      (λ o s. record s { service_access_role_arn = o })

abbrev pub s3_settings_fields : List (ReferenceField S3Settings)
s3_settings_fields =
    s3_bucket_name_field ∷ s3_server_side_encryption_kms_key_id_field
    ∷ s3_service_access_role_arn_field ∷ []

abbrev pub service_access_role_arn_field : ReferenceField Endpoint
service_access_role_arn_field =
    scalar "ServiceAccessRoleARN" "ServiceAccessRoleRef" false role_target
      (λ ko. ko.spec.service_access_role_ref) (λ ko. ko.spec.service_access_role_arn)
      (λ o ko. record ko { spec = record (ko.spec) { service_access_role_arn = o } })

abbrev pub sybase_secrets_manager_access_role_arn_field : ReferenceField SybaseSettings
sybase_secrets_manager_access_role_arn_field =
    scalar "SybaseSettings.SecretsManagerAccessRoleARN" "SybaseSettings.SecretsManagerAccessRoleRef"
      false role_target (λ s. s.secrets_manager_access_role_ref)
      (λ s. s.secrets_manager_access_role_arn)
      (λ o s. record s { secrets_manager_access_role_arn = o })

abbrev pub sybase_secrets_manager_secret_id_field : ReferenceField SybaseSettings
sybase_secrets_manager_secret_id_field =
    scalar "SybaseSettings.SecretsManagerSecretID" "SybaseSettings.SecretsManagerSecretRef" false
      secret_target (λ s. s.secrets_manager_secret_ref) (λ s. s.secrets_manager_secret_id)
      (λ o s. record s { secrets_manager_secret_id = o })

abbrev pub sybase_settings_fields : List (ReferenceField SybaseSettings)
sybase_settings_fields =
    sybase_secrets_manager_access_role_arn_field ∷ sybase_secrets_manager_secret_id_field ∷ []
