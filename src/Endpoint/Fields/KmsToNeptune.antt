-- ===== src/Endpoint/Fields/KmsToNeptune.antt =====
-- Fields with references, in the order of references.go: KMSKeyID to
-- NeptuneSettings.ServiceAccessRoleARN.
use ack_dms_controller.Base.{List, [], false, ◌∷◌}
use ack_dms_controller.Endpoint.Settings.DmsToMicrosoft.{
  KafkaSettings, KinesisSettings, MicrosoftSqlServerSettings,
}
use ack_dms_controller.Endpoint.Settings.MongoToRedis.{
  MongoDbSettings, MySqlSettings, NeptuneSettings,
}
use ack_dms_controller.Endpoint.Slots.{bucket_target, certificate_target, stream_target}
use ack_dms_controller.Endpoint.Types.{Endpoint}
use ack_dms_controller.References.{ReferenceField}
use ack_dms_controller.References.Shapes.{scalar}
use ack_dms_controller.ReplicationInstance.References.{key_target, role_target, secret_target}

abbrev pub endpoint_kms_key_id_field : ReferenceField Endpoint
endpoint_kms_key_id_field =
    scalar "KMSKeyID" "KMSKeyRef" false key_target (λ ko. ko.spec.kms_key_ref)
      (λ ko. ko.spec.kms_key_id) (λ o ko. record ko { spec = record (ko.spec) { kms_key_id = o } })

abbrev pub kafka_ssl_ca_certificate_arn_field : ReferenceField KafkaSettings
kafka_ssl_ca_certificate_arn_field =
    scalar "KafkaSettings.SSLCaCertificateARN" "KafkaSettings.SSLCaCertificateRef" false
      certificate_target (λ s. s.ssl_ca_certificate_ref) (λ s. s.ssl_ca_certificate_arn)
      (λ o s. record s { ssl_ca_certificate_arn = o })

abbrev pub kafka_ssl_client_certificate_arn_field : ReferenceField KafkaSettings
kafka_ssl_client_certificate_arn_field =
    scalar "KafkaSettings.SSLClientCertificateARN" "KafkaSettings.SSLClientCertificateRef" false
      certificate_target (λ s. s.ssl_client_certificate_ref) (λ s. s.ssl_client_certificate_arn)
      (λ o s. record s { ssl_client_certificate_arn = o })

abbrev pub kafka_ssl_client_key_arn_field : ReferenceField KafkaSettings
kafka_ssl_client_key_arn_field =
    scalar "KafkaSettings.SSLClientKeyARN" "KafkaSettings.SSLClientKeyRef" false certificate_target
      (λ s. s.ssl_client_key_ref) (λ s. s.ssl_client_key_arn)
      (λ o s. record s { ssl_client_key_arn = o })

abbrev pub kafka_settings_fields : List (ReferenceField KafkaSettings)
kafka_settings_fields =
    kafka_ssl_ca_certificate_arn_field ∷ kafka_ssl_client_certificate_arn_field
    ∷ kafka_ssl_client_key_arn_field ∷ []

abbrev pub kinesis_service_access_role_arn_field : ReferenceField KinesisSettings
kinesis_service_access_role_arn_field =
    scalar "KinesisSettings.ServiceAccessRoleARN" "KinesisSettings.ServiceAccessRoleRef" false
      role_target (λ s. s.service_access_role_ref) (λ s. s.service_access_role_arn)
      (λ o s. record s { service_access_role_arn = o })

abbrev pub kinesis_stream_arn_field : ReferenceField KinesisSettings
kinesis_stream_arn_field =
    scalar "KinesisSettings.StreamARN" "KinesisSettings.StreamRef" false stream_target
      (λ s. s.stream_ref) (λ s. s.stream_arn) (λ o s. record s { stream_arn = o })

abbrev pub kinesis_settings_fields : List (ReferenceField KinesisSettings)
kinesis_settings_fields = kinesis_service_access_role_arn_field ∷ kinesis_stream_arn_field ∷ []

abbrev pub microsoft_sql_server_secrets_manager_access_role_arn_field :
    ReferenceField MicrosoftSqlServerSettings
microsoft_sql_server_secrets_manager_access_role_arn_field =
    scalar "MicrosoftSQLServerSettings.SecretsManagerAccessRoleARN"
      "MicrosoftSQLServerSettings.SecretsManagerAccessRoleRef" false role_target
      (λ s. s.secrets_manager_access_role_ref) (λ s. s.secrets_manager_access_role_arn)
      (λ o s. record s { secrets_manager_access_role_arn = o })

abbrev pub microsoft_sql_server_secrets_manager_secret_id_field :
    ReferenceField MicrosoftSqlServerSettings
microsoft_sql_server_secrets_manager_secret_id_field =
    scalar "MicrosoftSQLServerSettings.SecretsManagerSecretID"
      "MicrosoftSQLServerSettings.SecretsManagerSecretRef" false secret_target
      (λ s. s.secrets_manager_secret_ref) (λ s. s.secrets_manager_secret_id)
      (λ o s. record s { secrets_manager_secret_id = o })

abbrev pub microsoft_sql_server_settings_fields : List (ReferenceField MicrosoftSqlServerSettings)
microsoft_sql_server_settings_fields =
    microsoft_sql_server_secrets_manager_access_role_arn_field
    ∷ microsoft_sql_server_secrets_manager_secret_id_field ∷ []

abbrev pub mongo_db_kms_key_id_field : ReferenceField MongoDbSettings
mongo_db_kms_key_id_field =
    scalar "MongoDBSettings.KMSKeyID" "MongoDBSettings.KMSKeyRef" false key_target
      (λ s. s.kms_key_ref) (λ s. s.kms_key_id) (λ o s. record s { kms_key_id = o })

abbrev pub mongo_db_secrets_manager_access_role_arn_field : ReferenceField MongoDbSettings
mongo_db_secrets_manager_access_role_arn_field =
    scalar "MongoDBSettings.SecretsManagerAccessRoleARN"
      "MongoDBSettings.SecretsManagerAccessRoleRef" false role_target
      (λ s. s.secrets_manager_access_role_ref) (λ s. s.secrets_manager_access_role_arn)
      (λ o s. record s { secrets_manager_access_role_arn = o })

abbrev pub mongo_db_secrets_manager_secret_id_field : ReferenceField MongoDbSettings
mongo_db_secrets_manager_secret_id_field =
    scalar "MongoDBSettings.SecretsManagerSecretID" "MongoDBSettings.SecretsManagerSecretRef" false
      secret_target (λ s. s.secrets_manager_secret_ref) (λ s. s.secrets_manager_secret_id)
      (λ o s. record s { secrets_manager_secret_id = o })

abbrev pub mongo_db_settings_fields : List (ReferenceField MongoDbSettings)
mongo_db_settings_fields =
    mongo_db_kms_key_id_field ∷ mongo_db_secrets_manager_access_role_arn_field
    ∷ mongo_db_secrets_manager_secret_id_field ∷ []

abbrev pub my_sql_secrets_manager_access_role_arn_field : ReferenceField MySqlSettings
my_sql_secrets_manager_access_role_arn_field =
    scalar "MySQLSettings.SecretsManagerAccessRoleARN" "MySQLSettings.SecretsManagerAccessRoleRef"
      false role_target (λ s. s.secrets_manager_access_role_ref)
      (λ s. s.secrets_manager_access_role_arn)
      (λ o s. record s { secrets_manager_access_role_arn = o })

abbrev pub my_sql_secrets_manager_secret_id_field : ReferenceField MySqlSettings
my_sql_secrets_manager_secret_id_field =
    scalar "MySQLSettings.SecretsManagerSecretID" "MySQLSettings.SecretsManagerSecretRef" false
      secret_target (λ s. s.secrets_manager_secret_ref) (λ s. s.secrets_manager_secret_id)
      (λ o s. record s { secrets_manager_secret_id = o })

abbrev pub my_sql_service_access_role_arn_field : ReferenceField MySqlSettings
my_sql_service_access_role_arn_field =
    scalar "MySQLSettings.ServiceAccessRoleARN" "MySQLSettings.ServiceAccessRoleRef" false
      role_target (λ s. s.service_access_role_ref) (λ s. s.service_access_role_arn)
      (λ o s. record s { service_access_role_arn = o })

abbrev pub my_sql_settings_fields : List (ReferenceField MySqlSettings)
my_sql_settings_fields =
    my_sql_secrets_manager_access_role_arn_field ∷ my_sql_secrets_manager_secret_id_field
    ∷ my_sql_service_access_role_arn_field ∷ []

abbrev pub neptune_s3_bucket_name_field : ReferenceField NeptuneSettings
neptune_s3_bucket_name_field =
    scalar "NeptuneSettings.S3BucketName" "NeptuneSettings.S3BucketRef" false bucket_target
      (λ s. s.s3_bucket_ref) (λ s. s.s3_bucket_name) (λ o s. record s { s3_bucket_name = o })

abbrev pub neptune_service_access_role_arn_field : ReferenceField NeptuneSettings
neptune_service_access_role_arn_field =
    scalar "NeptuneSettings.ServiceAccessRoleARN" "NeptuneSettings.ServiceAccessRoleRef" false
      role_target (λ s. s.service_access_role_ref) (λ s. s.service_access_role_arn)
      (λ o s. record s { service_access_role_arn = o })

abbrev pub neptune_settings_fields : List (ReferenceField NeptuneSettings)
neptune_settings_fields = neptune_s3_bucket_name_field ∷ neptune_service_access_role_arn_field ∷ []
