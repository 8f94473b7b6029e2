-- ===== src/Endpoint/Fields/CertificateToIbmdb2.antt =====
-- Fields with references, in the order of references.go: CertificateARN to
-- IBMDB2Settings.SecretsManagerSecretID.
use ack_dms_controller.Base.{List, [], false, ◌∷◌}
use ack_dms_controller.Endpoint.Settings.DmsToMicrosoft.{
  DmsTransferSettings, DocDbSettings, DynamoDbSettings, ElasticsearchSettings, GcpMySqlSettings,
  Ibmdb2Settings,
}
use ack_dms_controller.Endpoint.Slots.{certificate_target}
use ack_dms_controller.Endpoint.Types.{Endpoint}
use ack_dms_controller.References.{ReferenceField}
use ack_dms_controller.References.Shapes.{scalar}
use ack_dms_controller.ReplicationInstance.References.{key_target, role_target, secret_target}

abbrev pub certificate_arn_field : ReferenceField Endpoint
certificate_arn_field =
    scalar "CertificateARN" "CertificateRef" false certificate_target
      (λ ko. ko.spec.certificate_ref) (λ ko. ko.spec.certificate_arn)
      (λ o ko. record ko { spec = record (ko.spec) { certificate_arn = o } })

abbrev pub dms_transfer_service_access_role_arn_field : ReferenceField DmsTransferSettings
dms_transfer_service_access_role_arn_field =
    scalar "DmsTransferSettings.ServiceAccessRoleARN" "DmsTransferSettings.ServiceAccessRoleRef"
      false role_target (λ s. s.service_access_role_ref) (λ s. s.service_access_role_arn)
      (λ o s. record s { service_access_role_arn = o })

abbrev pub dms_transfer_settings_fields : List (ReferenceField DmsTransferSettings)
dms_transfer_settings_fields = dms_transfer_service_access_role_arn_field ∷ []

abbrev pub doc_db_kms_key_id_field : ReferenceField DocDbSettings
doc_db_kms_key_id_field =
    scalar "DocDBSettings.KMSKeyID" "DocDBSettings.KMSKeyRef" false key_target (λ s. s.kms_key_ref)
      (λ s. s.kms_key_id) (λ o s. record s { kms_key_id = o })

abbrev pub doc_db_secrets_manager_access_role_arn_field : ReferenceField DocDbSettings
doc_db_secrets_manager_access_role_arn_field =
    scalar "DocDBSettings.SecretsManagerAccessRoleARN" "DocDBSettings.SecretsManagerAccessRoleRef"
      false role_target (λ s. s.secrets_manager_access_role_ref)
      (λ s. s.secrets_manager_access_role_arn)
      (λ o s. record s { secrets_manager_access_role_arn = o })

abbrev pub doc_db_secrets_manager_secret_id_field : ReferenceField DocDbSettings
doc_db_secrets_manager_secret_id_field =
    scalar "DocDBSettings.SecretsManagerSecretID" "DocDBSettings.SecretsManagerSecretRef" false
      secret_target (λ s. s.secrets_manager_secret_ref) (λ s. s.secrets_manager_secret_id)
      (λ o s. record s { secrets_manager_secret_id = o })

abbrev pub doc_db_settings_fields : List (ReferenceField DocDbSettings)
doc_db_settings_fields =
    doc_db_kms_key_id_field ∷ doc_db_secrets_manager_access_role_arn_field
    ∷ doc_db_secrets_manager_secret_id_field ∷ []

abbrev pub dynamo_db_service_access_role_arn_field : ReferenceField DynamoDbSettings
dynamo_db_service_access_role_arn_field =
    scalar "DynamoDBSettings.ServiceAccessRoleARN" "DynamoDBSettings.ServiceAccessRoleRef" false
      role_target (λ s. s.service_access_role_ref) (λ s. s.service_access_role_arn)
      (λ o s. record s { service_access_role_arn = o })

abbrev pub dynamo_db_settings_fields : List (ReferenceField DynamoDbSettings)
dynamo_db_settings_fields = dynamo_db_service_access_role_arn_field ∷ []

abbrev pub elasticsearch_service_access_role_arn_field : ReferenceField ElasticsearchSettings
elasticsearch_service_access_role_arn_field =
    scalar "ElasticsearchSettings.ServiceAccessRoleARN" "ElasticsearchSettings.ServiceAccessRoleRef"
      false role_target (λ s. s.service_access_role_ref) (λ s. s.service_access_role_arn)
      (λ o s. record s { service_access_role_arn = o })

abbrev pub elasticsearch_settings_fields : List (ReferenceField ElasticsearchSettings)
elasticsearch_settings_fields = elasticsearch_service_access_role_arn_field ∷ []

abbrev pub gcp_my_sql_secrets_manager_access_role_arn_field : ReferenceField GcpMySqlSettings
gcp_my_sql_secrets_manager_access_role_arn_field =
    scalar "GcpMySQLSettings.SecretsManagerAccessRoleARN"
      "GcpMySQLSettings.SecretsManagerAccessRoleRef" false role_target
      (λ s. s.secrets_manager_access_role_ref) (λ s. s.secrets_manager_access_role_arn)
      (λ o s. record s { secrets_manager_access_role_arn = o })

abbrev pub gcp_my_sql_secrets_manager_secret_id_field : ReferenceField GcpMySqlSettings
gcp_my_sql_secrets_manager_secret_id_field =
    scalar "GcpMySQLSettings.SecretsManagerSecretID" "GcpMySQLSettings.SecretsManagerSecretRef"
      false secret_target (λ s. s.secrets_manager_secret_ref) (λ s. s.secrets_manager_secret_id)
      (λ o s. record s { secrets_manager_secret_id = o })

abbrev pub gcp_my_sql_settings_fields : List (ReferenceField GcpMySqlSettings)
gcp_my_sql_settings_fields =
    gcp_my_sql_secrets_manager_access_role_arn_field ∷ gcp_my_sql_secrets_manager_secret_id_field
    ∷ []

abbrev pub ibmdb2_secrets_manager_access_role_arn_field : ReferenceField Ibmdb2Settings
ibmdb2_secrets_manager_access_role_arn_field =
    scalar "IBMDB2Settings.SecretsManagerAccessRoleARN" "IBMDB2Settings.SecretsManagerAccessRoleRef"
      false role_target (λ s. s.secrets_manager_access_role_ref)
      (λ s. s.secrets_manager_access_role_arn)
      (λ o s. record s { secrets_manager_access_role_arn = o })

abbrev pub ibmdb2_secrets_manager_secret_id_field : ReferenceField Ibmdb2Settings
ibmdb2_secrets_manager_secret_id_field =
    scalar "IBMDB2Settings.SecretsManagerSecretID" "IBMDB2Settings.SecretsManagerSecretRef" false
      secret_target (λ s. s.secrets_manager_secret_ref) (λ s. s.secrets_manager_secret_id)
      (λ o s. record s { secrets_manager_secret_id = o })

abbrev pub ibmdb2_settings_fields : List (ReferenceField Ibmdb2Settings)
ibmdb2_settings_fields =
    ibmdb2_secrets_manager_access_role_arn_field ∷ ibmdb2_secrets_manager_secret_id_field ∷ []
