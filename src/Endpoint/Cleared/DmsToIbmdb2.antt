-- ===== src/Endpoint/Cleared/DmsToIbmdb2.antt =====
-- The fields of settings with references, and what clearing them amounts to: DmsTransferSettings to
-- IBMDB2Settings.
use ack_dms_controller.Base.{refl, ◌∙◌, ◌≡◌}
use ack_dms_controller.Endpoint.Fields.CertificateToIbmdb2.{
  dms_transfer_settings_fields, doc_db_settings_fields, dynamo_db_settings_fields,
  elasticsearch_settings_fields, gcp_my_sql_settings_fields, ibmdb2_settings_fields,
}
use ack_dms_controller.Endpoint.Kept.{
  kept_dms_transfer_settings, kept_doc_db_settings, kept_dynamo_db_settings,
  kept_elasticsearch_settings, kept_gcp_my_sql_settings, kept_ibmdb2_settings,
}
use ack_dms_controller.Endpoint.Settings.DmsToMicrosoft.{
  DmsTransferSettings, DocDbSettings, DynamoDbSettings, ElasticsearchSettings, GcpMySqlSettings,
  Ibmdb2Settings,
}
use ack_dms_controller.References.{clear_resolved_references}
use ack_dms_controller.References.Blocks.{clear-nil, clear-scalar}

pub clear-dms_transfer_settings_fields :
    (s : DmsTransferSettings)
    → clear_resolved_references dms_transfer_settings_fields s ≡ kept_dms_transfer_settings s
clear-dms_transfer_settings_fields s =
    clear-scalar _ _ _ _ _ _ (λ o s. record s { service_access_role_arn = o }) _ _ (λ s. refl)
    ∙ clear-nil _

pub clear-doc_db_settings_fields :
    (s : DocDbSettings)
    → clear_resolved_references doc_db_settings_fields s ≡ kept_doc_db_settings s
clear-doc_db_settings_fields s =
    clear-scalar _ _ _ _ _ _ (λ o s. record s { kms_key_id = o }) _ _ (λ s. refl)
    ∙ clear-scalar _ _ _ _ _ _ (λ o s. record s { secrets_manager_access_role_arn = o }) _ _
        (λ s. refl)
    ∙ clear-scalar _ _ _ _ _ _ (λ o s. record s { secrets_manager_secret_id = o }) _ _ (λ s. refl)
    ∙ clear-nil _

pub clear-dynamo_db_settings_fields :
    (s : DynamoDbSettings)
    → clear_resolved_references dynamo_db_settings_fields s ≡ kept_dynamo_db_settings s
clear-dynamo_db_settings_fields s =
    clear-scalar _ _ _ _ _ _ (λ o s. record s { service_access_role_arn = o }) _ _ (λ s. refl)
    ∙ clear-nil _

pub clear-elasticsearch_settings_fields :
    (s : ElasticsearchSettings)
    → clear_resolved_references elasticsearch_settings_fields s ≡ kept_elasticsearch_settings s
clear-elasticsearch_settings_fields s =
    clear-scalar _ _ _ _ _ _ (λ o s. record s { service_access_role_arn = o }) _ _ (λ s. refl)
    ∙ clear-nil _

pub clear-gcp_my_sql_settings_fields :
    (s : GcpMySqlSettings)
    → clear_resolved_references gcp_my_sql_settings_fields s ≡ kept_gcp_my_sql_settings s
clear-gcp_my_sql_settings_fields s =
    clear-scalar _ _ _ _ _ _ (λ o s. record s { secrets_manager_access_role_arn = o }) _ _
      (λ s. refl)
    ∙ clear-scalar _ _ _ _ _ _ (λ o s. record s { secrets_manager_secret_id = o }) _ _ (λ s. refl)
    ∙ clear-nil _

pub clear-ibmdb2_settings_fields :
    (s : Ibmdb2Settings)
    → clear_resolved_references ibmdb2_settings_fields s ≡ kept_ibmdb2_settings s
clear-ibmdb2_settings_fields s =
    clear-scalar _ _ _ _ _ _ (λ o s. record s { secrets_manager_access_role_arn = o }) _ _
      (λ s. refl)
    ∙ clear-scalar _ _ _ _ _ _ (λ o s. record s { secrets_manager_secret_id = o }) _ _ (λ s. refl)
    ∙ clear-nil _
