-- ===== src/Endpoint/Cleared/KafkaToNeptune.antt =====
-- The fields of settings with references, and what clearing them amounts to: KafkaSettings to
-- NeptuneSettings.
use ack_dms_controller.Base.{refl, ◌∙◌, ◌≡◌}
use ack_dms_controller.Endpoint.Fields.KmsToNeptune.{
  kafka_settings_fields, kinesis_settings_fields, microsoft_sql_server_settings_fields,
  mongo_db_settings_fields, my_sql_settings_fields, neptune_settings_fields,
}
use ack_dms_controller.Endpoint.Kept.{
  kept_kafka_settings, kept_kinesis_settings, kept_microsoft_sql_server_settings,
  kept_mongo_db_settings, kept_my_sql_settings, kept_neptune_settings,
}
use ack_dms_controller.Endpoint.Settings.DmsToMicrosoft.{
  KafkaSettings, KinesisSettings, MicrosoftSqlServerSettings,
}
use ack_dms_controller.Endpoint.Settings.MongoToRedis.{
  MongoDbSettings, MySqlSettings, NeptuneSettings,
}
use ack_dms_controller.References.{clear_resolved_references}
use ack_dms_controller.References.Blocks.{clear-nil, clear-scalar}

pub clear-kafka_settings_fields :
    (s : KafkaSettings) → clear_resolved_references kafka_settings_fields s ≡ kept_kafka_settings s
clear-kafka_settings_fields s =
    clear-scalar _ _ _ _ _ _ (λ o s. record s { ssl_ca_certificate_arn = o }) _ _ (λ s. refl)
    ∙ clear-scalar _ _ _ _ _ _ (λ o s. record s { ssl_client_certificate_arn = o }) _ _ (λ s. refl)
    ∙ clear-scalar _ _ _ _ _ _ (λ o s. record s { ssl_client_key_arn = o }) _ _ (λ s. refl)
    ∙ clear-nil _

pub clear-kinesis_settings_fields :
    (s : KinesisSettings)
    → clear_resolved_references kinesis_settings_fields s ≡ kept_kinesis_settings s
clear-kinesis_settings_fields s =
    clear-scalar _ _ _ _ _ _ (λ o s. record s { service_access_role_arn = o }) _ _ (λ s. refl)
    ∙ clear-scalar _ _ _ _ _ _ (λ o s. record s { stream_arn = o }) _ _ (λ s. refl)
    ∙ clear-nil _

pub clear-microsoft_sql_server_settings_fields :
    (s : MicrosoftSqlServerSettings)
    → clear_resolved_references microsoft_sql_server_settings_fields s
      ≡ kept_microsoft_sql_server_settings s
clear-microsoft_sql_server_settings_fields s =
    clear-scalar _ _ _ _ _ _ (λ o s. record s { secrets_manager_access_role_arn = o }) _ _
      (λ s. refl)
    ∙ clear-scalar _ _ _ _ _ _ (λ o s. record s { secrets_manager_secret_id = o }) _ _ (λ s. refl)
    ∙ clear-nil _

pub clear-mongo_db_settings_fields :
    (s : MongoDbSettings)
    → clear_resolved_references mongo_db_settings_fields s ≡ kept_mongo_db_settings s
clear-mongo_db_settings_fields s =
    clear-scalar _ _ _ _ _ _ (λ o s. record s { kms_key_id = o }) _ _ (λ s. refl)
    ∙ clear-scalar _ _ _ _ _ _ (λ o s. record s { secrets_manager_access_role_arn = o }) _ _
        (λ s. refl)
    ∙ clear-scalar _ _ _ _ _ _ (λ o s. record s { secrets_manager_secret_id = o }) _ _ (λ s. refl)
    ∙ clear-nil _

pub clear-my_sql_settings_fields :
    (s : MySqlSettings)
    → clear_resolved_references my_sql_settings_fields s ≡ kept_my_sql_settings s
clear-my_sql_settings_fields s =
    clear-scalar _ _ _ _ _ _ (λ o s. record s { secrets_manager_access_role_arn = o }) _ _
      (λ s. refl)
    ∙ clear-scalar _ _ _ _ _ _ (λ o s. record s { secrets_manager_secret_id = o }) _ _ (λ s. refl)
    ∙ clear-scalar _ _ _ _ _ _ (λ o s. record s { service_access_role_arn = o }) _ _ (λ s. refl)
    ∙ clear-nil _

pub clear-neptune_settings_fields :
    (s : NeptuneSettings)
    → clear_resolved_references neptune_settings_fields s ≡ kept_neptune_settings s
clear-neptune_settings_fields s =
    clear-scalar _ _ _ _ _ _ (λ o s. record s { s3_bucket_name = o }) _ _ (λ s. refl)
    ∙ clear-scalar _ _ _ _ _ _ (λ o s. record s { service_access_role_arn = o }) _ _ (λ s. refl)
    ∙ clear-nil _
