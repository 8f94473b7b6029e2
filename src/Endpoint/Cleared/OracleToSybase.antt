-- ===== src/Endpoint/Cleared/OracleToSybase.antt =====
-- The fields of settings with references, and what clearing them amounts to: OracleSettings to
-- SybaseSettings.
use ack_dms_controller.Base.{refl, ◌∙◌, ◌≡◌}
use ack_dms_controller.Endpoint.Fields.OracleToSybase.{
  oracle_settings_fields, postgre_sql_settings_fields, redis_settings_fields,
  redshift_settings_fields, s3_settings_fields, sybase_settings_fields,
}
use ack_dms_controller.Endpoint.Kept.{
  kept_oracle_settings, kept_postgre_sql_settings, kept_redis_settings, kept_redshift_settings,
  kept_s3_settings, kept_sybase_settings,
}
use ack_dms_controller.Endpoint.Settings.MongoToRedis.{
  OracleSettings, PostgreSqlSettings, RedisSettings,
}
use ack_dms_controller.Endpoint.Settings.RedshiftToTimestream.{
  RedshiftSettings, S3Settings, SybaseSettings,
}
use ack_dms_controller.References.{clear_resolved_references}
use ack_dms_controller.References.Blocks.{clear-nil, clear-scalar}

pub clear-oracle_settings_fields :
    (s : OracleSettings)
    → clear_resolved_references oracle_settings_fields s ≡ kept_oracle_settings s
clear-oracle_settings_fields s =
    clear-scalar _ _ _ _ _ _ (λ o s. record s { secrets_manager_access_role_arn = o }) _ _
      (λ s. refl)
    ∙ clear-scalar _ _ _ _ _ _ (λ o s. record s { secrets_manager_secret_id = o }) _ _ (λ s. refl)
    ∙ clear-nil _

pub clear-postgre_sql_settings_fields :
    (s : PostgreSqlSettings)
    → clear_resolved_references postgre_sql_settings_fields s ≡ kept_postgre_sql_settings s
clear-postgre_sql_settings_fields s =
    clear-scalar _ _ _ _ _ _ (λ o s. record s { secrets_manager_access_role_arn = o }) _ _
      (λ s. refl)
    ∙ clear-scalar _ _ _ _ _ _ (λ o s. record s { secrets_manager_secret_id = o }) _ _ (λ s. refl)
    ∙ clear-scalar _ _ _ _ _ _ (λ o s. record s { service_access_role_arn = o }) _ _ (λ s. refl)
    ∙ clear-nil _

pub clear-redis_settings_fields :
    (s : RedisSettings) → clear_resolved_references redis_settings_fields s ≡ kept_redis_settings s
clear-redis_settings_fields s =
    clear-scalar _ _ _ _ _ _ (λ o s. record s { ssl_ca_certificate_arn = o }) _ _ (λ s. refl)
    ∙ clear-nil _

pub clear-redshift_settings_fields :
    (s : RedshiftSettings)
    → clear_resolved_references redshift_settings_fields s ≡ kept_redshift_settings s
clear-redshift_settings_fields s =
    clear-scalar _ _ _ _ _ _ (λ o s. record s { bucket_name = o }) _ _ (λ s. refl)
    ∙ clear-scalar _ _ _ _ _ _ (λ o s. record s { secrets_manager_access_role_arn = o }) _ _
        (λ s. refl)
    ∙ clear-scalar _ _ _ _ _ _ (λ o s. record s { secrets_manager_secret_id = o }) _ _ (λ s. refl)
    ∙ clear-scalar _ _ _ _ _ _ (λ o s. record s { server_side_encryption_kms_key_id = o }) _ _
        (λ s. refl)
    ∙ clear-scalar _ _ _ _ _ _ (λ o s. record s { service_access_role_arn = o }) _ _ (λ s. refl)
    ∙ clear-nil _

pub clear-s3_settings_fields :
    (s : S3Settings) → clear_resolved_references s3_settings_fields s ≡ kept_s3_settings s
clear-s3_settings_fields s =
    clear-scalar _ _ _ _ _ _ (λ o s. record s { bucket_name = o }) _ _ (λ s. refl)
    ∙ clear-scalar _ _ _ _ _ _ (λ o s. record s { server_side_encryption_kms_key_id = o }) _ _
        (λ s. refl)
    ∙ clear-scalar _ _ _ _ _ _ (λ o s. record s { service_access_role_arn = o }) _ _ (λ s. refl)
    ∙ clear-nil _

pub clear-sybase_settings_fields :
    (s : SybaseSettings)
    → clear_resolved_references sybase_settings_fields s ≡ kept_sybase_settings s
clear-sybase_settings_fields s =
    clear-scalar _ _ _ _ _ _ (λ o s. record s { secrets_manager_access_role_arn = o }) _ _
      (λ s. refl)
    ∙ clear-scalar _ _ _ _ _ _ (λ o s. record s { secrets_manager_secret_id = o }) _ _ (λ s. refl)
    ∙ clear-nil _
