-- ===== src/Endpoint/FieldLaws.antt =====
-- What the fields of an endpoint with references change.
pub mod CertificateToKafka
pub mod KinesisToPostgre
pub mod PostgreToSybase
