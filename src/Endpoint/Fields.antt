-- ===== src/Endpoint/Fields.antt =====
-- The fields with references of an endpoint and of its settings.
pub mod CertificateToIbmdb2
pub mod KmsToNeptune
pub mod OracleToSybase
