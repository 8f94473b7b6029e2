-- ===== src/Endpoint/Cleared.antt =====
-- The fields of the settings of an endpoint, settings by settings.
pub mod DmsToIbmdb2
pub mod KafkaToNeptune
pub mod OracleToSybase
