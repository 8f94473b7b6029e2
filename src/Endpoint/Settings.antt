-- ===== src/Endpoint/Settings.antt =====
-- The settings of the engines of an endpoint, in types.go, in the order of their names.
pub mod DmsToMicrosoft
pub mod MongoToRedis
pub mod RedshiftToTimestream
