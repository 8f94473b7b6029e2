-- ===== src/Endpoint.antt =====
-- The endpoint: apis/v1alpha1/endpoint.go with its settings, and references.go of
-- pkg/resource/endpoint.
pub mod Settings
pub mod Types
pub mod Slots
pub mod Fields
pub mod References
pub mod Kept
pub mod SlotLaws
pub mod FieldLaws
pub mod Keeping
pub mod Cleared
pub mod RoundTrip
