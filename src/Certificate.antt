-- ===== src/Certificate.antt =====
-- The certificate: apis/v1alpha1/certificate.go and references.go of pkg/resource/certificate.
pub mod Types
pub mod References
