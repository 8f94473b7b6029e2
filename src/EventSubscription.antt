-- ===== src/EventSubscription.antt =====
-- The event subscription: apis/v1alpha1/event_subscription.go and references.go of pkg/resource/event_subscription.
pub mod Types
pub mod References
