-- ===== src/EventSubscription/References.antt =====
-- references.go of pkg/resource/event_subscription.
use ack_dms_controller.Base.{Bool, List, Option, [], true, ◌∷◌}
use ack_dms_controller.EventSubscription.Types.{EventSubscription, event_subscription_kind}
use ack_dms_controller.References.{
  ReferenceEnv, ReferenceField, ReferenceTarget, clear_resolved_references, resolve_references,
  validate_reference_fields,
}
use ack_dms_controller.References.Shapes.{scalar}

abbrev pub topic_target : ReferenceTarget
topic_target = record { kind = "Topic"; field_name = "Status.ACKResourceMetadata.ARN" }

abbrev pub sns_topic_arn_field : ReferenceField EventSubscription
sns_topic_arn_field =
    scalar "SNSTopicARN" "SNSTopicRef" true topic_target (λ ko. ko.spec.sns_topic_ref)
      (λ ko. ko.spec.sns_topic_arn)
      (λ o ko. record ko { spec = record (ko.spec) { sns_topic_arn = o } })

abbrev pub event_subscription_reference_fields : List (ReferenceField EventSubscription)
event_subscription_reference_fields = sns_topic_arn_field ∷ []

unfoldable pub clear_event_subscription_references : EventSubscription → EventSubscription
unfolding clear_resolved_references
clear_event_subscription_references = clear_resolved_references event_subscription_reference_fields

unfoldable pub validate_event_subscription_references :
    {E : Type 0} → ReferenceEnv E → EventSubscription → Option E
unfolding validate_reference_fields
validate_event_subscription_references env =
    validate_reference_fields env event_subscription_reference_fields

unfoldable pub resolve_event_subscription_references :
    {E : Type 0} → ReferenceEnv E → EventSubscription → EventSubscription × Bool × Option E
unfolding resolve_references
resolve_event_subscription_references env =
    resolve_references env event_subscription_kind (λ ko. ko.namespace)
      event_subscription_reference_fields
