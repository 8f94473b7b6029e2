-- ===== src/EventSubscription/Types.antt =====
-- EventSubscription, its Spec and its Status of
-- apis/v1alpha1/event_subscription.go.
use ack_dms_controller.Base.{Bool, List, Option, String}
use ack_dms_controller.Manager.{Kind}
use ack_dms_controller.Resource.{ReferenceWrapper}
use ack_dms_controller.Status.{AckStatus}
use ack_dms_controller.Tags.{Tag}

pub record EventSubscriptionSpec : Type 0 where
  pub enabled : Option Bool
  pub event_categories : Option (List String)
  pub name : Option String
  pub sns_topic_arn : Option String
  pub sns_topic_ref : Option ReferenceWrapper
  pub source_ids : Option (List String)
  pub source_type : Option String
  pub tags : Option (List Tag)

pub record EventSubscriptionStatus : Type 0 where
  pub ack : AckStatus
  pub customer_account_id : Option String
  pub subscription_creation_time : Option String
  pub subscription_status : Option String

-- The fields of the custom resource that the manager reads or writes.
pub record EventSubscription : Type 0 where
  pub namespace : String
  pub spec : EventSubscriptionSpec
  pub status : EventSubscriptionStatus

abbrev pub event_subscription_kind : Kind EventSubscription
event_subscription_kind = record {
  ack = λ ko. ko.status.ack;
  set_ack = λ a ko. record ko { status = record (ko.status) { ack = a } };
  tags = λ ko. ko.spec.tags;
  set_tags = λ t ko. record ko { spec = record (ko.spec) { tags = t } };
}
