-- ===== src/Resource.antt =====
-- Types of the Kubernetes API, of the ACK runtime and of the AWS SDK that several kinds of resource
-- use. A time is a number.
use ack_dms_controller.Base.{List, Option, String, ℕ}

-- `metav1.Time`
abbrev pub Time : Type 0
Time = ℕ

-- `ackv1alpha1.AWSResourceReference`
pub record Reference : Type 0 where
  pub name : Option String
  pub namespace : Option String

-- `ackv1alpha1.AWSResourceReferenceWrapper`
pub record ReferenceWrapper : Type 0 where
  pub from : Option Reference

-- `svcsdktypes.Filter`
pub record Filter : Type 0 where
  pub name : String
  pub values : List String

-- `ackv1alpha1.SecretKeyReference`: a key of a Kubernetes secret.
pub record SecretKeyReference : Type 0 where
  pub name : String
  pub namespace : String
  pub key : String
