-- ===== src/Certificate/Types.antt =====
-- Certificate, its Spec and its Status of
-- apis/v1alpha1/certificate.go.
use ack_dms_controller.Base.{List, Option, String}
use ack_dms_controller.Integer.{ℤ}
use ack_dms_controller.Manager.{Kind}
use ack_dms_controller.Resource.{ReferenceWrapper, SecretKeyReference, Time}
use ack_dms_controller.Status.{AckStatus}
use ack_dms_controller.Tags.{Tag}

pub record CertificateSpec : Type 0 where
  pub certificate_pem : Option SecretKeyReference
  pub certificate_wallet : Option SecretKeyReference
  pub kms_key_id : Option String
  pub kms_key_ref : Option ReferenceWrapper
  pub name : Option String
  pub tags : Option (List Tag)

pub record CertificateStatus : Type 0 where
  pub ack : AckStatus
  pub certificate_creation_date : Option Time
  pub certificate_owner : Option String
  pub key_length : Option ℤ
  pub signing_algorithm : Option String
  pub valid_from_date : Option Time
  pub valid_to_date : Option Time

-- The fields of the custom resource that the manager reads or writes.
pub record Certificate : Type 0 where
  pub namespace : String
  pub spec : CertificateSpec
  pub status : CertificateStatus

abbrev pub certificate_kind : Kind Certificate
certificate_kind = record {
  ack = λ ko. ko.status.ack;
  set_ack = λ a ko. record ko { status = record (ko.status) { ack = a } };
  tags = λ ko. ko.spec.tags;
  set_tags = λ t ko. record ko { spec = record (ko.spec) { tags = t } };
}
