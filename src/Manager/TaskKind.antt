-- ===== src/Manager/TaskKind.antt =====
-- The replication task as a kind of resource, and terminalAWSError of its sdk.go.
use ack_dms_controller.Base.{
  Bool, List, Option, Option-cases, String, [], contains, false, inl, inr, none, refl, some, true,
  ◌∷◌, ◌≡◌,
}
use ack_dms_controller.Manager.{Kind, KindLaws}
use ack_dms_controller.ReplicationTask.Types.{ReplicationTask, with_ack}
use ack_dms_controller.Runtime.{Errors}

abbrev pub task_kind : Kind ReplicationTask
task_kind = record {
  ack = λ ko. ko.status.ack;
  set_ack = with_ack;
  tags = λ ko. ko.spec.tags;
  set_tags = λ t ko. record ko { spec = record (ko.spec) { tags = t } };
}

pub task_kind-KindLaws : KindLaws task_kind
task_kind-KindLaws = record {
  ack-set_ack = λ s k. refl;
  set_ack-ack = λ k. refl;
  tags-set_tags = λ t k. refl;
  ack-set_tags = λ t k. refl;
}

abbrev terminal_codes : List String
terminal_codes = "InvalidParameterCombinationException" ∷ "InvalidParameterValueException" ∷ []

module _ {E : Type 0} (errors : Errors E) where
  unfoldable pub terminal_aws_error : Option E → Bool
  terminal_aws_error none = false
  terminal_aws_error (some e) = elim (errors.api_error_code e) [
    | none ↦ false
    | some code ↦ contains terminal_codes code
  ]

  -- What ackerr.AWSError promises: it finds the API error of which `errors.As` finds the code.
  abbrev pub FindsApiError : Type 0
  FindsApiError =
      (e : E) (code : String)
      → errors.api_error_code e ≡ some code
      → (a : E) × (errors.aws_error e ≡ some a)

  pub terminal_aws_error-known :
      FindsApiError
      → (e : E) → terminal_aws_error (some e) ≡ true
      → (a : E) × (errors.aws_error e ≡ some a)
  unfolding terminal_aws_error
  terminal_aws_error-known finds e h = elim (Option-cases (errors.api_error_code e)) [
    | inl no_code ↦ absurd (cc (rw (no_code, terminal_aws_error) at h))
    | inr (code, has_code) ↦ finds e code has_code
  ]
