-- ===== src/ReplicationTask/References/Resolved.antt =====
-- The ARNs of a replication task after ResolveReferences.
use ack_dms_controller.Base.{String, false, none, refl, ◌≡◌}
use ack_dms_controller.Manager.TaskKind.{task_kind}
use ack_dms_controller.References.{ReferenceEnv, ReferenceField, resolve_references}
use ack_dms_controller.References.Clearing.{Fades}
use ack_dms_controller.References.Resolving.{
  AllAnswers, AllApart, Writes, resolve_fields-AllAnswers,
}
use ack_dms_controller.References.Validity.{AllChosen, or_else_iff, validate_reference_fields_iff}
use ack_dms_controller.ReplicationTask.References.{
  replication_instance_arn_field, resolve_task_references, source_endpoint_arn_field,
  target_endpoint_arn_field, task_reference_fields,
}
use ack_dms_controller.ReplicationTask.StatusView.{view}
use ack_dms_controller.ReplicationTask.Types.{ReplicationTask}
use ack_dms_controller.Status.{AckStatus}

abbrev still :
    {S : Type 0} (view : ReplicationTask → S) (f : ReferenceField ReplicationTask)
    → ((s : AckStatus) (ko : ReplicationTask) → f.refs (task_kind.set_ack s ko) ≡ f.refs ko)
    → ((v : String) (ko : ReplicationTask) → f.refs (f.put_id v ko) ≡ f.refs ko)
    → ((v : String) (ko : ReplicationTask) → view (f.put_id v ko) ≡ view ko)
    → Fades task_kind view f
still view f refs_ack refs_put same = record {
  refs_ack = refs_ack;
  refs_put = refs_put;
  view_put = λ v ko h. same v ko;
}

module _ {E : Type 0} (env : ReferenceEnv E) where
  replication_instance_arn-Writes :
      Writes env task_kind (λ ko. ko.namespace) replication_instance_arn_field
  replication_instance_arn-Writes = record {
    namespace = still _ _ (λ s ko. refl) (λ v ko. refl) (λ v ko. refl);
    ids_ack = λ s ko. refl;
    ids_put = λ v ko h. refl;
  }

  source_endpoint_arn-Writes : Writes env task_kind (λ ko. ko.namespace) source_endpoint_arn_field
  source_endpoint_arn-Writes = record {
    namespace = still _ _ (λ s ko. refl) (λ v ko. refl) (λ v ko. refl);
    ids_ack = λ s ko. refl;
    ids_put = λ v ko h. refl;
  }

  target_endpoint_arn-Writes : Writes env task_kind (λ ko. ko.namespace) target_endpoint_arn_field
  target_endpoint_arn-Writes = record {
    namespace = still _ _ (λ s ko. refl) (λ v ko. refl) (λ v ko. refl);
    ids_ack = λ s ko. refl;
    ids_put = λ v ko h. refl;
  }

  task_reference_fields-AllApart : AllApart env task_kind (λ ko. ko.namespace) task_reference_fields
  task_reference_fields-AllApart = (
    replication_instance_arn-Writes,
    (
      still _ _ (λ s ko. refl) (λ v ko. refl) (λ v ko. refl),
      (still _ _ (λ s ko. refl) (λ v ko. refl) (λ v ko. refl), tt),
    ),
    (
      still _ _ (λ s ko. refl) (λ v ko. refl) (λ v ko. refl),
      still _ _ (λ s ko. refl) (λ v ko. refl) (λ v ko. refl),
      (
        still _ _ (λ s ko. refl) (λ v ko. refl) (λ v ko. refl),
        still _ _ (λ s ko. refl) (λ v ko. refl) (λ v ko. refl),
        tt,
      ),
    ),
    (
      source_endpoint_arn-Writes,
      (still _ _ (λ s ko. refl) (λ v ko. refl) (λ v ko. refl), tt),
      (
        still _ _ (λ s ko. refl) (λ v ko. refl) (λ v ko. refl),
        still _ _ (λ s ko. refl) (λ v ko. refl) (λ v ko. refl),
        tt,
      ),
      (target_endpoint_arn-Writes, tt, tt, tt),
    ),
  )

  -- Where ResolveReferences of a replication task returns no error, the task that it was given has
  -- a reference or an ARN for the replication instance, for the source endpoint and for the target
  -- endpoint, never both; and of the task that it returns, an ARN that was given is unchanged, and
  -- an ARN for a reference that names a resource is the ARN of a resource of that name that exists,
  -- is synced and is not terminal, in the namespace in which the ACK runtime lets it be looked for.
  pub resolve_task_references-AllAnswers :
      (ko : ReplicationTask)
      → (resolve_task_references env ko).2 ≡ none
      → AllChosen task_reference_fields ko
        × AllAnswers env task_kind
            (λ k. k.namespace)
            task_reference_fields
            ko
            (resolve_task_references env ko).0
  unfolding resolve_task_references resolve_references
  resolve_task_references-AllAnswers ko h =
      let (resolved, valid) = (or_else_iff _ _).0 h in
      (
        (validate_reference_fields_iff env task_reference_fields ko).0 valid,
        resolve_fields-AllAnswers env task_kind (λ k. k.namespace) (λ s k. refl)
            task_reference_fields task_reference_fields-AllApart false ko resolved,
      )
