-- ===== src/ReplicationTask/References/RoundTrip.antt =====
-- ResolveReferences of a replication task, and ClearResolvedReferences after it.
use ack_dms_controller.Base.{
  Bool, [], ap, false, if◌then◌else◌, is_nonempty, none, refl, sym, true, ◌∙◌, ◌∷◌, ◌≡◌,
}
use ack_dms_controller.Manager.TaskKind.{task_kind}
use ack_dms_controller.References.{ReferenceEnv, at_most_one, clear_resolved_references}
use ack_dms_controller.References.Clearing.{Fades, kept, resolve_references-view}
use ack_dms_controller.ReplicationTask.References.{
  clear_task_references, replication_instance_arn_field, resolve_task_references,
  source_endpoint_arn_field, target_endpoint_arn_field, task_reference_fields,
}
use ack_dms_controller.ReplicationTask.Types.{ReplicationTask, ReplicationTaskSpec}

cleared : ReplicationTaskSpec → ReplicationTaskSpec
cleared s = record s {
  replication_instance_arn = kept s.replication_instance_ref s.replication_instance_arn;
  source_endpoint_arn = kept s.source_endpoint_ref s.source_endpoint_arn;
  target_endpoint_arn = kept s.target_endpoint_ref s.target_endpoint_arn;
}

erase-replication_instance_arn :
    (b : Bool) (ko : ReplicationTask)
    → (if b then replication_instance_arn_field.erase ko else ko) ≡ record ko {
      spec = record (ko.spec) {
        replication_instance_arn = if b then none else ko.spec.replication_instance_arn;
      };
    }
erase-replication_instance_arn true ko = refl
erase-replication_instance_arn false ko = refl

erase-source_endpoint_arn :
    (b : Bool) (ko : ReplicationTask)
    → (if b then source_endpoint_arn_field.erase ko else ko) ≡ record ko {
      spec = record (ko.spec) {
        source_endpoint_arn = if b then none else ko.spec.source_endpoint_arn;
      };
    }
erase-source_endpoint_arn true ko = refl
erase-source_endpoint_arn false ko = refl

erase-target_endpoint_arn :
    (b : Bool) (ko : ReplicationTask)
    → (if b then target_endpoint_arn_field.erase ko else ko) ≡ record ko {
      spec = record (ko.spec) {
        target_endpoint_arn = if b then none else ko.spec.target_endpoint_arn;
      };
    }
erase-target_endpoint_arn true ko = refl
erase-target_endpoint_arn false ko = refl

clear_task_references-cleared :
    (ko : ReplicationTask) → (clear_task_references ko).spec ≡ cleared ko.spec
unfolding clear_task_references clear_resolved_references cleared
clear_task_references-cleared ko =
    let s = ko.spec in
    let ko1 = record ko {
      spec = record s {
        replication_instance_arn = kept s.replication_instance_ref s.replication_instance_arn;
      };
    } in
    let ko2 = record ko1 {
      spec = record (ko1.spec) {
        source_endpoint_arn = kept s.source_endpoint_ref s.source_endpoint_arn;
      };
    } in
    ap (λ k. k.spec)
      (ap (clear_resolved_references (source_endpoint_arn_field ∷ target_endpoint_arn_field ∷ []))
          (erase-replication_instance_arn (is_nonempty (at_most_one s.replication_instance_ref)) ko)
        ∙ ap (clear_resolved_references (target_endpoint_arn_field ∷ []))
            (erase-source_endpoint_arn (is_nonempty (at_most_one s.source_endpoint_ref)) ko1)
        ∙ erase-target_endpoint_arn (is_nonempty (at_most_one s.target_endpoint_ref)) ko2)

fades_instance : Fades task_kind (λ k. cleared k.spec) replication_instance_arn_field
unfolding cleared
fades_instance = record {
  refs_ack = λ s ko. refl;
  refs_put = λ v ko. refl;
  view_put = λ v ko h. rw (cleared, h) refl;
}

fades_source : Fades task_kind (λ k. cleared k.spec) source_endpoint_arn_field
unfolding cleared
fades_source = record {
  refs_ack = λ s ko. refl;
  refs_put = λ v ko. refl;
  view_put = λ v ko h. rw (cleared, h) refl;
}

fades_target : Fades task_kind (λ k. cleared k.spec) target_endpoint_arn_field
unfolding cleared
fades_target = record {
  refs_ack = λ s ko. refl;
  refs_put = λ v ko. refl;
  view_put = λ v ko h. rw (cleared, h) refl;
}

-- Whatever ResolveReferences answers, ClearResolvedReferences takes away what it has written: the
-- resource that it returns has the same spec, cleared, as the resource that it was given.
pub clear-resolve_task_references :
    {E : Type 0} (env : ReferenceEnv E) (ko : ReplicationTask)
    → (clear_task_references (resolve_task_references env ko).0).spec
      ≡ (clear_task_references ko).spec
unfolding resolve_task_references
clear-resolve_task_references env ko =
    clear_task_references-cleared (resolve_task_references env ko).0
    ∙ resolve_references-view task_kind (λ k. cleared k.spec) env (λ k. k.namespace) (λ s k. refl)
        task_reference_fields (fades_instance, (fades_source, (fades_target, tt))) ko
    ∙ sym (clear_task_references-cleared ko)
