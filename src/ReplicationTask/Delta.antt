-- ===== src/ReplicationTask/Delta.antt =====
-- newResourceDelta of delta.go: where the desired and the latest replication task differ. Of the
-- two values that `delta.Add` also keeps nothing is read, so the path alone is added.
use ack_dms_controller.Base.{
  Bool, List, Option, String, [], elements, false, none, not, some, ◌==◌, ◌∷◌,
}
use ack_dms_controller.Compare.{DeltaOps, add_checks, add_if, differs, same_flag}
use ack_dms_controller.Go.{Go, panics, returns, ◌>>=◌}
use ack_dms_controller.ReplicationTask.Hooks.{
  should_start_replication_task, should_stop_replication_task,
}
use ack_dms_controller.ReplicationTask.Types.{ReplicationTask, ReplicationTaskSpec}
use ack_dms_controller.Resource.{ReferenceWrapper, Time}
use ack_dms_controller.Runtime.{Reply, fault, reply}
use ack_dms_controller.Tags.{AckTags, Tag, convert_to_ordered_ack_tags}

-- ackcompare.HasNilDifference at three types, ackcompare.DocumentEqual,
-- equality.Semantic.DeepEqual on references, ackcompare.MapStringStringEqual and Time.Equal.
pub record Comparisons (E : Type 0) : Type 0 where
  pub nil_difference_text : Option String → Option String → Bool
  pub nil_difference_time : Option Time → Option Time → Bool
  pub nil_difference_bool : Option Bool → Option Bool → Bool
  pub document_equal : String → String → Reply Bool E
  pub deep_equal : Option ReferenceWrapper → Option ReferenceWrapper → Bool
  pub tags_equal : AckTags → AckTags → Bool
  pub time_equal : Time → Time → Bool

module _ {E : Type 0} (cmp : Comparisons E) where
  abbrev pub text_differs : Option String → Option String → Bool
  text_differs a b = differs (cmp.nil_difference_text a b) (λ x y. x == y) a b

  abbrev pub document_same : String → String → Bool
  document_same x y = elim (cmp.document_equal x y) [ reply equal ↦ equal | fault e ↦ false ]

  abbrev pub document_differs : Option String → Option String → Bool
  document_differs a b = differs (cmp.nil_difference_text a b) document_same a b

  abbrev pub time_differs : Option Time → Option Time → Bool
  time_differs a b = differs (cmp.nil_difference_time a b) cmp.time_equal a b

  abbrev pub flag_differs : Option Bool → Option Bool → Bool
  flag_differs a b = differs (cmp.nil_difference_bool a b) same_flag a b

  -- The two lists of tags as maps.
  unfoldable pub tags_differ : Option (List Tag) → Option (List Tag) → Bool
  tags_differ a b = not (
      cmp.tags_equal (convert_to_ordered_ack_tags (elements a)).0
        (convert_to_ordered_ack_tags (elements b)).0)

  -- The comparisons of the fields in the order of the code: the path, and whether it is added.
  unfoldable pub spec_checks : ReplicationTaskSpec → ReplicationTaskSpec → List (String × Bool)
  unfolding tags_differ
  spec_checks a b =
      ("Spec.CdcStartPosition", text_differs a.cdc_start_position b.cdc_start_position)
      ∷ ("Spec.CdcStartTime", time_differs a.cdc_start_time b.cdc_start_time)
      ∷ ("Spec.CdcStopPosition", text_differs a.cdc_stop_position b.cdc_stop_position)
      ∷ ("Spec.MigrationType", text_differs a.migration_type b.migration_type)
      ∷ ("Spec.Name", text_differs a.name b.name)
      ∷ (
        "Spec.ReplicationInstanceARN",
        text_differs a.replication_instance_arn b.replication_instance_arn,
      )
      ∷ (
        "Spec.ReplicationInstanceRef",
        not (cmp.deep_equal a.replication_instance_ref b.replication_instance_ref),
      )
      ∷ ("Spec.ResourceIdentifier", text_differs a.resource_identifier b.resource_identifier)
      ∷ ("Spec.SourceEndpointARN", text_differs a.source_endpoint_arn b.source_endpoint_arn)
      ∷ ("Spec.SourceEndpointRef", not (cmp.deep_equal a.source_endpoint_ref b.source_endpoint_ref))
      ∷ (
        "Spec.StartReplicationTask",
        flag_differs a.start_replication_task b.start_replication_task,
      )
      ∷ ("Spec.TableMappings", text_differs a.table_mappings b.table_mappings)
      ∷ ("Spec.Tags", tags_differ a.tags b.tags)
      ∷ ("Spec.TargetEndpointARN", text_differs a.target_endpoint_arn b.target_endpoint_arn)
      ∷ ("Spec.TargetEndpointRef", not (cmp.deep_equal a.target_endpoint_ref b.target_endpoint_ref))
      ∷ ("Spec.TaskData", document_differs a.task_data b.task_data)
      ∷ ("Spec.TaskSettings", document_differs a.task_settings b.task_settings)
      ∷ []

  module _ {D : Type 0} (ops : DeltaOps D) where
    -- Two pointers to resources; where both are nil, `b.ko` panics.
    unfoldable pub new_resource_delta : Option ReplicationTask → Option ReplicationTask → Go D
    unfolding spec_checks add_checks should_start_replication_task should_stop_replication_task
    new_resource_delta none none = panics
    new_resource_delta none (some b) = returns (ops.add ops.new_delta "")
    new_resource_delta (some a) none = returns (ops.add ops.new_delta "")
    new_resource_delta (some a) (some b) = do
      start_due ← should_start_replication_task b
      let before = add_if ops start_due "Spec.StartReplicationTask" ops.new_delta
      let delta = add_checks ops (spec_checks a.spec b.spec) before
      stop_due ← should_stop_replication_task ops b (some delta)
      returns (add_if ops stop_due "Spec.StartReplicationTask" delta)
