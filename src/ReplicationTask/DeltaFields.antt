-- ===== src/ReplicationTask/DeltaFields.antt =====
-- The delta of two replication tasks, field by field.
use ack_dms_controller.Base.{
  Bool, List, Option, String, arith, elements, eq_iff, false, inl, inr, not, refl, some,
  starts_with, subst, sym, true, ◌==◌, ◌↔◌, ◌∙◌, ◌≡◌,
}
use ack_dms_controller.Compare.{DeltaLaws, DeltaOps}
use ack_dms_controller.Compare.Content.{any_within}
use ack_dms_controller.Compare.Fields.{
  Changed, any_within-test_at, differs-Changed, is_sole, test_at, within_apart,
}
use ack_dms_controller.Go.{returns}
use ack_dms_controller.ReplicationTask.Delta.{
  Comparisons, document_differs, document_same, new_resource_delta, spec_checks, tags_differ,
  text_differs, time_differs,
}
use ack_dms_controller.ReplicationTask.DeltaContent.{new_resource_delta-different_at, start_path}
use ack_dms_controller.ReplicationTask.Types.{ReplicationTask, ReplicationTaskSpec}
use ack_dms_controller.Resource.{Time}
use ack_dms_controller.Runtime.{Reply-cases, reply}
use ack_dms_controller.Tags.{convert_to_ordered_ack_tags}

module _ {E D : Type 0} (cmp : Comparisons E) (ops : DeltaOps D) where
  abbrev pub TextChanged : Option String → Option String → Type 0
  TextChanged x y = Changed (cmp.nil_difference_text x y) (λ u v. u ≡ v) x y

  -- Two JSON documents are the same if the comparison reads both and finds them equal.
  abbrev pub DocumentChanged : Option String → Option String → Type 0
  DocumentChanged x y =
      Changed (cmp.nil_difference_text x y) (λ u v. cmp.document_equal u v ≡ reply true) x y

  abbrev pub TimeChanged : Option Time → Option Time → Type 0
  TimeChanged x y = Changed (cmp.nil_difference_time x y) (λ u v. cmp.time_equal u v ≡ true) x y

  -- What the delta shows at the path of each field.
  pub record ShowsFields (d : D) (a b : ReplicationTaskSpec) : Type 0 where
    pub cdc_start_position :
        (ops.different_at d "Spec.CdcStartPosition" ≡ true)
        ↔ TextChanged a.cdc_start_position b.cdc_start_position
    pub cdc_start_time :
        (ops.different_at d "Spec.CdcStartTime" ≡ true)
        ↔ TimeChanged a.cdc_start_time b.cdc_start_time
    pub cdc_stop_position :
        (ops.different_at d "Spec.CdcStopPosition" ≡ true)
        ↔ TextChanged a.cdc_stop_position b.cdc_stop_position
    pub migration_type :
        (ops.different_at d "Spec.MigrationType" ≡ true)
        ↔ TextChanged a.migration_type b.migration_type
    pub name : (ops.different_at d "Spec.Name" ≡ true) ↔ TextChanged a.name b.name
    pub replication_instance_arn :
        (ops.different_at d "Spec.ReplicationInstanceARN" ≡ true)
        ↔ TextChanged a.replication_instance_arn b.replication_instance_arn
    pub replication_instance_ref :
        (ops.different_at d "Spec.ReplicationInstanceRef" ≡ true)
        ↔ (cmp.deep_equal a.replication_instance_ref b.replication_instance_ref ≡ false)
    pub resource_identifier :
        (ops.different_at d "Spec.ResourceIdentifier" ≡ true)
        ↔ TextChanged a.resource_identifier b.resource_identifier
    pub source_endpoint_arn :
        (ops.different_at d "Spec.SourceEndpointARN" ≡ true)
        ↔ TextChanged a.source_endpoint_arn b.source_endpoint_arn
    pub source_endpoint_ref :
        (ops.different_at d "Spec.SourceEndpointRef" ≡ true)
        ↔ (cmp.deep_equal a.source_endpoint_ref b.source_endpoint_ref ≡ false)
    pub table_mappings :
        (ops.different_at d "Spec.TableMappings" ≡ true)
        ↔ TextChanged a.table_mappings b.table_mappings
    pub tags : (ops.different_at d "Spec.Tags" ≡ true) ↔ (
        cmp.tags_equal
          (convert_to_ordered_ack_tags (elements a.tags)).0
          (convert_to_ordered_ack_tags (elements b.tags)).0
        ≡ false)
    pub target_endpoint_arn :
        (ops.different_at d "Spec.TargetEndpointARN" ≡ true)
        ↔ TextChanged a.target_endpoint_arn b.target_endpoint_arn
    pub target_endpoint_ref :
        (ops.different_at d "Spec.TargetEndpointRef" ≡ true)
        ↔ (cmp.deep_equal a.target_endpoint_ref b.target_endpoint_ref ≡ false)
    pub task_data :
        (ops.different_at d "Spec.TaskData" ≡ true) ↔ DocumentChanged a.task_data b.task_data
    pub task_settings :
        (ops.different_at d "Spec.TaskSettings" ≡ true)
        ↔ DocumentChanged a.task_settings b.task_settings

not_iff : (t : Bool) → (not t ≡ true) ↔ (t ≡ false)
not_iff t = ground arith

via : {P : Type 0} {s t : Bool} → s ≡ t → (t ≡ true) ↔ P → (s ≡ true) ↔ P
via {P} e reads = subst (λ b. (b ≡ true) ↔ P) (sym e) reads

module _ {E D : Type 0} (cmp : Comparisons E) (ops : DeltaOps D) (within : String → String → Bool)
    (laws : DeltaLaws ops within) where
  text_reads : (x y : Option String) → (text_differs cmp x y ≡ true) ↔ TextChanged cmp ops x y
  text_reads x y =
      differs-Changed (cmp.nil_difference_text x y) (λ u v. u == v) (λ u v. u ≡ v) x y eq_iff

  document_same_iff :
      (u v : String) → (document_same cmp u v ≡ true) ↔ (cmp.document_equal u v ≡ reply true)
  document_same_iff u v = elim (Reply-cases (cmp.document_equal u v)) [
    | inl (true, e) ↦ (λ _. e, λ _. rw (e, document_same) refl)
    | inl (false, e) ↦ (λ h. absurd (cc (rw (e, document_same) at h)), λ h. absurd (cc (e, h)))
    | inr (err, e) ↦ (λ h. absurd (cc (rw (e, document_same) at h)), λ h. absurd (cc (e, h)))
  ]

  document_reads :
      (x y : Option String) → (document_differs cmp x y ≡ true) ↔ DocumentChanged cmp ops x y
  document_reads x y =
      differs-Changed (cmp.nil_difference_text x y) (document_same cmp)
        (λ u v. cmp.document_equal u v ≡ reply true) x y document_same_iff

  time_reads : (x y : Option Time) → (time_differs cmp x y ≡ true) ↔ TimeChanged cmp ops x y
  time_reads x y =
      differs-Changed (cmp.nil_difference_time x y) cmp.time_equal
        (λ u v. cmp.time_equal u v ≡ true) x y (λ u v. (λ h. h, λ h. h))

  -- What is shown at a path that is one of the comparisons', and no prefix of another.
  sole_shown :
      (d : D) (p : String) (checks : List (String × Bool))
      → (within start_path p ≡ false → ops.different_at d p ≡ any_within within p checks)
      → starts_with start_path p ≡ false
      → is_sole p checks ≡ true
      → ops.different_at d p ≡ test_at p checks
  sole_shown d p checks shows apart sole =
      shows (within_apart ops within laws start_path p apart)
      ∙ any_within-test_at ops within laws p checks sole

  -- For two tasks, the latest with a migration type, newResourceDelta returns a delta, which is
  -- different at the path of a field, StartReplicationTask aside, exactly if the field has changed:
  -- a text, a time or a document by a nil difference or by two values that are not the same, a
  -- reference if DeepEqual tells the two apart, and the tags if the two are different as maps.
  pub new_resource_delta-ShowsFields :
      (a b : ReplicationTask) (type : String)
      → b.spec.migration_type ≡ some type
      → (d : D) × (new_resource_delta cmp ops (some a) (some b) ≡ returns d)
        × ShowsFields cmp ops d a.spec b.spec
  unfolding spec_checks tags_differ
  new_resource_delta-ShowsFields a b type typed =
      let (d, made, shows) = new_resource_delta-different_at cmp ops within laws a b type typed in
      let checks = spec_checks cmp a.spec b.spec in
      let shown : (p : String)
          → starts_with start_path p ≡ false
          → is_sole p checks ≡ true
          → ops.different_at d p ≡ test_at p checks =
        λ p apart sole. sole_shown d p checks (shows p) apart sole in
      (
        d,
        made,
        record {
          cdc_start_position =
              via (shown "Spec.CdcStartPosition" refl refl)
                (text_reads a.spec.cdc_start_position b.spec.cdc_start_position);
          cdc_start_time =
              via (shown "Spec.CdcStartTime" refl refl)
                (time_reads a.spec.cdc_start_time b.spec.cdc_start_time);
          cdc_stop_position =
              via (shown "Spec.CdcStopPosition" refl refl)
                (text_reads a.spec.cdc_stop_position b.spec.cdc_stop_position);
          migration_type =
              via (shown "Spec.MigrationType" refl refl)
                (text_reads a.spec.migration_type b.spec.migration_type);
          name = via (shown "Spec.Name" refl refl) (text_reads a.spec.name b.spec.name);
          replication_instance_arn =
              via (shown "Spec.ReplicationInstanceARN" refl refl)
                (text_reads a.spec.replication_instance_arn b.spec.replication_instance_arn);
          replication_instance_ref = via (shown "Spec.ReplicationInstanceRef" refl refl) (
              not_iff
                (cmp.deep_equal a.spec.replication_instance_ref b.spec.replication_instance_ref));
          resource_identifier =
              via (shown "Spec.ResourceIdentifier" refl refl)
                (text_reads a.spec.resource_identifier b.spec.resource_identifier);
          source_endpoint_arn =
              via (shown "Spec.SourceEndpointARN" refl refl)
                (text_reads a.spec.source_endpoint_arn b.spec.source_endpoint_arn);
          source_endpoint_ref =
              via (shown "Spec.SourceEndpointRef" refl refl)
                (not_iff (cmp.deep_equal a.spec.source_endpoint_ref b.spec.source_endpoint_ref));
          table_mappings =
              via (shown "Spec.TableMappings" refl refl)
                (text_reads a.spec.table_mappings b.spec.table_mappings);
          tags = via (shown "Spec.Tags" refl refl) (not_iff _);
          target_endpoint_arn =
              via (shown "Spec.TargetEndpointARN" refl refl)
                (text_reads a.spec.target_endpoint_arn b.spec.target_endpoint_arn);
          target_endpoint_ref =
              via (shown "Spec.TargetEndpointRef" refl refl)
                (not_iff (cmp.deep_equal a.spec.target_endpoint_ref b.spec.target_endpoint_ref));
          task_data =
              via (shown "Spec.TaskData" refl refl)
                (document_reads a.spec.task_data b.spec.task_data);
          task_settings =
              via (shown "Spec.TaskSettings" refl refl)
                (document_reads a.spec.task_settings b.spec.task_settings);
        },
      )
