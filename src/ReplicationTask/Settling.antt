-- ===== src/ReplicationTask/Settling.antt =====
-- From the delta of a replication task to the call that sdkUpdate makes.
use ack_dms_controller.Base.{
  Bool, Option-cases, String, [], arith, false, inl, inr, none, refl, some, true, ◌||◌, ◌∙◌, ◌∷◌,
  ◌≡◌,
}
use ack_dms_controller.Compare.{DeltaLaws, add_checks}
use ack_dms_controller.Compare.Content.{
  Agree, add_checks-Agree, any_outside, different_except-add_checks,
}
use ack_dms_controller.Go.{returns}
use ack_dms_controller.ReplicationTask.Api.{TaskEnv}
use ack_dms_controller.ReplicationTask.Delta.{Comparisons, new_resource_delta, spec_checks}
use ack_dms_controller.ReplicationTask.DeltaContent.{start_path}
use ack_dms_controller.ReplicationTask.Hooks.{
  should_start_replication_task, should_stop_replication_task, update_requires_stop,
}
use ack_dms_controller.ReplicationTask.Sdk.{Result}
use ack_dms_controller.ReplicationTask.Starting.{CanStart, should_start_iff}
use ack_dms_controller.ReplicationTask.Stopping.{should_stop_iff, start_excludes_stop}
use ack_dms_controller.ReplicationTask.Transitions.{
  start_task-starting_call, starting_call, stop_task-stopping_call, stopping_call,
}
use ack_dms_controller.ReplicationTask.Types.{ReplicationTask}
use ack_dms_controller.ReplicationTask.Update.{sdk_update, sync_task_tags}
use ack_dms_controller.Runtime.{>>=-congr, M, World, pure, ◌>>=◌}
use ack_dms_controller.Status.{ResourceManager, deref_arn}

or_true : (b : Bool) → (b || true) ≡ true
or_true true = refl
or_true false = refl

-- The sync of the tags, and the call that stops the task unless the sync returned an error.
module _ {W E D : Type 0} (env : TaskEnv W E D) (rm : ResourceManager) where
  abbrev pub sync_then_stop : String → ReplicationTask → ReplicationTask → D → M W E (Result E)
  sync_then_stop arn desired latest delta = do
    err ← sync_task_tags env rm desired latest delta
    elim err [ some e ↦ pure (none, some e) | none ↦ stopping_call env rm arn latest ]

module _ {W E D : Type 0} (env : TaskEnv W E D) (rm : ResourceManager) (cmp : Comparisons E)
    (within : String → String → Bool) (laws : DeltaLaws env.delta_ops within) where
  -- Spec.StartReplicationTask does not lie within Spec.Tags.
  start_path_apart : within start_path "Spec.Tags" ≡ false
  start_path_apart = ground (arith, laws.within_prefix start_path "Spec.Tags")

  -- A running task that is to run is stopped for a change that needs a stop.
  stop_due :
      (b : ReplicationTask) (d : D)
      → b.status.task_status ≡ some "running"
      → b.spec.start_replication_task ≡ some true
      → env.delta_ops.different_except d (start_path ∷ "Spec.Tags" ∷ []) ≡ true
      → should_stop_replication_task env.delta_ops b (some d) ≡ returns true
  unfolding update_requires_stop
  stop_due b d runs wanted due =
      (should_stop_iff env.delta_ops b (some d)).1
        (record { runs = runs; cause = inr (inr (wanted, due)) })

  no_start_running :
      (b : ReplicationTask)
      → b.status.task_status ≡ some "running"
      → should_start_replication_task b ≡ returns false
  unfolding should_start_replication_task
  no_start_running b runs = ground arith

  -- For a task with an ARN that differs in no field and is to be started, newResourceDelta returns
  -- a delta with which sdkUpdate, in every state of AWS, calls StartReplicationTask once, with the
  -- ARN and the kind of start for the task's status, and nothing else. It returns the error of that
  -- call, or the task with the status starting.
  pub sdk_update-starts :
      (a b : ReplicationTask) (arn : String)
      → Agree (spec_checks cmp a.spec b.spec)
      → CanStart b
      → deref_arn b.status.ack ≡ returns arn
      → (d : D) × (new_resource_delta cmp env.delta_ops (some a) (some b) ≡ returns d)
        × ((w : World W E) → sdk_update env rm a b d w ≡ starting_call env rm arn b w)
  unfolding new_resource_delta sdk_update
  sdk_update-starts a b arn same_fields can has_arn =
      let ops = env.delta_ops in
      let d = ops.add ops.new_delta start_path in
      let yes = (should_start_iff b).1 can in
      let no = start_excludes_stop ops b (some d) yes in
      let no_tags : ops.different_at d "Spec.Tags" ≡ false = ground (
        arith,
        laws.at_add ops.new_delta start_path "Spec.Tags",
        laws.at_new "Spec.Tags",
        start_path_apart,
      ) in
      let more : ops.different_except d ("Spec.Tags" ∷ []) ≡ true =
        ground
          (arith, laws.except_add ops.new_delta start_path ("Spec.Tags" ∷ []), start_path_apart) in
      let only : ops.different_except d (start_path ∷ []) ≡ false = ground (
        arith,
        laws.except_add ops.new_delta start_path (start_path ∷ []),
        laws.except_new (start_path ∷ []),
        laws.within_self start_path,
      ) in
      (
        d,
        rw (yes, add_checks-Agree ops within laws _ d same_fields, no) refl,
        λ w. rw (no_tags, more, no, only, yes) (start_task-starting_call env rm b arn w has_arn),
      )

  -- For a running task with an ARN that is to run and that differs in a field other than
  -- StartReplicationTask and Tags, newResourceDelta returns a delta with which sdkUpdate, in every
  -- state of AWS, syncs the tags where they differ. Where that returns an error, sdkUpdate returns
  -- it; where it succeeds, sdkUpdate calls StopReplicationTask once, for the ARN, and nothing else,
  -- and returns the error of that call, or the task with the status stopping.
  pub sdk_update-stops :
      (a b : ReplicationTask) (arn : String)
      → b.status.task_status ≡ some "running"
      → b.spec.start_replication_task ≡ some true
      → any_outside within (start_path ∷ "Spec.Tags" ∷ []) (spec_checks cmp a.spec b.spec) ≡ true
      → deref_arn b.status.ack ≡ returns arn
      → (d : D) × (new_resource_delta cmp env.delta_ops (some a) (some b) ≡ returns d)
        × ((w : World W E) → sdk_update env rm a b d w ≡ sync_then_stop env rm arn a b d w)
  unfolding new_resource_delta sdk_update
  sdk_update-stops a b arn runs wanted changed has_arn =
      let ops = env.delta_ops in
      let checks = spec_checks cmp a.spec b.spec in
      let before = add_checks ops checks ops.new_delta in
      let d = ops.add before start_path in
      let kinds = start_path ∷ "Spec.Tags" ∷ [] in
      let due : ops.different_except before kinds ≡ true =
        different_except-add_checks ops within laws kinds checks ops.new_delta ∙ rw changed refl in
      let still_due : ops.different_except d kinds ≡ true =
        laws.except_add before start_path kinds ∙ rw due (or_true _) in
      let more : ops.different_except d ("Spec.Tags" ∷ []) ≡ true =
        laws.except_add before start_path ("Spec.Tags" ∷ []) ∙ rw start_path_apart refl in
      let halt = stop_due b before runs wanted due in
      let halt_again = stop_due b d runs wanted still_due in
      (
        d,
        rw (no_start_running b runs, halt) refl,
        >>=-congr (sync_task_tags env rm a b d) _ _ (λ err w'. elim (Option-cases err) [
          | inl none_failed ↦
              rw (none_failed, more, halt_again) (stop_task-stopping_call env rm b arn w' has_arn)
          | inr (e, failed_sync) ↦ rw failed_sync refl
        ]),
      )
