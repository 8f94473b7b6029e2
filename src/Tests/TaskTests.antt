-- ===== src/Tests/TaskTests.antt =====
-- The theorems on replication tasks at concrete inputs.
use ack_dms_controller.Base.{
  All, List, String, [], arith, eq_iff, false, none, refl, some, starts_with, subst, true, ◌++◌,
  ◌↔◌, ◌∷◌, ◌≡◌,
}
use ack_dms_controller.Go.{returns}
use ack_dms_controller.Manager.TaskDeletion.{delete_task, delete_task-fails}
use ack_dms_controller.ReplicationTask.Creation.{IsOutcome, sdk_create-IsOutcome}
use ack_dms_controller.ReplicationTask.Delete.{sdk_delete}
use ack_dms_controller.ReplicationTask.Deletion.{DeleteStep, Requeues, sdk_delete-Requeues}
use ack_dms_controller.ReplicationTask.Delta.{new_resource_delta, spec_checks}
use ack_dms_controller.ReplicationTask.DeltaFields.{ShowsFields, new_resource_delta-ShowsFields}
use ack_dms_controller.ReplicationTask.FindParts.{
  AnswersCompletely, HasEndpoint, IsComplete, ReturnsOutcome, reply_injective,
}
use ack_dms_controller.ReplicationTask.Finding.{sdk_find-ReturnsOutcome}
use ack_dms_controller.ReplicationTask.Hooks.{
  should_start_replication_task, should_stop_replication_task,
}
use ack_dms_controller.ReplicationTask.Routing.{MakesPermittedCall, update_task-Permitted}
use ack_dms_controller.ReplicationTask.Sdk.{Result, sdk_create, sdk_find}
use ack_dms_controller.ReplicationTask.Settling.{
  sdk_update-starts, sdk_update-stops, sync_then_stop,
}
use ack_dms_controller.ReplicationTask.Starting.{CanStart, should_start_iff}
use ack_dms_controller.ReplicationTask.Stopping.{MustStop, should_stop_iff, start_excludes_stop}
use ack_dms_controller.ReplicationTask.Syncing.{LeavesUnsynced, stop_start-LeavesUnsynced}
use ack_dms_controller.ReplicationTask.Transitions.{starting_call}
use ack_dms_controller.ReplicationTask.Types.{ReplicationTask}
use ack_dms_controller.ReplicationTask.Update.{sdk_update, start_task, stop_task, update_task}
use ack_dms_controller.Runtime.{ApiCall, AtMostOneCall, World}
use ack_dms_controller.Status.{deref_arn}
use ack_dms_controller.Tags.{AckTags}
use ack_dms_controller.Tests.SampleApi.{tag_world}
use ack_dms_controller.Tests.Samples.{account, in_order}
use ack_dms_controller.Tests.TaskSamples.{
  comparisons, deleted_task, listed_task, path_ops, path_ops-DeltaLaws, sample_env, task_api,
  task_at,
}

should_start_iff_example :
    (should_start_replication_task (task_at "ready") ≡ returns true) ↔ CanStart (task_at "ready")
should_start_iff_example = should_start_iff (task_at "ready")

should_stop_iff_example :
    (should_stop_replication_task path_ops (task_at "running") (some ("Spec.TableMappings" ∷ []))
      ≡ returns true)
    ↔ MustStop path_ops (task_at "running") (some ("Spec.TableMappings" ∷ []))
should_stop_iff_example =
    should_stop_iff path_ops (task_at "running") (some ("Spec.TableMappings" ∷ []))

start_excludes_stop_example :
    should_stop_replication_task path_ops (task_at "ready") none ≡ returns false
unfolding should_start_replication_task
start_excludes_stop_example = start_excludes_stop path_ops (task_at "ready") none refl

update_task-Permitted_example :
    MakesPermittedCall sample_env account
      (task_at "running")
      ("Spec.TableMappings" ∷ [])
      tag_world
      (update_task sample_env account
        (task_at "running")
        (task_at "running")
        ("Spec.TableMappings" ∷ []))
unfolding deref_arn
update_task-Permitted_example =
    update_task-Permitted sample_env account (task_at "running") (task_at "running")
      ("Spec.TableMappings" ∷ []) "arn:task" "cdc" tag_world refl refl

sdk_delete-Requeues_example :
    Requeues sample_env account tag_world
      (DeleteStep deleted_task)
      (sdk_delete sample_env account deleted_task)
unfolding deref_arn
sdk_delete-Requeues_example =
    sdk_delete-Requeues sample_env account deleted_task "arn:task" tag_world refl refl

-- The task with other table mappings.
abbrev remapped_task : ReplicationTask
remapped_task = record (task_at "ready") {
  spec = record ((task_at "ready").spec) { table_mappings = some "{1}" };
}

new_resource_delta-ShowsFields_example :
    (d : List String) × (new_resource_delta comparisons path_ops
        (some remapped_task)
        (some (task_at "running"))
      ≡ returns d)
    × ShowsFields comparisons path_ops d remapped_task.spec (task_at "running").spec
new_resource_delta-ShowsFields_example =
    new_resource_delta-ShowsFields comparisons path_ops starts_with path_ops-DeltaLaws remapped_task
      (task_at "running") "cdc" refl

ready_starts : should_start_replication_task (task_at "ready") ≡ returns true
unfolding should_start_replication_task
ready_starts = refl

never_stops : ¬ MustStop path_ops (task_at "starting") (some [])
never_stops m = ground (arith, m.runs, eq_iff "starting" "running")

sdk_update-starts_example :
    (d : List String) × (new_resource_delta comparisons path_ops
        (some (task_at "ready"))
        (some (task_at "ready"))
      ≡ returns d)
    × ((w : World AckTags String)
        → sdk_update sample_env account (task_at "ready") (task_at "ready") d w
          ≡ starting_call sample_env account "arn:task" (task_at "ready") w)
unfolding deref_arn spec_checks
sdk_update-starts_example =
    sdk_update-starts sample_env account comparisons starts_with path_ops-DeltaLaws
      (task_at "ready") (task_at "ready") "arn:task"
      (
        refl,
        (
          refl,
          (
            refl,
            (
              refl,
              (
                refl,
                (
                  refl,
                  (
                    refl,
                    (
                      refl,
                      (refl, (refl, (refl, (refl, (refl, (refl, (refl, (refl, (refl, tt))))))))),
                    ),
                  ),
                ),
              ),
            ),
          ),
        ),
      )
      ((should_start_iff (task_at "ready")).0 ready_starts) refl

sdk_update-stops_example :
    (d : List String) × (new_resource_delta comparisons path_ops
        (some remapped_task)
        (some (task_at "running"))
      ≡ returns d)
    × ((w : World AckTags String)
        → sdk_update sample_env account remapped_task (task_at "running") d w
          ≡ sync_then_stop sample_env account "arn:task" remapped_task (task_at "running") d w)
unfolding deref_arn spec_checks
sdk_update-stops_example =
    sdk_update-stops sample_env account comparisons starts_with path_ops-DeltaLaws remapped_task
      (task_at "running") "arn:task" refl refl refl refl

delete_task-fails_example :
    (r' res : ReplicationTask) × (err : String) × (w' : World AckTags String) × (delete_task
        sample_env account in_order deleted_task tag_world
      ≡ returns ((r', (some res, some err)), w'))
    × AtMostOneCall tag_world.metrics w'.metrics (DeleteStep deleted_task)
unfolding deref_arn
delete_task-fails_example =
    delete_task-fails sample_env account in_order deleted_task "arn:task" tag_world
      (λ e code h. (e, refl)) refl refl

sdk_create-IsOutcome_example :
    (res : Result String) × (w' : World AckTags String) × (c : ApiCall String) × (sdk_create
        sample_env account
        (task_at "ready")
        tag_world
      ≡ returns (res, w'))
    × (w'.metrics ≡ [] ++ (c ∷ []))
    × (c.op_id ≡ "CreateReplicationTask")
    × IsOutcome sample_env account "resource created, requeue for start" res
sdk_create-IsOutcome_example = sdk_create-IsOutcome sample_env account (task_at "ready") tag_world

task_api-AnswersCompletely : AnswersCompletely task_api
task_api-AnswersCompletely = record {
  tasks = λ fs w ts e.
      subst (All IsComplete) (reply_injective (listed_task ∷ []) e)
        ((λ h. cc h, λ h. cc h, λ h. cc h), tt);
  connections = λ fs w cs e. subst (All HasEndpoint) (reply_injective [] e) tt;
}

sdk_find-ReturnsOutcome_example :
    ReturnsOutcome tag_world (sdk_find sample_env account (task_at "ready"))
sdk_find-ReturnsOutcome_example =
    sdk_find-ReturnsOutcome sample_env account (task_at "ready") tag_world
      task_api-AnswersCompletely

stop_start-LeavesUnsynced_example :
    LeavesUnsynced sample_env account tag_world (stop_task sample_env account (task_at "running"))
    × LeavesUnsynced sample_env account tag_world
        (start_task sample_env account (task_at "running"))
unfolding deref_arn
stop_start-LeavesUnsynced_example =
    stop_start-LeavesUnsynced sample_env account (task_at "running") "arn:task" tag_world refl
