-- ===== src/Tests/TaskSamples.antt =====
-- A concrete API for tasks, a concrete delta, and replication tasks.
use text.Mathlib.TextLemmas.{append-nil}
use text.Mathlib.TextEquality.{starts_with_iff}
use ack_dms_controller.Base.{
  Bool, List, String, [], false, is_none, is_some, none, not, refl, some, starts_with, true, ◌==◌,
  ◌||◌, ◌∷◌,
}
use ack_dms_controller.Compare.{DeltaLaws, DeltaOps, lies_below, same_flag}
use ack_dms_controller.ReplicationTask.Api.{SdkTask, TaskApi, TaskEnv}
use ack_dms_controller.ReplicationTask.Delta.{Comparisons}
use ack_dms_controller.ReplicationTask.Types.{ReplicationTask}
use ack_dms_controller.Runtime.{reply}
use ack_dms_controller.Tags.{AckTags}
use ack_dms_controller.Tests.SampleApi.{tag_store}
use ack_dms_controller.Tests.Samples.{latest_tags, sample_errors, sample_names, sample_status}

-- An API for which every call succeeds.
abbrev pub listed_task : SdkTask
listed_task = record {
  cdc_start_position = none;
  cdc_stop_position = none;
  last_failure_message = none;
  migration_type = "cdc";
  recovery_checkpoint = none;
  replication_instance_arn = some "arn:instance";
  replication_task_arn = some "arn:task";
  replication_task_creation_date = none;
  replication_task_identifier = some "task";
  replication_task_settings = none;
  replication_task_start_date = none;
  replication_task_stats = none;
  source_endpoint_arn = some "arn:source";
  status = some "ready";
  stop_reason = none;
  table_mappings = some "{}";
  target_endpoint_arn = some "arn:target";
  target_replication_instance_arn = none;
  task_data = none;
}

abbrev pub task_api : TaskApi AckTags String
task_api = record {
  tag_api = tag_store;
  describe_replication_tasks = λ fs w. (reply (listed_task ∷ []), w);
  describe_connections = λ fs w. (reply [], w);
  create_replication_task = λ input w. (reply listed_task, w);
  modify_replication_task = λ input w. (reply listed_task, w);
  start_replication_task = λ input w. (reply tt, w);
  stop_replication_task = λ arn w. (reply tt, w);
  delete_replication_task = λ arn w. (reply tt, w);
}

-- A delta is the list of its paths, the last first; a path lies within its prefixes.
unfoldable pub different_in : List String → String → Bool
different_in [] p = false
different_in (path ∷ d) p = starts_with path p || different_in d p

unfoldable pub outside : List String → List String → Bool
outside [] ps = false
outside (path ∷ d) ps = not (lies_below starts_with path ps) || outside d ps

abbrev pub path_ops : DeltaOps (List String)
path_ops = record {
  new_delta = [];
  add = λ d path. path ∷ d;
  different_at = different_in;
  different_except = outside;
}

pub path_ops-DeltaLaws : DeltaLaws path_ops starts_with
unfolding different_in outside
path_ops-DeltaLaws = record {
  at_new = λ p. refl;
  at_add = λ d path p. refl;
  except_new = λ ps. refl;
  except_add = λ d path ps. refl;
  within_self = λ p. (starts_with_iff p p).1 ("", append-nil p);
  within_prefix = λ p s h. h;
}

abbrev pub comparisons : Comparisons String
comparisons = record {
  nil_difference_text = λ a b. same_flag (is_some a) (is_none b);
  nil_difference_time = λ a b. same_flag (is_some a) (is_none b);
  nil_difference_bool = λ a b. same_flag (is_some a) (is_none b);
  document_equal = λ x y. reply (x == y);
  deep_equal = λ a b. true;
  tags_equal = λ a b. true;
  time_equal = λ a b. true;
}

abbrev pub sample_env : TaskEnv AckTags String (List String)
sample_env = record {
  api = task_api;
  errors = sample_errors;
  names = sample_names;
  delta_ops = path_ops;
  json_indent = λ s. reply s;
  set_synced = λ status message reason s. s;
}

-- A task that is asked to run.
abbrev pub task_at : String → ReplicationTask
task_at s = record {
  namespace = "default";
  deletion_timestamp = none;
  finalizers = [];
  annotations = none;
  spec = record {
    cdc_start_position = none;
    cdc_start_time = none;
    cdc_stop_position = none;
    migration_type = some "cdc";
    name = some "task";
    replication_instance_arn = some "arn:instance";
    replication_instance_ref = none;
    resource_identifier = none;
    source_endpoint_arn = some "arn:source";
    source_endpoint_ref = none;
    start_replication_task = some true;
    table_mappings = some "{}";
    tags = some latest_tags;
    target_endpoint_arn = some "arn:target";
    target_endpoint_ref = none;
    task_data = none;
    task_settings = none;
  };
  status = record {
    ack = sample_status;
    creation_date = none;
    last_failure_message = none;
    recovery_checkpoint = none;
    source_endpoint_connection_last_failure_message = none;
    source_endpoint_connection_status = some "successful";
    start_date = none;
    stats = none;
    stop_reason = none;
    target_endpoint_connection_last_failure_message = none;
    target_endpoint_connection_status = some "successful";
    target_replication_instance_arn = none;
    task_status = some s;
  };
}

-- A running task whose deletion is requested.
abbrev pub deleted_task : ReplicationTask
deleted_task = record (task_at "running") { deletion_timestamp = some 7 }
