-- ===== src/Tests/ReferenceSamples.antt =====
-- A concrete Kubernetes API for references.
use ack_dms_controller.Base.{String, [], none, or_default, some, ◌∷◌}
use ack_dms_controller.References.{ReferenceEnv, Referenced}
use ack_dms_controller.Resource.{ReferenceWrapper}
use ack_dms_controller.Runtime.{reply}
use ack_dms_controller.Tests.Samples.{sample_names}

-- Resources that are synced, each with the ARN of its name; one namespace may refer to another.
abbrev pub synced : Referenced
synced = record {
  conditions =
      some (
        record { type = "ACK.ResourceSynced"; status = "True"; message = none; reason = none }
        ∷ []);
  target = some "arn:found";
}

abbrev pub reference_env : ReferenceEnv String
reference_env = record {
  get = λ kind namespace name. reply synced;
  resolve_cross_namespace = λ cs home asked name. (cs, reply (or_default asked home));
  names = sample_names;
  errorf = λ t. t;
  reference_and_id_not_supported_for = λ id ref. "both";
  reference_or_id_required_for = λ id ref. "neither";
  reference_terminal_for = λ kind namespace name. "terminal";
  reference_not_synced_for = λ kind namespace name. "not synced";
  reference_missing_target_field_for = λ kind namespace name field. "no field";
}

abbrev pub reference_to : String → ReferenceWrapper
reference_to name = record { from = some (record { name = some name; namespace = none }) }
