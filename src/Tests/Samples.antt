-- ===== src/Tests/Samples.antt =====
-- The concrete parameters, tags and statuses of the tests.
use ack_dms_controller.Base.{
  List, String, [], arith, eq_iff, none, or_default, refl, some, ◌==◌, ◌∷◌,
}
use ack_dms_controller.Base.Dict.{lookup}
use ack_dms_controller.Runtime.{AreDistinct, ConditionNames, Errors}
use ack_dms_controller.Status.{AckStatus, Metadata, ResourceManager}
use ack_dms_controller.Tags.{AckTags, Tag, tag_of, tags_of}
use ack_dms_controller.Tags.Convert.{IsCanonical, IsRange, canonical}

abbrev pub in_order : AckTags → AckTags
in_order m = m

pub in_order-IsRange : IsRange in_order
in_order-IsRange = record { same = λ m k. refl; once = λ m h. h }

abbrev pub desired_tags : List Tag
desired_tags = tag_of "env" "prod" ∷ tag_of "team" "data" ∷ []

abbrev pub latest_tags : List Tag
latest_tags = tag_of "env" "dev" ∷ tag_of "owner" "me" ∷ []

abbrev pub reordered_tags : List Tag
reordered_tags = tag_of "team" "data" ∷ tag_of "env" "prod" ∷ []

pub desired_tags-IsCanonical : IsCanonical desired_tags
unfolding tags_of lookup
desired_tags-IsCanonical = canonical (("env", "prod") ∷ ("team", "data") ∷ []) (refl, (refl, tt))

pub reordered_tags-IsCanonical : IsCanonical reordered_tags
unfolding tags_of lookup
reordered_tags-IsCanonical = canonical (("team", "data") ∷ ("env", "prod") ∷ []) (refl, (refl, tt))

abbrev pub sample_errors : Errors String
sample_errors = record {
  not_found = "not found";
  terminal = "terminal";
  secret_type_not_supported = "secret type";
  secret_not_found = "secret";
  same = λ a b. a == b;
  is_terminal_error = λ e. e == "terminal error";
  api_error_code = λ e. some e;
  aws_error = λ e. some e;
  text = λ e. e;
  errorf = λ t. t;
  new_terminal_error = λ e. e;
  needed = λ e. e;
  needed_after = λ e seconds. or_default e "requeue";
}

abbrev pub sample_names : ConditionNames
sample_names = record {
  terminal = "ACK.Terminal";
  recoverable = "ACK.Recoverable";
  resource_synced = "ACK.ResourceSynced";
  late_initialized = "ACK.LateInitialized";
  status_true = "True";
  status_false = "False";
}

abbrev pub account : ResourceManager
account = record {
  aws_account_id = "111122223333";
  aws_region = "eu-west-1";
  aws_partition = "aws";
}

abbrev pub sample_metadata : Metadata
sample_metadata = record {
  arn = some "arn:task";
  owner_account_id = some "111122223333";
  region = none;
  partition = none;
}

-- A status with a condition that was terminal.
abbrev pub sample_status : AckStatus
sample_status = record {
  metadata = some sample_metadata;
  conditions =
      some (
        record { type = "ACK.Terminal"; status = "True"; message = some "old"; reason = none }
        ∷ []);
}

pub sample_names-AreDistinct : AreDistinct sample_names
sample_names-AreDistinct = record {
  terminal_recoverable = λ e. ground (arith, e, eq_iff "ACK.Terminal" "ACK.Recoverable");
  true_false = λ e. ground (arith, e, eq_iff "True" "False");
}
