-- ===== src/Tests/StatusTests.antt =====
-- The theorems on conditions at concrete inputs.
use ack_dms_controller.Base.{
  Bool, Option, String, [], elements, false, none, refl, some, ◌∷◌, ◌≡◌, ◌⊎◌,
}
use ack_dms_controller.Go.{returns}
use ack_dms_controller.Status.{
  AckStatus, find_last, has_own_condition, is_in_terminal_condition, on_error, on_success,
  terminal_message, update_conditions,
}
use ack_dms_controller.Status.Conditions.{
  after_clear, after_terminal, update_conditions-clear, update_conditions-terminal,
}
use ack_dms_controller.Status.Outcome.{on_error-recoverable, on_error-terminal, on_success-quiet}
use ack_dms_controller.Status.Single.{IsSingle, update_conditions-IsSingle}
use ack_dms_controller.Tests.Samples.{
  account, sample_errors, sample_metadata, sample_names, sample_names-AreDistinct, sample_status,
}

abbrev never : Option String → Bool
never err = false

sample-IsSingle : IsSingle "ACK.Terminal" (elements sample_status.conditions)
sample-IsSingle = (λ here. refl, tt)

update_conditions-terminal_example :
    (s' : AckStatus) × (update_conditions sample_errors sample_names never account sample_status
        (some "terminal error")
      ≡ returns (some s'))
    × ((t : String)
        → find_last t (elements s'.conditions)
          ≡ after_terminal sample_errors sample_names "terminal error" t
              (elements sample_status.conditions))
unfolding terminal_message
update_conditions-terminal_example =
    update_conditions-terminal sample_errors sample_names never account sample_status
      (some "terminal error") "terminal error" refl refl

abbrev throttled : Option String
throttled = some "throttled"

update_conditions-clear_example :
    ((s' : AckStatus) × (update_conditions sample_errors sample_names never account sample_status
          throttled
        ≡ returns (some s'))
      × ((t : String)
          → find_last t (elements s'.conditions)
            ≡ after_clear sample_errors sample_names throttled t
                (elements sample_status.conditions)))
    ⊎ ((update_conditions sample_errors sample_names never account sample_status throttled
          ≡ returns none)
        × (throttled ≡ none)
        × (has_own_condition sample_errors sample_names (elements sample_status.conditions)
            ≡ false))
update_conditions-clear_example =
    update_conditions-clear sample_errors sample_names never account sample_status throttled
      sample_names-AreDistinct.terminal_recoverable refl

-- What updateConditions makes of the sample when there is no error.
abbrev cleared_status : AckStatus
cleared_status = record {
  metadata = some (record sample_metadata { region = some "eu-west-1"; partition = some "aws" });
  conditions =
      some (record { type = "ACK.Terminal"; status = "False"; message = none; reason = none } ∷ []);
}

cleared :
    update_conditions sample_errors sample_names never account sample_status none
    ≡ returns (some cleared_status)
unfolding update_conditions
cleared = refl

update_conditions-IsSingle_example : IsSingle "ACK.Terminal" (elements cleared_status.conditions)
update_conditions-IsSingle_example =
    update_conditions-IsSingle sample_errors sample_names never account sample_status cleared_status
      none "ACK.Terminal" sample-IsSingle cleared

on_error-terminal_example :
    (s' : AckStatus) × (update_conditions sample_errors sample_names never account sample_status
        (some "terminal error")
      ≡ returns (some s'))
    × (on_error sample_errors sample_names never account sample_status "terminal error"
        ≡ returns (s', some "terminal"))
unfolding terminal_message
on_error-terminal_example =
    on_error-terminal sample_errors sample_names never account sample_status "terminal error"
      "terminal error" refl refl

on_error-recoverable_example :
    (s' : AckStatus) × (on_error sample_errors sample_names never account sample_status "throttled"
      ≡ returns (s', some "throttled"))
    × ((t : String)
        → find_last t (elements s'.conditions)
          ≡ after_clear sample_errors sample_names
              (some "throttled")
              t
              (elements sample_status.conditions))
on_error-recoverable_example =
    on_error-recoverable sample_errors sample_names never account sample_status "throttled"
      sample_names-AreDistinct sample-IsSingle refl

on_success-quiet_example :
    (s' : AckStatus) × (on_success sample_errors sample_names never account sample_status
      ≡ returns (s', none))
    × (is_in_terminal_condition sample_errors sample_names never account (elements s'.conditions)
        ≡ false)
on_success-quiet_example =
    on_success-quiet sample_errors sample_names never account sample_status sample_names-AreDistinct
      sample-IsSingle refl
