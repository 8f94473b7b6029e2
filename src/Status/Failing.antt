-- ===== src/Status/Failing.antt =====
-- An error stays an error in onError.
use ack_dms_controller.Base.{
  Bool, Bool-cases, Option, String, arith, elements, if◌then◌else◌, inl, inr, none, refl, some,
  true, ◌||◌, ◌≡◌, ◌≢◌,
}
use ack_dms_controller.Go.{Go-cases, panics, returns}
use ack_dms_controller.Runtime.{ConditionNames, Errors}
use ack_dms_controller.Status.{
  AckStatus, ResourceManager, is_in_terminal_condition, is_own_terminal, on_error, terminal_message,
  update_conditions,
}

module _ {E : Type 0} (errors : Errors E) (names : ConditionNames)
    (terminal_aws_error : Option E → Bool) (rm : ResourceManager) where
  -- What the code relies on: an error that counts as terminal is one that AWSError knows.
  abbrev pub KnowsTerminal : Type 0
  KnowsTerminal =
      (e : E) → terminal_aws_error (some e) ≡ true → (a : E) × (errors.aws_error e ≡ some a)

  terminal_message-total :
      (e : E)
      → KnowsTerminal
      → (terminal_aws_error (some e) || is_own_terminal errors names (some e)) ≡ true
      → (m : String) × (terminal_message errors names (some e) ≡ returns m)
  unfolding terminal_message
  terminal_message-total e knows h = elim (Bool-cases (is_own_terminal errors names (some e))) [
    | inl own ↦ (errors.text e, rw own refl)
    | inr foreign ↦
        let (a, known) = knows e (ground (arith, h, foreign)) in
        (errors.text a, rw (foreign, known) refl)
  ]

  update_conditions-total :
      (s : AckStatus) (e : E)
      → KnowsTerminal
      → update_conditions errors names terminal_aws_error rm s (some e) ≢ panics
  unfolding update_conditions
  update_conditions-total s e knows bad =
      elim (Bool-cases (terminal_aws_error (some e) || is_own_terminal errors names (some e))) [
        | inl is_terminal ↦
            let (m, msg) = terminal_message-total e knows is_terminal in
            cc (rw (is_terminal, msg) at bad)
        | inr mild ↦ cc (rw mild at bad)
      ]

  -- Where AWSError knows every error that counts as terminal, onError returns an error always.
  pub on_error_fails :
      (s : AckStatus) (e : E)
      → KnowsTerminal
      → (s' : AckStatus) × (e' : E) × (on_error errors names terminal_aws_error rm s e
          ≡ returns (s', some e'))
  unfolding on_error
  on_error_fails s e knows =
      elim (Go-cases (update_conditions errors names terminal_aws_error rm s (some e))) [
        | inl bad ↦ absurd (update_conditions-total s e knows bad)
        | inr (none, unchanged) ↦ (s, e, rw unchanged refl)
        | inr (some s', eq) ↦ (
          s',
          if is_in_terminal_condition errors names terminal_aws_error rm (elements s'.conditions)
              then errors.terminal
              else e,
          rw eq refl,
        )
      ]
