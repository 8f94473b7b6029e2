-- ===== src/Status/Outcome.antt =====
-- What onError and onSuccess return.
use ack_dms_controller.Base.{
  Bool, List, Option, String, [], arith, elements, eq_iff, eq_refl, false, inl, inr, none,
  or_default, refl, some, sym, true, ◌||◌, ◌∙◌, ◌∷◌, ◌≡◌, ◌≢◌,
}
use ack_dms_controller.Go.{returns}
use ack_dms_controller.Runtime.{AreDistinct, ConditionNames, Errors}
use ack_dms_controller.Status.{
  AckStatus, Condition, ResourceManager, find_last, has_own_condition, is_in_terminal_condition,
  is_own_terminal, new_condition, on_error, on_success, terminal_message, update_conditions,
  with_status,
}
use ack_dms_controller.Status.Conditions.{
  after_clear, update_conditions-clear, update_conditions-terminal,
}
use ack_dms_controller.Status.Single.{IsSingle, update_conditions-IsSingle}

module _ {E : Type 0} (errors : Errors E) (names : ConditionNames) where
  no_terminal :
      (cs : List Condition)
      → has_own_condition errors names cs ≡ false
      → find_last names.terminal cs ≡ none
  unfolding has_own_condition
  no_terminal cs bare = ground arith

  -- A terminal condition that was cleared is False.
  cleared_status :
      (cs : List Condition) (c : Condition)
      → AreDistinct names
      → (err : Option E) → after_clear errors names err names.terminal cs ≡ some c
      → c.status ≢ names.status_true
  cleared_status cs c d err e =
      ground (arith, e, d.true_false, eq_iff names.terminal names.terminal)

  module _ (terminal_aws_error : Option E → Bool) (rm : ResourceManager) where
    in_terminal_of_find :
        (cs : List Condition) (c : Condition)
        → find_last names.terminal cs ≡ some c
        → c.status ≡ names.status_true
        → is_in_terminal_condition errors names terminal_aws_error rm cs ≡ true
    unfolding is_in_terminal_condition
    in_terminal_of_find [] c f e = cc
    in_terminal_of_find (d ∷ cs) c f e = ground (
      arith,
      in_terminal_of_find cs c,
      eq_iff d.type names.terminal,
      eq_iff d.status names.status_true,
    )

    not_in_terminal :
        (cs : List Condition)
        → IsSingle names.terminal cs
        → ((c : Condition) → find_last names.terminal cs ≡ some c → c.status ≢ names.status_true)
        → is_in_terminal_condition errors names terminal_aws_error rm cs ≡ false
    unfolding is_in_terminal_condition
    not_in_terminal [] h never = refl
    not_in_terminal (d ∷ cs) h never =
        let rest = not_in_terminal cs h.1 (λ c e. never c (ground (arith, e))) in
        ground (arith, rest, h.0, never d, eq_iff d.status names.status_true)

    -- On an error that is terminal with message `m`, onError returns the status that
    -- updateConditions returns, and ackerr.Terminal in place of the error.
    pub on_error-terminal :
        (s : AckStatus) (e : E) (m : String)
        → (terminal_aws_error (some e) || is_own_terminal errors names (some e)) ≡ true
        → terminal_message errors names (some e) ≡ returns m
        → (s' : AckStatus) × (update_conditions errors names terminal_aws_error rm s (some e)
            ≡ returns (some s'))
          × (on_error errors names terminal_aws_error rm s e ≡ returns (s', some errors.terminal))
    unfolding on_error
    on_error-terminal s e m is_terminal msg =
        let (s', eq, found) =
          update_conditions-terminal errors names terminal_aws_error rm s (some e) m is_terminal
            msg in
        let in_terminal =
          in_terminal_of_find (elements s'.conditions)
            (with_status names.status_true (some m) (
              or_default (find_last names.terminal (elements s.conditions))
                (new_condition names.terminal)))
            (found names.terminal ∙ rw eq_refl refl) refl in
        (s', eq, rw eq (rw in_terminal refl))

    -- On any other error, for a resource with one terminal condition at most, onError hands the
    -- error on: it returns the error itself, with a status whose recoverable condition is True with
    -- the error's message and whose terminal condition, if there is one, is False.
    pub on_error-recoverable :
        (s : AckStatus) (e : E)
        → AreDistinct names
        → IsSingle names.terminal (elements s.conditions)
        → (terminal_aws_error (some e) || is_own_terminal errors names (some e)) ≡ false
        → (s' : AckStatus) × (on_error errors names terminal_aws_error rm s e
            ≡ returns (s', some e))
          × ((t : String)
              → find_last t (elements s'.conditions)
                ≡ after_clear errors names (some e) t (elements s.conditions))
    unfolding on_error
    on_error-recoverable s e d single not_terminal =
        elim (update_conditions-clear errors names terminal_aws_error rm s (some e)
          d.terminal_recoverable not_terminal) [
            | inl (s', eq, found) ↦
                let quiet =
                  not_in_terminal (elements s'.conditions)
                    (update_conditions-IsSingle errors names terminal_aws_error rm s s' (some e)
                      names.terminal single eq)
                    (λ c hit.
                      cleared_status (elements s.conditions) c d (some e)
                        (sym (found names.terminal) ∙ hit)) in
                (s', rw eq (rw quiet refl), found)
            | inr (eq, bad, bare) ↦ absurd (cc bad)
          ]

    -- On success, for a resource with one terminal condition at most, onSuccess returns no error,
    -- and a status in which no terminal condition is True.
    pub on_success-quiet :
        (s : AckStatus)
        → AreDistinct names
        → IsSingle names.terminal (elements s.conditions)
        → terminal_aws_error none ≡ false
        → (s' : AckStatus) × (on_success errors names terminal_aws_error rm s ≡ returns (s', none))
          × (is_in_terminal_condition errors names terminal_aws_error rm (elements s'.conditions)
              ≡ false)
    unfolding on_success
    on_success-quiet s d single not_terminal =
        let plain : (terminal_aws_error none || false) ≡ false = rw not_terminal refl in
        elim (update_conditions-clear errors names terminal_aws_error rm s none
          d.terminal_recoverable plain) [
            | inl (s', eq, found) ↦
                let quiet =
                  not_in_terminal (elements s'.conditions)
                    (update_conditions-IsSingle errors names terminal_aws_error rm s s' none
                      names.terminal single eq)
                    (λ c hit.
                      cleared_status (elements s.conditions) c d none
                        (sym (found names.terminal) ∙ hit)) in
                (s', rw eq refl, quiet)
            | inr (eq, no_error, bare) ↦
                let absent = no_terminal (elements s.conditions) bare in
                (
                  s,
                  rw eq refl,
                  not_in_terminal (elements s.conditions) single
                      (λ c hit. absurd (cc (absent, hit))),
                )
          ]
