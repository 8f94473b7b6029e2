-- ===== src/Status/Conditions.antt =====
-- The conditions that updateConditions leaves, by their types.
use mathlib.Core.Option
use ack_dms_controller.Base.{
  Bool, Bool-cases, List, Option, Option-cases, String, [], arith, elements, eq_iff, false,
  if◌then◌else◌, inl, inr, none, or_default, refl, some, true, ◌++◌, ◌==◌, ◌||◌, ◌∷◌, ◌≡◌, ◌≢◌, ◌⊎◌,
}
use ack_dms_controller.Go.{returns}
use ack_dms_controller.Runtime.{ConditionNames, Errors}
use ack_dms_controller.Status.{
  AckStatus, Condition, ResourceManager, clear_terminal, ensure_condition, find_last,
  has_own_condition, is_own_terminal, new_condition, recoverable_message, set_status_defaults,
  terminal_message, update_conditions, update_last, with_status,
}

pub find_last-append :
    (t : String) (cs ds : List Condition)
    → find_last t (cs ++ ds) ≡ elim (find_last t ds) [ none ↦ find_last t cs | some d ↦ some d ]
find_last-append t [] ds = ground arith
find_last-append t (c ∷ cs) ds = ground (arith, find_last-append t cs ds)

find_last-type :
    (t : String) (cs : List Condition) (d : Condition) → find_last t cs ≡ some d → d.type ≡ t
find_last-type t [] d h = cc
find_last-type t (c ∷ cs) d h = ground (arith, find_last-type t cs d, eq_iff c.type t)

-- A write through the pointer to the last condition of type `u` is seen under `u` alone.
pub find_last-update_last :
    (t u : String) (status : String) (message : Option String) (cs : List Condition)
    → find_last t (update_last u (with_status status message) cs) ≡ (
        if u == t then Option.map (with_status status message) (find_last t cs) else find_last t cs)
find_last-update_last t u s m [] = ground arith
find_last-update_last t u s m (c ∷ cs) =
    ground (arith, find_last-update_last t u s m cs, eq_iff u t, eq_iff c.type t, eq_iff c.type u)

pub find_last-ensure :
    (t u : String) (cs : List Condition)
    → find_last t (ensure_condition u cs)
      ≡ (if u == t then some (or_default (find_last u cs) (new_condition u)) else find_last t cs)
unfolding ensure_condition
find_last-ensure t u cs = elim (Option-cases (find_last u cs)) [
  | inl absent ↦
      rw absent (ground (arith, find_last-append t cs (new_condition u ∷ []), eq_iff u t))
  | inr (c, found) ↦ rw found (ground (arith, eq_iff u t))
]

module _ {E : Type 0} (errors : Errors E) (names : ConditionNames) where
  -- What updateConditions makes of the last condition of type `t`, for an error that is terminal
  -- with message `m`.
  abbrev pub after_terminal : String → String → List Condition → Option Condition
  after_terminal m t cs =
      if names.terminal == t
      then some (
          with_status names.status_true (some m)
            (or_default (find_last t cs) (new_condition names.terminal)))
      else find_last t cs

  -- The same for no error, or an error that is not terminal.
  abbrev pub after_clear : Option E → String → List Condition → Option Condition
  after_clear err t cs =
      if names.terminal == t
      then Option.map (with_status names.status_false none) (find_last t cs)
      else if names.recoverable == t
      then elim err [
        | none ↦ Option.map (with_status names.status_false none) (find_last t cs)
        | some e ↦ some (
            with_status names.status_true (some (recoverable_message errors names e))
              (or_default (find_last t cs) (new_condition names.recoverable)))
      ]
      else find_last t cs

  pub find_last-clear_terminal :
      (t : String) (err : Option E) (cs : List Condition)
      → names.terminal ≢ names.recoverable
      → find_last t (clear_terminal errors names err cs) ≡ after_clear err t cs
  unfolding clear_terminal
  find_last-clear_terminal t none cs d =
      let cleared = update_last names.terminal (with_status names.status_false none) cs in
      ground (
        arith,
        find_last-update_last t names.recoverable names.status_false none cleared,
        find_last-update_last t names.terminal names.status_false none cs,
        eq_iff names.terminal t,
        eq_iff names.recoverable t,
      )
  find_last-clear_terminal t (some e) cs d =
      let cleared = update_last names.terminal (with_status names.status_false none) cs in
      let m = some (recoverable_message errors names e) in
      ground (
        arith,
        find_last-update_last t names.recoverable names.status_true m
            (ensure_condition names.recoverable cleared),
        find_last-ensure t names.recoverable cleared,
        find_last-update_last t names.terminal names.status_false none cs,
        eq_iff names.terminal t,
        eq_iff names.recoverable t,
      )

  no_own_condition :
      (err : Option E) (cs : List Condition)
      → names.terminal ≢ names.recoverable
      → has_own_condition errors names (clear_terminal errors names err cs) ≡ false
      → (err ≡ none) × (has_own_condition errors names cs ≡ false)
  unfolding has_own_condition
  no_own_condition none cs d bare = ground (
    arith,
    find_last-clear_terminal names.terminal none cs d,
    find_last-clear_terminal names.recoverable none cs d,
    find_last-clear_terminal names.resource_synced none cs d,
    eq_iff names.terminal names.terminal,
    eq_iff names.terminal names.recoverable,
    eq_iff names.recoverable names.recoverable,
    eq_iff names.terminal names.resource_synced,
    eq_iff names.recoverable names.resource_synced,
  )
  no_own_condition (some e) cs d bare = ground (
    arith,
    find_last-clear_terminal names.recoverable (some e) cs d,
    eq_iff names.terminal names.recoverable,
    eq_iff names.recoverable names.recoverable,
  )

  module _ (terminal_aws_error : Option E → Bool) (rm : ResourceManager) where
    -- For a terminal error with message `m`, updateConditions returns a status whose terminal
    -- condition is True with that message, and whose conditions of every other type are as they were.
    pub update_conditions-terminal :
        (s : AckStatus) (err : Option E) (m : String)
        → (terminal_aws_error err || is_own_terminal errors names err) ≡ true
        → terminal_message errors names err ≡ returns m
        → (s' : AckStatus) × (update_conditions errors names terminal_aws_error rm s err
            ≡ returns (some s'))
          × ((t : String)
              → find_last t (elements s'.conditions) ≡ after_terminal m t (elements s.conditions))
    unfolding update_conditions
    update_conditions-terminal s err m is_terminal msg =
        let cs = elements s.conditions in
        (
          record (set_status_defaults rm s) {
            conditions = some (
                update_last names.terminal (with_status names.status_true (some m))
                  (ensure_condition names.terminal cs));
          },
          rw (is_terminal, msg) refl,
          λ t. ground (
            arith,
            find_last-update_last t names.terminal names.status_true (some m)
                (ensure_condition names.terminal cs),
            find_last-ensure t names.terminal cs,
            eq_iff names.terminal t,
          ),
        )

    -- For no error, or one that is not terminal, updateConditions does not panic; where it returns
    -- a status, the terminal condition, if there is one, is False, the recoverable condition tells
    -- of the error (True with its message, or False where it stood and there is none), and the
    -- conditions of every other type are as they were; where it returns none there is no error and
    -- no condition of the three types.
    pub update_conditions-clear :
        (s : AckStatus) (err : Option E)
        → names.terminal ≢ names.recoverable
        → (terminal_aws_error err || is_own_terminal errors names err) ≡ false
        → ((s' : AckStatus) × (update_conditions errors names terminal_aws_error rm s err
              ≡ returns (some s'))
            × ((t : String)
                → find_last t (elements s'.conditions) ≡ after_clear err t (elements s.conditions)))
          ⊎ ((update_conditions errors names terminal_aws_error rm s err ≡ returns none)
              × (err ≡ none)
              × (has_own_condition errors names (elements s.conditions) ≡ false))
    unfolding update_conditions
    update_conditions-clear s err d not_terminal =
        let cs = elements s.conditions in
        let cs' = clear_terminal errors names err cs in
        let found = λ (t : String). find_last-clear_terminal t err cs d in
        elim (Bool-cases (has_own_condition errors names cs')) [
          | inl own ↦ inl (
            record (set_status_defaults rm s) { conditions = some cs' },
            rw (not_terminal, own) refl,
            found,
          )
          | inr bare ↦
              let (no_error, none_found) = no_own_condition err cs d bare in
              inr (rw (not_terminal, bare) refl, no_error, none_found)
        ]
