-- ===== src/Status.antt =====
-- The part of every resource's Status that the ACK runtime reads: its metadata and conditions,
-- with setStatusDefaults, updateConditions, onError and onSuccess, which every package below
-- pkg/resource has as one text (cited here from pkg/resource/replication_task). A pointer is an
-- `Option`; the pointer that a loop leaves on a condition is a write to the last one of its type.
pub mod Conditions
pub mod Single
pub mod Outcome
pub mod Failing
use ack_dms_controller.Base.{
  Bool, List, Option, String, [], elements, false, if◌then◌else◌, is_some, none, or_default, some,
  ◌&&◌, ◌++◌, ◌==◌, ◌||◌, ◌∷◌,
}
use ack_dms_controller.Go.{Go, deref, panics, returns, ◌>>=◌}
use ack_dms_controller.Runtime.{ConditionNames, Errors}

-- `ackv1alpha1.ResourceMetadata`
pub record Metadata : Type 0 where
  pub arn : Option String
  pub owner_account_id : Option String
  pub region : Option String
  pub partition : Option String

-- `ackv1alpha1.Condition`, less its transition time, which no code here reads.
pub record Condition : Type 0 where
  pub type : String
  pub status : String
  pub message : Option String
  pub reason : Option String

pub record AckStatus : Type 0 where
  pub metadata : Option Metadata
  pub conditions : Option (List Condition)

-- The fields of `resourceManager` that its methods read.
pub record ResourceManager : Type 0 where
  pub aws_account_id : String
  pub aws_region : String
  pub aws_partition : String

abbrev pub no_metadata : Metadata
no_metadata = record { arn = none; owner_account_id = none; region = none; partition = none }

-- The ARN, where the response has one; `fresh` makes the metadata also where it has none.
abbrev pub with_arn : Bool → Option String → AckStatus → AckStatus
with_arn fresh none s = record s {
  metadata = if fresh then some (or_default s.metadata no_metadata) else s.metadata;
}
with_arn fresh (some arn) s = record s {
  metadata = some (record (or_default s.metadata no_metadata) { arn = some arn });
}

-- `(*string)(r.ko.Status.ACKResourceMetadata.ARN)`, where both are there.
unfoldable pub arn_of : AckStatus → Option String
arn_of s = elim s.metadata [ none ↦ none | some m ↦ m.arn ]

-- `*ko.Status.ACKResourceMetadata.ARN`
unfoldable pub deref_arn : AckStatus → Go String
deref_arn s = do m ← deref s.metadata; deref m.arn

unfoldable pub set_status_defaults : ResourceManager → AckStatus → AckStatus
set_status_defaults rm s =
    let m = or_default s.metadata no_metadata in
    record {
      metadata = some (record m {
        owner_account_id = some (or_default m.owner_account_id rm.aws_account_id);
        region = some (or_default m.region rm.aws_region);
        partition = some (or_default m.partition rm.aws_partition);
      });
      conditions = some (elements s.conditions);
    }

-- The last condition of a type: where the loop of updateConditions leaves its pointer.
abbrev pub find_last : String → List Condition → Option Condition
find_last t [] = none
find_last t (c ∷ cs) = elim (find_last t cs) [
  | none ↦ if c.type == t then some c else none
  | some d ↦ some d
]

-- A write through that pointer.
abbrev pub update_last : String → (Condition → Condition) → List Condition → List Condition
update_last t f [] = []
update_last t f (c ∷ cs) = elim (find_last t cs) [
  | none ↦ (if c.type == t then f c else c) ∷ cs
  | some d ↦ c ∷ update_last t f cs
]

-- `&ackv1alpha1.Condition{Type: t}`
abbrev pub new_condition : String → Condition
new_condition t = record { type = t; status = ""; message = none; reason = none }

-- Writes of Status and Message.
abbrev pub with_status : String → Option String → Condition → Condition
with_status s m c = record c { status = s; message = m }

-- The pointer, made to point to an appended condition if it is nil.
unfoldable pub ensure_condition : String → List Condition → List Condition
ensure_condition t cs = elim (find_last t cs) [ none ↦ cs ++ (new_condition t ∷ []) | some c ↦ cs ]

module _ {E : Type 0} (errors : Errors E) (names : ConditionNames) where
  -- `err == ackerr.SecretTypeNotSupported || err == ackerr.SecretNotFound || errors.As(err, &termError)`
  abbrev pub is_own_terminal : Option E → Bool
  is_own_terminal none = false
  is_own_terminal (some e) =
      errors.same e errors.secret_type_not_supported
      || (errors.same e errors.secret_not_found || errors.is_terminal_error e)

  -- The message of the terminal condition: `awsErr.Error()` panics where there is no AWS error.
  unfoldable pub terminal_message : Option E → Go String
  terminal_message none = panics
  terminal_message (some e) =
      if is_own_terminal (some e)
      then returns (errors.text e)
      else (do a ← deref (errors.aws_error e); returns (errors.text a))

  -- The message of the recoverable condition.
  unfoldable pub recoverable_message : E → String
  recoverable_message e = errors.text (or_default (errors.aws_error e) e)

  -- The branch of updateConditions for an error that is not terminal.
  unfoldable pub clear_terminal : Option E → List Condition → List Condition
  unfolding ensure_condition recoverable_message
  clear_terminal err cs =
      let cleared = update_last names.terminal (with_status names.status_false none) cs in
      elim err [
        | none ↦ update_last names.recoverable (with_status names.status_false none) cleared
        | some e ↦
            update_last names.recoverable
              (with_status names.status_true (some (recoverable_message e)))
              (ensure_condition names.recoverable cleared)
      ]

  -- Whether one of the three pointers is not nil.
  unfoldable pub has_own_condition : List Condition → Bool
  has_own_condition cs =
      is_some (find_last names.terminal cs)
      || (is_some (find_last names.recoverable cs) || is_some (find_last names.resource_synced cs))

  module _ (terminal_aws_error : Option E → Bool) (rm : ResourceManager) where
    -- The updated status, or `none` for "not updated".
    unfoldable pub update_conditions : AckStatus → Option E → Go (Option AckStatus)
    unfolding set_status_defaults ensure_condition terminal_message clear_terminal has_own_condition
    update_conditions s err =
        let st = set_status_defaults rm s in
        let cs = elements st.conditions in
        if terminal_aws_error err || is_own_terminal err
        then (do
          message ← terminal_message err
          returns (
              some (record st {
                conditions = some (
                    update_last names.terminal (with_status names.status_true (some message))
                      (ensure_condition names.terminal cs));
              })))
        else (let cs' = clear_terminal err cs in
            returns
              (if has_own_condition cs' then some (record st { conditions = some cs' }) else none))

    -- The loop of onError over the conditions.
    unfoldable pub is_in_terminal_condition : List Condition → Bool
    is_in_terminal_condition [] = false
    is_in_terminal_condition (c ∷ cs) =
        (c.type == names.terminal && c.status == names.status_true) || is_in_terminal_condition cs

    -- onError and onSuccess, of the status of a resource that is not nil.
    unfoldable pub on_error : AckStatus → E → Go (AckStatus × Option E)
    unfolding update_conditions is_in_terminal_condition
    on_error s e = do
      changed ← update_conditions s (some e)
      elim changed [
        | none ↦ returns (s, some e)
        | some s' ↦ returns (
          s',
          some (if is_in_terminal_condition (elements s'.conditions) then errors.terminal else e),
        )
      ]

    unfoldable pub on_success : AckStatus → Go (AckStatus × Option E)
    unfolding update_conditions
    on_success s = do changed ← update_conditions s none; returns (or_default changed s, none)
