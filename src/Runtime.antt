-- ===== src/Runtime.antt =====
-- What the controller takes from the ACK runtime and from the AWS SDK: parameters of the model.
-- `E` is Go's `error` other than nil; an `error` that may be nil is an `Option E`.
use ack_dms_controller.Base.{
  Bool, List, Option, String, [], inl, inr, none, refl, some, ℕ, ◌++◌, ◌∷◌, ◌≡◌, ◌≢◌, ◌⊎◌,
}
use ack_dms_controller.Go.{Go, Go-cases, panics, returns}

-- github.com/aws-controllers-k8s/runtime/pkg/errors, .../pkg/requeue, and the errors package of Go.
pub record Errors (E : Type 0) : Type 0 where
  -- ackerr.NotFound, ackerr.Terminal, ackerr.SecretTypeNotSupported, ackerr.SecretNotFound
  pub not_found : E
  pub terminal : E
  pub secret_type_not_supported : E
  pub secret_not_found : E
  -- `a == b` on two errors
  pub same : E → E → Bool
  -- `errors.As(err, &termError)` at a `*ackerr.TerminalError`
  pub is_terminal_error : E → Bool
  -- `errors.As(err, &awsErr)` at a `smithy.APIError`, then `awsErr.ErrorCode()`
  pub api_error_code : E → Option String
  -- `ackerr.AWSError(err)`
  pub aws_error : E → Option E
  -- `err.Error()`
  pub text : E → String
  -- `fmt.Errorf` and `errors.New`, of the formatted text
  pub errorf : String → E
  -- `ackerr.NewTerminalError(err)`
  pub new_terminal_error : E → E
  -- `ackrequeue.Needed(err)`, and `ackrequeue.NeededAfter(err, d)` of a duration in seconds
  pub needed : E → E
  pub needed_after : Option E → ℕ → E

-- The condition types and statuses of ackv1alpha1 and corev1.
pub record ConditionNames : Type 0 where
  pub terminal : String
  pub recoverable : String
  pub resource_synced : String
  pub late_initialized : String
  pub status_true : String
  pub status_false : String

-- The types have different names.
pub record AreDistinct (names : ConditionNames) : Type 0 where
  pub terminal_recoverable : names.terminal ≢ names.recoverable
  pub true_false : names.status_true ≢ names.status_false

-- The answer of one call of the AWS API: its output, or an error.
pub data Reply (A E : Type 0) : Type 0 where
  reply : A → Reply A E
  fault : E → Reply A E

-- `rm.metrics.RecordAPICall(opType, opID, err)`
pub record ApiCall (E : Type 0) : Type 0 where
  pub op_type : String
  pub op_id : String
  pub error : Option E

-- What a call of the resource manager reads and writes: the state `W` of AWS, and the metrics.
pub record World (W E : Type 0) : Type 0 where
  pub cloud : W
  pub metrics : List (ApiCall E)

-- A method of the manager: it changes the world, and returns or panics.
abbrev pub M : Type 0 → Type 0 → Type 0 → Type 0
M W E A = World W E → Go (A × World W E)

infixl 5 ◌>>=◌
abbrev pub ◌>>=◌ : {W E A B : Type 0} → M W E A → (A → M W E B) → M W E B
◌>>=◌ m f w = elim (m w) [ returns (a, w') ↦ f a w' | panics ↦ panics ]

abbrev pub error_of : {A E : Type 0} → Reply A E → Option E
error_of (reply a) = none
error_of (fault e) = some e

module _ {W E A : Type 0} where
  abbrev pub pure : A → M W E A
  pure a w = returns (a, w)

  -- A part of a method that does not touch the world.
  abbrev pub lift : Go A → M W E A
  lift g w = elim g [ returns a ↦ returns (a, w) | panics ↦ panics ]

  -- The world after an API call with its answer, and the metric that is recorded right after it.
  abbrev pub after_call : String → String → Reply A E × W → World W E → World W E
  after_call op_type op_id (r, cloud) w = record {
    cloud = cloud;
    metrics = w.metrics ++ (record { op_type = op_type; op_id = op_id; error = error_of r } ∷ []);
  }

  abbrev pub call : String → String → (W → Reply A E × W) → M W E (Reply A E)
  call op_type op_id f w =
      let answer = f w.cloud in returns (answer.0, after_call op_type op_id answer w)

-- What a method has appended to the metrics: nothing, or one call that `P` permits.
abbrev pub AtMostOneCall :
    {E : Type 0} → List (ApiCall E) → List (ApiCall E) → (String → Type 0) → Type 0
AtMostOneCall {E} before after P =
    (after ≡ before) ⊎ ((c : ApiCall E) × (after ≡ before ++ (c ∷ [])) × P c.op_id)

-- A method whose first part returns goes on with what it returned.
pub >>=-returns :
    {W E A B : Type 0} (m : M W E A) (f : A → M W E B) {a : A} {w w' : World W E}
    → m w ≡ returns (a, w')
    → (m >>= f) w ≡ f a w'
>>=-returns m f e = rw (e, ◌>>=◌) refl

-- Two methods that differ in their second parts alone, and these act alike.
pub >>=-congr :
    {W E A B : Type 0} (m : M W E A) (f g : A → M W E B)
    → ((a : A) (w : World W E) → f a w ≡ g a w)
    → (w : World W E) → (m >>= f) w ≡ (m >>= g) w
>>=-congr m f g alike w = elim (Go-cases (m w)) [
  | inl bad ↦ rw (bad, ◌>>=◌) refl
  | inr ((a, w'), e) ↦ rw (e, ◌>>=◌) (alike a w')
]

pub Reply-cases :
    {A E : Type 0} (r : Reply A E) → ((a : A) × (r ≡ reply a)) ⊎ ((e : E) × (r ≡ fault e))
Reply-cases (reply a) = inl (a, refl)
Reply-cases (fault e) = inr (e, refl)
