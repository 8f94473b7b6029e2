-- ===== src/Status/Single.antt =====
-- No condition type comes to stand twice.
use ack_dms_controller.Base.{
  Bool, Bool-cases, List, Option, Option-cases, String, [], arith, elements, eq_iff, false,
  if◌then◌else◌, inl, inr, none, refl, some, subst, sym, true, ◌++◌, ◌==◌, ◌||◌, ◌∙◌, ◌∷◌, ◌≡◌,
}
use ack_dms_controller.Go.{Go-cases, returns}
use ack_dms_controller.Runtime.{ConditionNames, Errors}
use ack_dms_controller.Status.{
  AckStatus, Condition, ResourceManager, clear_terminal, ensure_condition, find_last,
  has_own_condition, is_own_terminal, new_condition, recoverable_message, terminal_message,
  update_conditions, update_last, with_status,
}
use ack_dms_controller.Status.Conditions.{find_last-append, find_last-update_last}

-- At most one condition of the type.
abbrev pub IsSingle : String → List Condition → Type 0
IsSingle t [] = Unit
IsSingle t (c ∷ cs) = ((c.type == t) ≡ true → find_last t cs ≡ none) × IsSingle t cs

find_last-update_last-none :
    (t u status : String) (message : Option String) (cs : List Condition)
    → find_last t cs ≡ none
    → find_last t (update_last u (with_status status message) cs) ≡ none
find_last-update_last-none t u s m cs h = find_last-update_last t u s m cs ∙ ground arith

update_last_here :
    (u : String) (f : Condition → Condition) (c : Condition) (cs : List Condition)
    → find_last u cs ≡ none
    → update_last u f (c ∷ cs) ≡ (if c.type == u then f c else c) ∷ cs
update_last_here u f c cs h = rw (h, update_last) refl

update_last_later :
    (u : String) (f : Condition → Condition) (c d : Condition) (cs : List Condition)
    → find_last u cs ≡ some d
    → update_last u f (c ∷ cs) ≡ c ∷ update_last u f cs
update_last_later u f c d cs h = rw (h, update_last) refl

with_status_head-IsSingle :
    (hit : Bool) (t status : String) (message : Option String) (c : Condition) (cs : List Condition)
    → IsSingle t (c ∷ cs)
    → IsSingle t ((if hit then with_status status message c else c) ∷ cs)
with_status_head-IsSingle true t s m c cs h = h
with_status_head-IsSingle false t s m c cs h = h

update_last-IsSingle :
    (t u status : String) (message : Option String) (cs : List Condition)
    → IsSingle t cs
    → IsSingle t (update_last u (with_status status message) cs)
update_last-IsSingle t u s m [] h = h
update_last-IsSingle t u s m (c ∷ cs) h = elim (Option-cases (find_last u cs)) [
  | inl last ↦
      subst (IsSingle t) (sym (update_last_here u (with_status s m) c cs last))
        (with_status_head-IsSingle (c.type == u) t s m c cs h)
  | inr (d, later) ↦
      subst (IsSingle t) (sym (update_last_later u (with_status s m) c d cs later))
        (λ e. find_last-update_last-none t u s m cs (h.0 e), update_last-IsSingle t u s m cs h.1)
]

append-IsSingle :
    (t u : String) (cs : List Condition)
    → IsSingle t cs
    → find_last u cs ≡ none
    → IsSingle t (cs ++ (new_condition u ∷ []))
append-IsSingle t u [] h none_yet = (λ e. refl, tt)
append-IsSingle t u (c ∷ cs) h none_yet = (
  λ e. ground (
    arith,
    h.0 e,
    find_last-append t cs (new_condition u ∷ []),
    eq_iff c.type t,
    eq_iff c.type u,
    eq_iff u t,
  ),
  append-IsSingle t u cs h.1 (ground arith),
)

ensure-IsSingle :
    (t u : String) (cs : List Condition) → IsSingle t cs → IsSingle t (ensure_condition u cs)
unfolding ensure_condition
ensure-IsSingle t u cs h = elim (Option-cases (find_last u cs)) [
  | inl absent ↦ rw (absent, IsSingle) (append-IsSingle t u cs h absent)
  | inr (c, found) ↦ rw (found, IsSingle) h
]

pub returns_some-injective : {A : Type 0} {a b : A} → returns (some a) ≡ returns (some b) → a ≡ b
returns_some-injective e = cc

module _ {E : Type 0} (errors : Errors E) (names : ConditionNames) where
  clear_terminal-IsSingle :
      (t : String) (err : Option E) (cs : List Condition)
      → IsSingle t cs
      → IsSingle t (clear_terminal errors names err cs)
  unfolding clear_terminal
  clear_terminal-IsSingle t none cs h =
      update_last-IsSingle t names.recoverable names.status_false none _
        (update_last-IsSingle t names.terminal names.status_false none cs h)
  clear_terminal-IsSingle t (some e) cs h =
      update_last-IsSingle t names.recoverable names.status_true
        (some (recoverable_message errors names e)) _
        (ensure-IsSingle t names.recoverable _
          (update_last-IsSingle t names.terminal names.status_false none cs h))

  module _ (terminal_aws_error : Option E → Bool) (rm : ResourceManager) where
    -- updateConditions keeps every condition type at one condition at most.
    pub update_conditions-IsSingle :
        (s s' : AckStatus) (err : Option E) (t : String)
        → IsSingle t (elements s.conditions)
        → update_conditions errors names terminal_aws_error rm s err ≡ returns (some s')
        → IsSingle t (elements s'.conditions)
    unfolding update_conditions
    update_conditions-IsSingle s s' err t h e =
        elim (Bool-cases (terminal_aws_error err || is_own_terminal errors names err)) [
          | inl is_terminal ↦ elim (Go-cases (terminal_message errors names err)) [
            | inl bad ↦ absurd (cc (rw (is_terminal, bad) at e))
            | inr (m, good) ↦
                let same = returns_some-injective (rw (is_terminal, good) at e) in
                subst (λ x. IsSingle t (elements x.conditions)) same
                  (update_last-IsSingle t names.terminal names.status_true (some m) _
                    (ensure-IsSingle t names.terminal _ h))
          ]
          | inr mild ↦
              elim (Bool-cases (
                has_own_condition errors names
                  (clear_terminal errors names err (elements s.conditions)))) [
                    | inl own ↦
                        let same = returns_some-injective (rw (mild, own) at e) in
                        subst (λ x. IsSingle t (elements x.conditions)) same
                          (clear_terminal-IsSingle t err (elements s.conditions) h)
                    | inr bare ↦ absurd (cc (rw (mild, bare) at e))
                  ]
        ]
