-- ===== src/ReplicationTask/FindParts.antt =====
-- What the hooks of sdkFind do with the ARNs that the last one reads.
use ack_dms_controller.Base.{
  All, Bool-cases, List, Option, Option-cases, String, [], ap, if◌then◌else◌, inl, inr, is_value,
  none, refl, some, subst, ◌==◌, ◌∷◌, ◌≡◌, ◌≢◌,
}
use ack_dms_controller.Go.{deref, returns}
use ack_dms_controller.ReplicationTask.Api.{SdkConnection, SdkTask, TaskApi, TaskEnv}
use ack_dms_controller.ReplicationTask.Connections.{
  connection_filters, set_connections, set_source_connection, set_target_connection,
}
use ack_dms_controller.ReplicationTask.Hooks.{delete_requested}
use ack_dms_controller.ReplicationTask.Payload.{ensure_json_indented, indent_field, indent_json}
use ack_dms_controller.ReplicationTask.Sdk.{Result, find_connections, find_tags}
use ack_dms_controller.ReplicationTask.Types.{ReplicationTask, ReplicationTaskSpec, with_ack}
use ack_dms_controller.Resource.{Filter}
use ack_dms_controller.Runtime.{M, Reply, Reply-cases, World, after_call, fault, reply}
use ack_dms_controller.Status.{ResourceManager, arn_of}
use ack_dms_controller.TagSync.{get_tags, resource_tags_from_sdk_tags}
use ack_dms_controller.Util.Loops.{gone}

-- What the code relies on: a task that AWS lists has its endpoints and its instance, and a
-- connection its endpoint.
abbrev pub IsComplete : SdkTask → Type 0
IsComplete t =
    (t.source_endpoint_arn ≢ none)
    × (t.target_endpoint_arn ≢ none)
    × (t.replication_instance_arn ≢ none)

abbrev pub HasEndpoint : SdkConnection → Type 0
HasEndpoint c = c.endpoint_arn ≢ none

pub record AnswersCompletely {W E : Type 0} (api : TaskApi W E) : Type 0 where
  pub tasks :
      (fs : List Filter) (w : W) (ts : List SdkTask)
      → (api.describe_replication_tasks fs w).0 ≡ reply ts
      → All IsComplete ts
  pub connections :
      (fs : List Filter) (w : W) (cs : List SdkConnection)
      → (api.describe_connections fs w).0 ≡ reply cs
      → All HasEndpoint cs

-- The ARNs that the last hook reads.
pub record HasArns (s : ReplicationTaskSpec) : Type 0 where
  pub source : s.source_endpoint_arn ≢ none
  pub target : s.target_endpoint_arn ≢ none
  pub instance_arn : s.replication_instance_arn ≢ none

deref-total : {A : Type 0} (o : Option A) → o ≢ none → (a : A) × (deref o ≡ returns a)
deref-total none h = absurd (h refl)
deref-total (some a) h = (a, refl)

set_connections-total :
    (ko : ReplicationTask) (cs : List SdkConnection)
    → HasArns ko.spec
    → All HasEndpoint cs
    → (ko' : ReplicationTask) × (set_connections ko cs ≡ returns ko')
unfolding set_connections
set_connections-total ko [] h all = (ko, refl)
set_connections-total ko (c ∷ cs) h all =
    let (arn, e1) = deref-total c.endpoint_arn all.0 in
    let (source, e2) = deref-total ko.spec.source_endpoint_arn h.source in
    let (target, e3) = deref-total ko.spec.target_endpoint_arn h.target in
    let s1 = if arn == source then set_source_connection c ko.status else ko.status in
    let s2 = if arn == target then set_target_connection c s1 else s1 in
    let (ko', e) =
      set_connections-total (record ko { status = s2 }) cs
        (record { source = h.source; target = h.target; instance_arn = h.instance_arn }) all.1 in
    (ko', rw (e1, e2, e3) e)

connection_filters-total :
    (ko : ReplicationTask)
    → HasArns ko.spec
    → (fs : List Filter) × (connection_filters ko ≡ returns fs)
unfolding connection_filters
connection_filters-total ko h =
    let (source, e1) = deref-total ko.spec.source_endpoint_arn h.source in
    let (target, e2) = deref-total ko.spec.target_endpoint_arn h.target in
    let (instance_arn, e3) = deref-total ko.spec.replication_instance_arn h.instance_arn in
    (
      record { name = "endpoint-arn"; values = source ∷ target ∷ [] }
          ∷ record { name = "replication-instance-arn"; values = instance_arn ∷ [] }
          ∷ [],
      rw (e1, e2, e3) refl,
    )

pub reply_injective :
    {A E : Type 0} (a : A) {b : A} → ◌≡◌ {A = Reply A E} (reply a) (reply b) → a ≡ b
reply_injective a h = ap (λ r. elim r [ reply x ↦ x | fault e ↦ a ]) h

module _ {E : Type 0} (json_indent : String → Reply String E) where
  indent_field-HasArns :
      (get : ReplicationTaskSpec → Option String)
      (put : Option String → ReplicationTaskSpec → ReplicationTaskSpec)
      (r : Reply ReplicationTaskSpec E) (s' : ReplicationTaskSpec)
      → ((v : Option String) (s : ReplicationTaskSpec) → HasArns s → HasArns (put v s))
      → ((s : ReplicationTaskSpec) → r ≡ reply s → HasArns s)
      → indent_field json_indent get put r ≡ reply s'
      → HasArns s'
  indent_field-HasArns get put (fault x) s' keeps had e = absurd (cc e)
  indent_field-HasArns get put (reply s) s' keeps had e =
      elim (Reply-cases (indent_json json_indent (get s))) [
        | inr (x, bad) ↦ absurd (cc (rw (bad, indent_field) at e))
        | inl (v, good) ↦
            subst HasArns (reply_injective (put v s) (rw (good, indent_field) at e))
              (keeps v s (had s refl))
      ]

  pub ensure_json_indented-HasArns :
      (ko ko' : ReplicationTask)
      → HasArns ko.spec
      → ensure_json_indented json_indent ko ≡ reply ko'
      → HasArns ko'.spec
  unfolding ensure_json_indented
  ensure_json_indented-HasArns ko ko' h e =
      let mappings =
        indent_field json_indent (λ s. s.table_mappings) (λ v s. record s { table_mappings = v })
          (reply ko.spec) in
      let settings =
        indent_field json_indent (λ s. s.task_settings) (λ v s. record s { task_settings = v })
          mappings in
      let all_indented =
        indent_field json_indent (λ s. s.task_data) (λ v s. record s { task_data = v }) settings in
      let same = λ (s' : ReplicationTaskSpec) (q : reply ko.spec ≡ reply s').
        subst HasArns (reply_injective ko.spec q) h in
      let first = λ (s' : ReplicationTaskSpec) (q : mappings ≡ reply s').
        indent_field-HasArns (λ s. s.table_mappings) (λ v s. record s { table_mappings = v })
          (reply ko.spec) s'
          (λ v s g. record { source = g.source; target = g.target; instance_arn = g.instance_arn })
          same q in
      let second = λ (s' : ReplicationTaskSpec) (q : settings ≡ reply s').
        indent_field-HasArns (λ s. s.task_settings) (λ v s. record s { task_settings = v }) mappings
          s'
          (λ v s g. record { source = g.source; target = g.target; instance_arn = g.instance_arn })
          first q in
      elim (Reply-cases all_indented) [
        | inr (x, bad) ↦ absurd (cc (rw (bad, ensure_json_indented) at e))
        | inl (s3, good) ↦
            subst (λ t. HasArns t.spec)
              (reply_injective (record ko { spec = s3 }) (rw (good, ensure_json_indented) at e))
              (indent_field-HasArns (λ s. s.task_data) (λ v s. record s { task_data = v }) settings
                s3
                (λ v s g. record {
                  source = g.source;
                  target = g.target;
                  instance_arn = g.instance_arn;
                })
                second good)
      ]

-- The method returns a resource or an error.
abbrev pub ReturnsOutcome : {W E : Type 0} → World W E → M W E (Result E) → Type 0
ReturnsOutcome {W} {E} w m =
    (res : Result E) × (w' : World W E) × (m w ≡ returns (res, w')) × (res.0 ≡ none → res.1 ≢ none)

module _ {W E D : Type 0} (env : TaskEnv W E D) (rm : ResourceManager) where
  pub find_connections-total :
      (ko : ReplicationTask) (w : World W E)
      → AnswersCompletely env.api
      → HasArns ko.spec
      → ReturnsOutcome w (find_connections env rm ko)
  unfolding find_connections
  find_connections-total ko w complete h =
      let (fs, filtered) = connection_filters-total ko h in
      let answer = env.api.describe_connections fs w.cloud in
      let w' = after_call "READ_MANY" "DescribeConnections" answer w in
      elim (Reply-cases answer.0) [
        | inl (cs, good) ↦
            let (ko', set) =
              set_connections-total ko cs h (complete.connections fs w.cloud cs good) in
            ((some ko', none), w', rw (filtered, good, set) refl, λ bad. absurd (cc bad))
        | inr (e, bad) ↦
            elim (Bool-cases (is_value (env.errors.api_error_code e) "ResourceNotFoundFault")) [
              | inl gone ↦ (
                (
                  some (
                      with_ack
                        (env.set_synced env.names.status_false
                          (some "Endpoint connections not found") none ko.status.ack)
                        ko),
                  none,
                ),
                w',
                rw (filtered, bad, gone) refl,
                λ no_ko. absurd (cc no_ko),
              )
              | inr other_error ↦ (
                (some ko, some e),
                w',
                rw (filtered, bad, other_error) refl,
                λ no_ko. absurd (cc no_ko),
              )
            ]
      ]

  pub find_tags-total :
      (ko : ReplicationTask) (w : World W E)
      → HasArns ko.spec
      → (r : Reply ReplicationTask E) × (w' : World W E) × (find_tags env rm ko w ≡ returns (r, w'))
        × ((ko' : ReplicationTask) → r ≡ reply ko' → HasArns ko'.spec)
  unfolding find_tags get_tags
  find_tags-total ko w h = elim (Bool-cases (delete_requested ko)) [
    | inl asked ↦
        (reply ko, w, rw asked refl, λ ko' e. subst (λ t. HasArns t.spec) (reply_injective ko e) h)
    | inr kept ↦ elim (Option-cases (arn_of ko.status.ack)) [
      | inl no_arn ↦ (
        reply ko,
        w,
        rw (kept, no_arn) refl,
        λ ko' e. subst (λ t. HasArns t.spec) (reply_injective ko e) h,
      )
      | inr (arn, has_arn) ↦
          let answer = env.api.tag_api.list_tags_for_resource (some arn) w.cloud in
          let w' = after_call "GET" "ListTagsForResource" answer w in
          elim (Reply-cases answer.0) [
            | inr (e, bad) ↦ (fault e, w', rw (kept, has_arn, bad) refl, λ ko' r. absurd (cc r))
            | inl (tags, good) ↦
                let tagged : ReplicationTask = record ko {
                  spec = record (ko.spec) { tags = some (resource_tags_from_sdk_tags tags) };
                } in
                (
                  reply tagged,
                  w',
                  rw (kept, has_arn, good) refl,
                  λ ko' e.
                      subst (λ t. HasArns t.spec) (reply_injective tagged e)
                        (record {
                          source = h.source;
                          target = h.target;
                          instance_arn = h.instance_arn;
                        }),
                )
          ]
    ]
  ]
