-- ===== src/ReplicationTask/DeltaContent.antt =====
-- What the delta of two replication tasks holds.
use ack_dms_controller.Base.{Bool, List, String, arith, false, inl, inr, refl, some, true, ◌≡◌}
use ack_dms_controller.Compare.{DeltaLaws, DeltaOps, add_checks, add_if}
use ack_dms_controller.Compare.Content.{
  Agree, add_checks-Agree, any_within, different_at-add_checks, different_at-add_if,
}
use ack_dms_controller.Go.{Go-cases, returns}
use ack_dms_controller.ReplicationTask.Delta.{Comparisons, new_resource_delta, spec_checks}
use ack_dms_controller.ReplicationTask.Hooks.{
  should_start_replication_task, should_stop_replication_task,
}
use ack_dms_controller.ReplicationTask.Starting.{should_start_total}
use ack_dms_controller.ReplicationTask.Stopping.{MustStop, should_stop_iff, should_stop_total}
use ack_dms_controller.ReplicationTask.Types.{ReplicationTask}

abbrev pub start_path : String
start_path = "Spec.StartReplicationTask"

module _ {E D : Type 0} (cmp : Comparisons E) (ops : DeltaOps D) (within : String → String → Bool)
    (laws : DeltaLaws ops within) where
  different_at-all :
      (p : String) (checks : List (String × Bool)) (begin halt : Bool)
      → within start_path p ≡ false
      → ops.different_at
          (add_if ops halt start_path
            (add_checks ops checks (add_if ops begin start_path ops.new_delta)))
          p
        ≡ any_within within p checks
  different_at-all p checks begin halt apart =
      let before = add_if ops begin start_path ops.new_delta in
      ground (
        arith,
        different_at-add_if ops within laws p start_path halt (add_checks ops checks before) apart,
        different_at-add_checks ops within laws p checks before,
        different_at-add_if ops within laws p start_path begin ops.new_delta apart,
        laws.at_new p,
      )

  -- For two tasks, the latest with a migration type, newResourceDelta returns a delta, and the
  -- delta is different at a path that Spec.StartReplicationTask does not lie within exactly if one of
  -- the comparisons of the fields found a difference at a path within it.
  pub new_resource_delta-different_at :
      (a b : ReplicationTask) (type : String)
      → b.spec.migration_type ≡ some type
      → (d : D) × (new_resource_delta cmp ops (some a) (some b) ≡ returns d)
        × ((p : String)
            → within start_path p ≡ false
            → ops.different_at d p ≡ any_within within p (spec_checks cmp a.spec b.spec))
  unfolding new_resource_delta
  new_resource_delta-different_at a b type typed =
      let checks = spec_checks cmp a.spec b.spec in
      elim (Go-cases (should_start_replication_task b)) [
        | inl bad ↦ absurd (should_start_total b type typed bad)
        | inr (begin, started) ↦
            let before = add_if ops begin start_path ops.new_delta in
            let delta = add_checks ops checks before in
            elim (Go-cases (should_stop_replication_task ops b (some delta))) [
              | inl bad ↦ absurd (should_stop_total ops b (some delta) bad)
              | inr (halt, halted) ↦ (
                add_if ops halt start_path delta,
                rw (started, halted) refl,
                λ p apart. different_at-all p checks begin halt apart,
              )
            ]
      ]

  -- Where a task differs in no field, and is neither to be started nor to be stopped, its delta is
  -- empty: it is different at no path.
  pub new_resource_delta_settled :
      (a b : ReplicationTask)
      → Agree (spec_checks cmp a.spec b.spec)
      → should_start_replication_task b ≡ returns false
      → ¬ MustStop ops b (some ops.new_delta)
      → (d : D) × (new_resource_delta cmp ops (some a) (some b) ≡ returns d)
        × ((p : String) → ops.different_at d p ≡ false)
  unfolding new_resource_delta
  new_resource_delta_settled a b agree no_start free =
      elim (Go-cases (should_stop_replication_task ops b (some ops.new_delta))) [
        | inl bad ↦ absurd (should_stop_total ops b (some ops.new_delta) bad)
        | inr (true, halts) ↦ absurd (free ((should_stop_iff ops b (some ops.new_delta)).0 halts))
        | inr (false, idle) ↦ (
          ops.new_delta,
          rw (no_start, add_checks-Agree ops within laws _ ops.new_delta agree, idle) refl,
          laws.at_new,
        )
      ]
