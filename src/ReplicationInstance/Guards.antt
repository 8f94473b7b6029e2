-- ===== src/ReplicationInstance/Guards.antt =====
-- Which API calls an update and a deletion of a replication instance make, and in which state.
use ack_dms_controller.Base.{
  Bool-cases, Option, String, [], ap, arith, contains, eq_iff, inl, inr, none, or_default, refl,
  some, subst, true, ◌==◌, ◌∙◌, ◌∷◌, ◌≡◌, ◌≢◌, ◌⊎◌,
}
use ack_dms_controller.Go.{returns}
use ack_dms_controller.ReplicationInstance.Api.{InstanceEnv}
use ack_dms_controller.ReplicationInstance.Merge.{merge_modified_instance, merge_pending}
use ack_dms_controller.ReplicationInstance.Payload.{
  new_delete_instance_payload, new_modify_instance_payload,
}
use ack_dms_controller.ReplicationInstance.Sdk.{
  InstanceResult, deletable_instance_statuses, delete_instance_at, delete_replication_instance,
  mark_pending, modify_available, modify_instance, requeue_instance, send_instance_delete,
  sync_instance_tags, update_replication_instance, with_defaults,
}
use ack_dms_controller.ReplicationInstance.Types.{ReplicationInstance, with_instance_status}
use ack_dms_controller.Runtime.{>>=-returns, AtMostOneCall, M, Reply-cases, World, after_call}
use ack_dms_controller.Status.{ResourceManager}

-- The method returns, having made at most one call, of those that `P` permits, and it returns a
-- resource or an error.
abbrev pub MakesCall :
    {W E : Type 0} → World W E → (String → Type 0) → M W E (InstanceResult E) → Type 0
MakesCall {W} {E} w P m =
    (res : InstanceResult E) × (w' : World W E) × (m w ≡ returns (res, w'))
    × AtMostOneCall w.metrics w'.metrics P
    × (res.0 ≡ none → res.1 ≢ none)

-- The call that an update may make, by the status of the latest resource.
pub data UpdateCall (status : Option String) : String → Type 0 where
  modify_call :
      (status ≡ none) ⊎ (status ≡ some "available") → UpdateCall status "ModifyReplicationInstance"

-- The call that a deletion may make.
pub data DeleteCall (status : Option String) : String → Type 0 where
  delete_call :
      ((s : String) → status ≡ some s → contains deletable_instance_statuses s ≡ true)
      → DeleteCall status "DeleteReplicationInstance"

module _ {W E D : Type 0} (env : InstanceEnv W E D) (rm : ResourceManager) where
  modify_instance-MakesCall :
      (desired : ReplicationInstance) (delta : D) (status : Option String) (w : World W E)
      → (status ≡ none) ⊎ (status ≡ some "available")
      → MakesCall w (UpdateCall status) (modify_instance env rm desired delta)
  unfolding modify_instance
  modify_instance-MakesCall desired delta status w free =
      elim (Reply-cases (new_modify_instance_payload env.errors env.delta_ops desired delta)) [
        | inr (e, refused) ↦
            ((none, some e), w, rw (refused, modify_instance) refl, inl refl, λ _ h. cc h)
        | inl (input, built) ↦
            let answer = env.api.modify_replication_instance input w.cloud in
            let w' = after_call "UPDATE" "ModifyReplicationInstance" answer w in
            elim (Reply-cases answer.0) [
              | inr (e, bad) ↦ (
                (none, some e),
                w',
                rw (built, modify_instance) (rw bad refl),
                inr (_, refl, modify_call free),
                λ _ h. cc h,
              )
              | inl (elem, good) ↦ (
                (
                  some (
                      mark_pending env rm (
                        merge_pending
                          (with_defaults env rm (merge_modified_instance elem desired)))),
                  none,
                ),
                w',
                rw (built, modify_instance) (rw good refl),
                inr (_, refl, modify_call free),
                λ h _. cc h,
              )
            ]
      ]

  -- The part of sdkUpdate after the tags.
  modify_available-MakesCall :
      (desired : ReplicationInstance) (delta : D) (status : Option String) (w : World W E)
      → MakesCall w (UpdateCall status) (modify_available env rm status desired delta)
  unfolding modify_available
  modify_available-MakesCall desired delta none w =
      modify_instance-MakesCall desired delta none w (inl refl)
  modify_available-MakesCall desired delta (some s) w =
      elim (Bool-cases (contains ("available" ∷ []) s)) [
        | inl free ↦ rw free (
            modify_instance-MakesCall desired delta (some s) w
              (inr (ap some (ground (arith, eq_iff "available" s)))))
        | inr busy ↦ (
          (none, some (requeue_instance env rm s 30 " state, cannot be updated")),
          w,
          rw busy refl,
          inl refl,
          λ _ h. cc h,
        )
      ]

  -- What an update ends in, by the status of the latest resource, by the error of the sync of the
  -- tags and by the world after it: that error and nothing more, or a resource or an error after at
  -- most one call.
  abbrev pub Proceeds : Option String → Option E → World W E → InstanceResult E → World W E → Type 0
  Proceeds status (some e) w res w' = (res ≡ (none, some e)) × (w' ≡ w)
  Proceeds status none w res w' =
      AtMostOneCall w.metrics w'.metrics (UpdateCall status) × (res.0 ≡ none → res.1 ≢ none)

  -- Once sdkUpdate has synced the tags, it returns. If the sync returned an error, it returns that
  -- error and calls nothing more; else it returns a resource or an error, having made at most one
  -- further API call, ModifyReplicationInstance, and this only if the status of the latest instance
  -- is available or not known, whatever the status of the desired one is.
  pub update_replication_instance-Proceeds :
      (desired latest : ReplicationInstance) (delta : D) (failure : Option E) (w w1 : World W E)
      → sync_instance_tags env rm desired latest delta w ≡ returns (failure, w1)
      → (res : InstanceResult E) × (w' : World W E) × (update_replication_instance env rm desired
            latest delta w
          ≡ returns (res, w'))
        × Proceeds latest.status.instance_status failure w1 res w'
  unfolding update_replication_instance
  update_replication_instance-Proceeds desired latest delta (some e) w w1 tags_done = (
    (none, some e),
    w1,
    >>=-returns (sync_instance_tags env rm desired latest delta) _ tags_done,
    (refl, refl),
  )
  update_replication_instance-Proceeds desired latest delta none w w1 tags_done =
      let go_on = >>=-returns (sync_instance_tags env rm desired latest delta) _ tags_done in
      elim (Bool-cases (env.delta_ops.different_except delta ("Spec.Tags" ∷ []))) [
        | inr same ↦ ((some desired, none), w1, go_on ∙ rw same refl, (inl refl, λ h _. cc h))
        | inl more ↦
            let (res, w', ran, one_call, replied) =
              modify_available-MakesCall desired delta latest.status.instance_status w1 in
            (res, w', go_on ∙ rw more ran, (one_call, replied))
      ]

  -- The method returns an error, having made at most one call, of those that `P` permits.
  abbrev pub Fails :
      World W E → (String → Type 0) → M W E (ReplicationInstance × InstanceResult E) → Type 0
  Fails w P m =
      (r' : ReplicationInstance) × (res : Option ReplicationInstance) × (err : E) × (w' : World W E)
      × (m w ≡ returns ((r', (res, some err)), w'))
      × AtMostOneCall w.metrics w'.metrics P

  send_instance_delete-Fails :
      (r : ReplicationInstance) (status : Option String) (w : World W E)
      → ((s : String) → status ≡ some s → contains deletable_instance_statuses s ≡ true)
      → Fails w (DeleteCall status) (send_instance_delete env rm r)
  unfolding send_instance_delete
  send_instance_delete-Fails r status w free =
      let answer = env.api.delete_replication_instance (new_delete_instance_payload r) w.cloud in
      let w' = after_call "DELETE" "DeleteReplicationInstance" answer w in
      let r' = with_instance_status "deleting" r in
      elim (Reply-cases answer.0) [
        | inr (e, bad) ↦ (r, none, e, w', rw bad refl, inr (_, refl, delete_call free))
        | inl (u, good) ↦ (
          r',
          some r',
          requeue_instance env rm "deleting" 60 " state",
          w',
          rw good refl,
          inr (_, refl, delete_call free),
        )
      ]

  delete_instance_at-Fails :
      (r : ReplicationInstance) (status : Option String) (w : World W E)
      → Fails w (DeleteCall status) (delete_instance_at env rm status r)
  unfolding delete_instance_at
  delete_instance_at-Fails r none w = send_instance_delete-Fails r none w (λ s h. absurd (cc h))
  delete_instance_at-Fails r (some s) w = elim (Bool-cases (s == "deleting")) [
    | inl under_way ↦
        (r, some r, requeue_instance env rm s 60 " state", w, rw under_way refl, inl refl)
    | inr here ↦ elim (Bool-cases (contains deletable_instance_statuses s)) [
      | inl free ↦
          rw (here, free)
            (send_instance_delete-Fails r (some s) w (λ t h.
              subst (λ o. contains deletable_instance_statuses (or_default o s) ≡ true) h free))
      | inr busy ↦ (
        r,
        none,
        requeue_instance env rm s 30 " state, cannot be deleted",
        w,
        rw (here, busy) refl,
        inl refl,
      )
    ]
  ]

  -- sdkDelete returns an error always, and it makes at most one API call,
  -- DeleteReplicationInstance, and this only for an instance whose status is not known or one of
  -- the statuses in which an instance can be deleted.
  pub delete_replication_instance-Fails :
      (r : ReplicationInstance) (w : World W E)
      → Fails w (DeleteCall r.status.instance_status) (delete_replication_instance env rm r)
  unfolding delete_replication_instance
  delete_replication_instance-Fails r w = delete_instance_at-Fails r r.status.instance_status w
