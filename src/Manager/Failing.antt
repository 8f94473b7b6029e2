-- ===== src/Manager/Failing.antt =====
-- An error of a sdk function stays an error of the manager's method.
use ack_dms_controller.Base.{Option, or_default, refl, some, ◌∙◌, ◌≡◌}
use ack_dms_controller.Go.{returns}
use ack_dms_controller.Manager.{Kind, Outcome, delete_resource}
use ack_dms_controller.Manager.TaskKind.{
  FindsApiError, terminal_aws_error, terminal_aws_error-known,
}
use ack_dms_controller.Runtime.{>>=-returns, ConditionNames, Errors, M, World}
use ack_dms_controller.Status.{ResourceManager}
use ack_dms_controller.Status.Failing.{on_error_fails}
use ack_dms_controller.Tags.{AckTags}

module _ {K W E : Type 0} (kind : Kind K) (visit : AckTags → AckTags) (errors : Errors E)
    (names : ConditionNames) (rm : ResourceManager) where
  -- The error that Delete returns for an error of sdkDelete, and the resource that goes with it.
  pub delete_resource_fails :
      (erase : K → M W E (K × Outcome K E)) (r r' : K) (res : Option K) (e : E) (w w' : World W E)
      → FindsApiError errors
      → erase r w ≡ returns ((r', (res, some e)), w')
      → (last : K) × (err : E) × (delete_resource kind visit errors names
            (terminal_aws_error errors)
            rm
            erase
            r
            w
          ≡ returns ((r', (some last, some err)), w'))
  unfolding delete_resource
  delete_resource_fails erase r r' res e w w' finds ran =
      let last = or_default res r' in
      let (s', e', failure) =
        on_error_fails errors names (terminal_aws_error errors) rm (kind.ack last) e
          (terminal_aws_error-known errors finds) in
      (kind.set_ack s' last, e', >>=-returns (erase r) _ ran ∙ rw failure refl)
