-- ===== src/Manager/InstanceKind.antt =====
-- The replication instance as a kind of resource, and the manager's Delete on it.
use ack_dms_controller.Base.{refl, some, ◌≡◌}
use ack_dms_controller.Go.{returns}
use ack_dms_controller.Manager.{Kind, KindLaws, Outcome, delete_resource}
use ack_dms_controller.Manager.Failing.{delete_resource_fails}
use ack_dms_controller.Manager.TaskKind.{FindsApiError, terminal_aws_error}
use ack_dms_controller.ReplicationInstance.Api.{InstanceEnv}
use ack_dms_controller.ReplicationInstance.Guards.{DeleteCall, delete_replication_instance-Fails}
use ack_dms_controller.ReplicationInstance.Sdk.{delete_replication_instance}
use ack_dms_controller.ReplicationInstance.Types.{ReplicationInstance, with_instance_ack}
use ack_dms_controller.Runtime.{AtMostOneCall, M, World}
use ack_dms_controller.Status.{ResourceManager}
use ack_dms_controller.Tags.{AckTags}

abbrev pub instance_kind : Kind ReplicationInstance
instance_kind = record {
  ack = λ ko. ko.status.ack;
  set_ack = with_instance_ack;
  tags = λ ko. ko.spec.tags;
  set_tags = λ t ko. record ko { spec = record (ko.spec) { tags = t } };
}

pub instance_kind-KindLaws : KindLaws instance_kind
instance_kind-KindLaws = record {
  ack-set_ack = λ s k. refl;
  set_ack-ack = λ k. refl;
  tags-set_tags = λ t k. refl;
  ack-set_tags = λ t k. refl;
}

module _ {W E D : Type 0} (env : InstanceEnv W E D) (rm : ResourceManager)
    (visit : AckTags → AckTags) where
  -- Delete of manager.go with sdkDelete of the replication instance.
  abbrev pub delete_instance :
      ReplicationInstance → M W E (ReplicationInstance × Outcome ReplicationInstance E)
  delete_instance r =
      delete_resource instance_kind visit env.errors env.names (terminal_aws_error env.errors) rm
        (delete_replication_instance env rm) r

  -- For a replication instance, where AWSError finds the API error of every error with a code, the
  -- manager's Delete returns a resource and an error always, so the ACK runtime keeps the
  -- finalizer, and it makes at most one API call, DeleteReplicationInstance, and this only for an
  -- instance whose status is not known or one of the statuses in which an instance can be deleted.
  pub delete_instance-fails :
      (r : ReplicationInstance) (w : World W E)
      → FindsApiError env.errors
      → (r' res : ReplicationInstance) × (err : E) × (w' : World W E) × (delete_instance r w
          ≡ returns ((r', (some res, some err)), w'))
        × AtMostOneCall w.metrics w'.metrics (DeleteCall r.status.instance_status)
  unfolding delete_resource
  delete_instance-fails r w finds =
      let (r', res, e, w', ran, calls) = delete_replication_instance-Fails env rm r w in
      let (last, err, failure) =
        delete_resource_fails instance_kind visit env.errors env.names rm
          (delete_replication_instance env rm) r r' res e w w' finds ran in
      (r', last, err, w', failure, calls)
