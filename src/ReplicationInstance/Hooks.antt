-- ===== src/ReplicationInstance/Hooks.antt =====
-- hooks.go of the replication instance, but for its tag functions, and IsSynced of its manager.go.
use Prim.Native.String.{[], ◌∷◌}
use Prim.Native.Char.{code}
use ack_dms_controller.Base.{
  Bool, String, [], false, if◌then◌else◌, is_some, is_value, none, not, some, ◌&&◌, ◌==◌, ◌||◌, ◌∷◌,
}
use ack_dms_controller.Integer.{leb}
use ack_dms_controller.ReplicationInstance.Types.{ReplicationInstance}

abbrev pub deleting_status : String
deleting_status = "deleting"

unfoldable pub has_pending_modified_values : ReplicationInstance → Bool
has_pending_modified_values ko = elim ko.status.pending_modified_values [
  | none ↦ false
  | some pmv ↦
      is_some pmv.allocated_storage
      || (is_some pmv.engine_version
          || (is_some pmv.multi_az
              || (is_some pmv.network_type || is_some pmv.replication_instance_class)))
]

-- What `^[0-9]+` finds in a text: the digits at its start.
unfoldable pub leading_digits : String → String
leading_digits [] = []
leading_digits (c ∷ rest) =
    let more = leading_digits rest in if leb 48 (code c) && leb (code c) 57 then c ∷ more else []

-- Both versions are there where it is called.
unfoldable pub requires_engine_version_update : String → String → Bool → Bool
unfolding leading_digits
requires_engine_version_update desired latest auto_minor_version_upgrade =
    not auto_minor_version_upgrade || not (leading_digits desired == leading_digits latest)

unfoldable pub is_available : ReplicationInstance → Bool
is_available ko = is_value ko.status.instance_status "available"
