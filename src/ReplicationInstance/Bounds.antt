-- ===== src/ReplicationInstance/Bounds.antt =====
-- AllocatedStorage in the requests: an int64 of the resource, an int32 of the API.
use ack_dms_controller.Base.{
  Bool-cases, Option, arith, false, inl, inr, none, refl, some, ◌≡◌, ◌≤◌, ◌⊎◌,
}
use ack_dms_controller.Compare.{DeltaOps}
use ack_dms_controller.Integer.{max_int32, negsuc, overflows_int32, pos, to_int32-fits, ℤ}
use ack_dms_controller.ReplicationInstance.Payload.{
  if_different, new_create_instance_payload, new_modify_instance_payload, storage_copy,
  storage_error,
}
use ack_dms_controller.ReplicationInstance.Types.{ReplicationInstance}
use ack_dms_controller.Runtime.{Errors, Reply, fault, reply}

abbrev pub IsInt32 : ℤ → Type 0
IsInt32 (pos n) = n ≤ max_int32
IsInt32 (negsuc n) = n ≤ max_int32

abbrev pub FitsInt32 : Option ℤ → Type 0
FitsInt32 none = Unit
FitsInt32 (some x) = IsInt32 x

IsInt32-of_check : (x : ℤ) → overflows_int32 x ≡ false → IsInt32 x
unfolding overflows_int32
IsInt32-of_check (pos n) h = ground arith
IsInt32-of_check (negsuc n) h = ground arith

check_of_IsInt32 : (x : ℤ) → IsInt32 x → overflows_int32 x ≡ false
unfolding overflows_int32
check_of_IsInt32 (pos n) h = ground arith
check_of_IsInt32 (negsuc n) h = ground arith

module _ {E : Type 0} (errors : Errors E) where
  storage_copy-cases :
      (o : Option ℤ)
      → (FitsInt32 o × (storage_copy errors o ≡ reply o))
        ⊎ ((¬ FitsInt32 o) × (storage_copy errors o ≡ fault (storage_error errors)))
  unfolding storage_copy
  storage_copy-cases none = inl (tt, refl)
  storage_copy-cases (some x) = elim (Bool-cases (overflows_int32 x)) [
    | inl over ↦ inr (λ h. absurd (cc (over, check_of_IsInt32 x h)), rw over refl)
    | inr fine ↦ inl (IsInt32-of_check x fine, rw (fine, to_int32-fits x fine) refl)
  ]

  -- The request carries the storage, which is an int32; or it is refused, and the storage is none.
  abbrev pub Carries : {I : Type 0} → Option ℤ → (I → Option ℤ) → Reply I E → Type 0
  Carries storage get (reply input) = FitsInt32 storage × (get input ≡ storage)
  Carries storage get (fault e) = (¬ FitsInt32 storage) × (e ≡ storage_error errors)

  -- The request of sdkCreate carries the very storage of the resource, or it is refused for a
  -- storage that is no int32. The same holds of the request of sdkUpdate and the storage that it is
  -- to carry: that of the resource where the delta is different at it, and else none.
  pub instance_storage-Carries :
      {D : Type 0} (ops : DeltaOps D) (r : ReplicationInstance) (delta : D)
      → Carries r.spec.allocated_storage
          (λ i. i.allocated_storage)
          (new_create_instance_payload errors r)
        × Carries
            (if_different errors ops delta "Spec.AllocatedStorage" r.spec.allocated_storage)
            (λ i. i.allocated_storage)
            (new_modify_instance_payload errors ops r delta)
  unfolding new_create_instance_payload new_modify_instance_payload
  instance_storage-Carries ops r delta =
      let sent = if_different errors ops delta "Spec.AllocatedStorage" r.spec.allocated_storage in
      (
        elim (storage_copy-cases r.spec.allocated_storage) [
          | inl (fits, e) ↦ rw (e, Carries) (fits, refl)
          | inr (over, e) ↦ rw (e, Carries) (over, refl)
        ],
        elim (storage_copy-cases sent) [
          | inl (fits, e) ↦ rw (e, Carries) (fits, refl)
          | inr (over, e) ↦ rw (e, Carries) (over, refl)
        ],
      )
