-- ===== src/ReplicationInstance/Delta.antt =====
-- newResourceDelta of delta.go: where the desired and the latest replication instance differ. It
-- writes the engine version of the desired one, which is returned beside the delta.
use ack_dms_controller.Base.{
  Bool, List, Option, String, [], elements, if◌then◌else◌, is_nonempty, length, none, not,
  or_default, some, true, ◌&&◌, ◌++◌, ◌==◌, ◌||◌, ◌∷◌,
}
use ack_dms_controller.Compare.{DeltaOps, add_checks, differs, same_flag}
use ack_dms_controller.Go.{Go, panics, returns}
use ack_dms_controller.Integer.{same_int, same_number, ℤ}
use ack_dms_controller.ReplicationInstance.Hooks.{requires_engine_version_update}
use ack_dms_controller.ReplicationInstance.Types.{
  KerberosAuthenticationSettings, ReplicationInstance, ReplicationInstanceSpec,
}
use ack_dms_controller.Resource.{ReferenceWrapper}
use ack_dms_controller.Tags.{AckTags, Tag, convert_to_ordered_ack_tags}

-- ackcompare.HasNilDifference at four types, equality.Semantic.DeepEqual on references and on lists
-- of them, ackcompare.SliceStringPEqual and ackcompare.MapStringStringEqual.
pub record InstanceComparisons : Type 0 where
  pub nil_difference_text : Option String → Option String → Bool
  pub nil_difference_int : Option ℤ → Option ℤ → Bool
  pub nil_difference_bool : Option Bool → Option Bool → Bool
  pub nil_difference_kerberos :
      Option KerberosAuthenticationSettings → Option KerberosAuthenticationSettings → Bool
  pub deep_equal : Option ReferenceWrapper → Option ReferenceWrapper → Bool
  pub deep_equal_refs : Option (List ReferenceWrapper) → Option (List ReferenceWrapper) → Bool
  pub slice_equal : Option (List String) → Option (List String) → Bool
  pub tags_equal : AckTags → AckTags → Bool

-- The hook before the comparison: the desired engine version, as it leaves it.
unfoldable pub normalized_engine_version :
    ReplicationInstanceSpec → ReplicationInstanceSpec → Option String
unfolding requires_engine_version_update
normalized_engine_version a b = elim a.engine_version [
  | none ↦ none
  | some x ↦ elim b.engine_version [
    | none ↦ some x
    | some y ↦
        if requires_engine_version_update x y (or_default a.auto_minor_version_upgrade true)
        then some x
        else some y
  ]
]

abbrev pub normalized : ReplicationInstance → ReplicationInstance → ReplicationInstance
normalized a b = record a {
  spec = record (a.spec) { engine_version = normalized_engine_version a.spec b.spec };
}

module _ (cmp : InstanceComparisons) where
  abbrev pub instance_text_differs : Option String → Option String → Bool
  instance_text_differs a b = differs (cmp.nil_difference_text a b) (λ x y. x == y) a b

  abbrev pub instance_flag_differs : Option Bool → Option Bool → Bool
  instance_flag_differs a b = differs (cmp.nil_difference_bool a b) same_flag a b

  abbrev pub int_differs : Option ℤ → Option ℤ → Bool
  int_differs a b = differs (cmp.nil_difference_int a b) same_int a b

  -- The comparisons of two settings that are both there.
  abbrev pub kerberos_fields :
      KerberosAuthenticationSettings → KerberosAuthenticationSettings → List (String × Bool)
  kerberos_fields x y =
      (
        "Spec.KerberosAuthenticationSettings.KeyCacheSecretIAMARN",
        instance_text_differs x.key_cache_secret_iam_arn y.key_cache_secret_iam_arn,
      )
      ∷ (
        "Spec.KerberosAuthenticationSettings.KeyCacheSecretID",
        instance_text_differs x.key_cache_secret_id y.key_cache_secret_id,
      )
      ∷ (
        "Spec.KerberosAuthenticationSettings.Krb5FileContents",
        instance_text_differs x.krb5_file_contents y.krb5_file_contents,
      )
      ∷ []

  unfoldable pub kerberos_checks :
      Option KerberosAuthenticationSettings
      → Option KerberosAuthenticationSettings
      → List (String × Bool)
  kerberos_checks a b =
      if cmp.nil_difference_kerberos a b
      then ("Spec.KerberosAuthenticationSettings", true) ∷ []
      else elim a [ none ↦ [] | some x ↦ elim b [ none ↦ [] | some y ↦ kerberos_fields x y ] ]

  abbrev pub slice_differs : Option (List String) → Option (List String) → Bool
  slice_differs a b =
      not (same_number (length (elements a)) (length (elements b)))
      || (is_nonempty (elements a) && not (cmp.slice_equal a b))

  unfoldable pub instance_tags_differ : Option (List Tag) → Option (List Tag) → Bool
  instance_tags_differ a b = not (
      cmp.tags_equal (convert_to_ordered_ack_tags (elements a)).0
        (convert_to_ordered_ack_tags (elements b)).0)

  -- The comparisons in the order of the code: those before the engine version, and those after it.
  abbrev pub first_checks : ReplicationInstanceSpec → ReplicationInstanceSpec → List (String × Bool)
  first_checks a b =
      ("Spec.AllocatedStorage", int_differs a.allocated_storage b.allocated_storage)
      ∷ (
        "Spec.AutoMinorVersionUpgrade",
        instance_flag_differs a.auto_minor_version_upgrade b.auto_minor_version_upgrade,
      )
      ∷ ("Spec.DNSNameServers", instance_text_differs a.dns_name_servers b.dns_name_servers)
      ∷ []

  abbrev pub last_checks : ReplicationInstanceSpec → ReplicationInstanceSpec → List (String × Bool)
  last_checks a b =
      ("Spec.KMSKeyID", instance_text_differs a.kms_key_id b.kms_key_id)
      ∷ ("Spec.KMSKeyRef", not (cmp.deep_equal a.kms_key_ref b.kms_key_ref))
      ∷ ("Spec.MultiAZ", instance_flag_differs a.multi_az b.multi_az)
      ∷ ("Spec.NetworkType", instance_text_differs a.network_type b.network_type)
      ∷ (
        "Spec.PreferredMaintenanceWindow",
        instance_text_differs a.preferred_maintenance_window b.preferred_maintenance_window,
      )
      ∷ (
        "Spec.PubliclyAccessible",
        instance_flag_differs a.publicly_accessible b.publicly_accessible,
      )
      ∷ (
        "Spec.ResourceIdentifier",
        instance_text_differs a.resource_identifier b.resource_identifier,
      )
      ∷ ("Spec.SecurityGroupIDs", slice_differs a.security_group_ids b.security_group_ids)
      ∷ (
        "Spec.SecurityGroupRefs",
        not (cmp.deep_equal_refs a.security_group_refs b.security_group_refs),
      )
      ∷ ("Spec.SubnetGroupID", instance_text_differs a.subnet_group_id b.subnet_group_id)
      ∷ ("Spec.SubnetGroupRef", not (cmp.deep_equal a.subnet_group_ref b.subnet_group_ref))
      ∷ ("Spec.Tags", instance_tags_differ a.tags b.tags)
      ∷ []

  unfoldable pub instance_checks :
      ReplicationInstanceSpec → ReplicationInstanceSpec → List (String × Bool)
  unfolding kerberos_checks instance_tags_differ
  instance_checks a b =
      first_checks a b
      ++ (("Spec.EngineVersion", instance_text_differs a.engine_version b.engine_version)
          ∷ ("Spec.InstanceClass", instance_text_differs a.instance_class b.instance_class)
          ∷ (kerberos_checks a.kerberos_authentication_settings b.kerberos_authentication_settings
              ++ last_checks a b))

  -- Two pointers to resources; where both are nil, `a.ko` panics. The desired resource comes back
  -- as it is left.
  unfoldable pub new_instance_delta :
      {D : Type 0}
      → DeltaOps D
      → Option ReplicationInstance
      → Option ReplicationInstance
      → Go (Option ReplicationInstance × D)
  unfolding normalized_engine_version instance_checks add_checks
  new_instance_delta ops none none = panics
  new_instance_delta ops none (some b) = returns (none, ops.add ops.new_delta "")
  new_instance_delta ops (some a) none = returns (some a, ops.add ops.new_delta "")
  new_instance_delta ops (some a) (some b) =
      let a' = normalized a b in
      returns (some a', add_checks ops (instance_checks a'.spec b.spec) ops.new_delta)
