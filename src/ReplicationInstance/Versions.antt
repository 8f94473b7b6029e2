-- ===== src/ReplicationInstance/Versions.antt =====
-- The engine version in the delta of two replication instances.
use ack_dms_controller.Base.{
  All, Bool, Bool-cases, List, Option, String, [], arith, eq_refl, false, inl, inr, none, not,
  or_default, refl, some, starts_with, true, ◌&&◌, ◌++◌, ◌==◌, ◌||◌, ◌∙◌, ◌∷◌, ◌≡◌,
}
use ack_dms_controller.Compare.{DeltaLaws, DeltaOps, add_checks}
use ack_dms_controller.Compare.Content.{any_within, different_at-add_checks}
use ack_dms_controller.Compare.Fields.{within_apart}
use ack_dms_controller.Go.{returns}
use ack_dms_controller.ReplicationInstance.Delta.{
  InstanceComparisons, first_checks, instance_checks, instance_text_differs, kerberos_checks,
  last_checks, new_instance_delta, normalized, normalized_engine_version,
}
use ack_dms_controller.ReplicationInstance.Hooks.{leading_digits, requires_engine_version_update}
use ack_dms_controller.ReplicationInstance.Types.{
  KerberosAuthenticationSettings, ReplicationInstance, ReplicationInstanceSpec,
}

-- What ackcompare says: two pointers that are both set have no nil difference, and two that are
-- both nil have none.
pub record NilLaws (cmp : InstanceComparisons) : Type 0 where
  pub both_set : (x y : String) → cmp.nil_difference_text (some x) (some y) ≡ false

or_false : (b : Bool) → (b || false) ≡ b
or_false true = refl
or_false false = refl

module _ {D : Type 0} (cmp : InstanceComparisons) (ops : DeltaOps D)
    (within : String → String → Bool) (laws : DeltaLaws ops within) where
  -- No path of the comparisons lies within `p`.
  abbrev Apart : String → List (String × Bool) → Type 0
  Apart p checks = All (λ c. starts_with c.0 p ≡ false) checks

  any_within-Apart :
      (p : String) (checks : List (String × Bool))
      → Apart p checks
      → any_within within p checks ≡ false
  any_within-Apart p [] h = refl
  any_within-Apart p ((path, true) ∷ rest) h =
      rw (within_apart ops within laws path p h.0) (any_within-Apart p rest h.1)
  any_within-Apart p ((path, false) ∷ rest) h = any_within-Apart p rest h.1

  any_within-append :
      (p : String) (cs ds : List (String × Bool))
      → any_within within p (cs ++ ds) ≡ (any_within within p cs || any_within within p ds)
  any_within-append p [] ds = refl
  any_within-append p (c ∷ cs) ds = ground (arith, any_within-append p cs ds)

  abbrev version_path : String
  version_path = "Spec.EngineVersion"

  kerberos_checks-Apart :
      (a b : Option KerberosAuthenticationSettings) → Apart version_path (kerberos_checks cmp a b)
  unfolding kerberos_checks
  kerberos_checks-Apart none b = elim (Bool-cases (cmp.nil_difference_kerberos none b)) [
    | inl absent ↦ rw absent (refl, tt)
    | inr fine ↦ rw fine tt
  ]
  kerberos_checks-Apart (some x) none =
      elim (Bool-cases (cmp.nil_difference_kerberos (some x) none)) [
        | inl absent ↦ rw absent (refl, tt)
        | inr fine ↦ rw fine tt
      ]
  kerberos_checks-Apart (some x) (some y) =
      elim (Bool-cases (cmp.nil_difference_kerberos (some x) (some y))) [
        | inl absent ↦ rw absent (refl, tt)
        | inr fine ↦ rw fine (refl, (refl, (refl, tt)))
      ]

  -- A list of comparisons in which a single path lies within `p`.
  any_within-single :
      (p path other_path : String) (test other_test : Bool) (cs ks ls : List (String × Bool))
      → within path p ≡ true
      → within other_path p ≡ false
      → any_within within p cs ≡ false
      → any_within within p ks ≡ false
      → any_within within p ls ≡ false
      → any_within within p (cs ++ ((path, test) ∷ (other_path, other_test) ∷ (ks ++ ls))) ≡ test
  any_within-single p path other_path test other_test cs ks ls hit miss h1 h2 h3 = ground (
    arith,
    any_within-append p cs ((path, test) ∷ (other_path, other_test) ∷ (ks ++ ls)),
    any_within-append p ks ls,
  )

  version_in_checks :
      (a b : ReplicationInstanceSpec)
      → any_within within version_path (instance_checks cmp a b)
        ≡ instance_text_differs cmp a.engine_version b.engine_version
  unfolding instance_checks
  version_in_checks a b =
      any_within-single version_path version_path "Spec.InstanceClass"
        (instance_text_differs cmp a.engine_version b.engine_version)
        (instance_text_differs cmp a.instance_class b.instance_class) (first_checks cmp a b)
        (kerberos_checks cmp a.kerberos_authentication_settings b.kerberos_authentication_settings)
        (last_checks cmp a b) (laws.within_self version_path)
        (within_apart ops within laws "Spec.InstanceClass" version_path refl)
        (any_within-Apart version_path (first_checks cmp a b) (refl, (refl, (refl, tt))))
        (any_within-Apart version_path
          (kerberos_checks cmp a.kerberos_authentication_settings
            b.kerberos_authentication_settings)
          (kerberos_checks-Apart a.kerberos_authentication_settings
            b.kerberos_authentication_settings))
        (any_within-Apart version_path (last_checks cmp a b) (
          refl,
          (
            refl,
            (refl, (refl, (refl, (refl, (refl, (refl, (refl, (refl, (refl, (refl, tt)))))))))),
          ),
        ))

  -- The comparison of the normalized version with the latest one.
  version_differs :
      (a b : ReplicationInstanceSpec) (x y : String)
      → NilLaws cmp
      → a.engine_version ≡ some x
      → b.engine_version ≡ some y
      → instance_text_differs cmp (normalized_engine_version a b) b.engine_version ≡ (
          requires_engine_version_update x y (or_default a.auto_minor_version_upgrade true)
          && not (x == y))
  unfolding normalized_engine_version
  version_differs a b x y nil ea eb =
      elim (Bool-cases
        (requires_engine_version_update x y (or_default a.auto_minor_version_upgrade true))) [
          | inl needed ↦ rw (ea, eb, needed) (rw (nil.both_set x y) refl)
          | inr not_needed ↦ rw (ea, eb, not_needed) (rw (nil.both_set y y, eq_refl) refl)
        ]

  -- For two replication instances that both have an engine version, newResourceDelta returns the
  -- desired one, with no change but to its engine version, and a delta that is different at the
  -- engine version exactly if the versions differ and an update is required: minor upgrades are not
  -- automatic, or the digits at their starts differ.
  pub new_instance_delta-version :
      (a b : ReplicationInstance) (x y : String)
      → NilLaws cmp
      → a.spec.engine_version ≡ some x
      → b.spec.engine_version ≡ some y
      → (v : Option String) × (d : D) × (new_instance_delta cmp ops (some a) (some b)
          ≡ returns (some (record a { spec = record (a.spec) { engine_version = v } }), d))
        × (ops.different_at d version_path ≡ (
            (not (or_default a.spec.auto_minor_version_upgrade true)
              || not (leading_digits x == leading_digits y))
            && not (x == y)))
  unfolding new_instance_delta requires_engine_version_update
  new_instance_delta-version a b x y nil ea eb =
      let a' = normalized a b in
      let checks = instance_checks cmp a'.spec b.spec in
      (
        normalized_engine_version a.spec b.spec,
        add_checks ops checks ops.new_delta,
        refl,
        different_at-add_checks ops within laws version_path checks ops.new_delta
            ∙ rw (laws.at_new version_path, version_in_checks a'.spec b.spec)
                (or_false _ ∙ version_differs a.spec b.spec x y nil ea eb),
      )
