-- ===== src/ReplicationInstance/References/RoundTrip.antt =====
-- ResolveReferences of a replication instance, and ClearResolvedReferences after it.
use mathlib.Core.Option
use ack_dms_controller.Base.{
  Bool, Option, String, [], ap, elements, false, if◌then◌else◌, is_nonempty, none, refl, some, sym,
  true, ◌∙◌, ◌∷◌, ◌≡◌,
}
use ack_dms_controller.Manager.InstanceKind.{instance_kind}
use ack_dms_controller.References.{ReferenceEnv, at_most_one, clear_resolved_references}
use ack_dms_controller.References.Clearing.{
  Fades, clear_resolved_references-cons, kept, resolve_references-view,
}
use ack_dms_controller.ReplicationInstance.References.{
  clear_instance_references, instance_reference_fields, key_cache_secret_iam_arn_field,
  key_cache_secret_id_field, kms_key_id_field, resolve_instance_references,
  security_group_ids_field, subnet_group_id_field,
}
use ack_dms_controller.ReplicationInstance.Types.{
  KerberosAuthenticationSettings, ReplicationInstance, ReplicationInstanceSpec,
}

-- The settings after the references of their two fields are looked at.
cleared_settings : KerberosAuthenticationSettings → KerberosAuthenticationSettings
cleared_settings k = record k {
  key_cache_secret_iam_arn = kept k.key_cache_secret_iam_ref k.key_cache_secret_iam_arn;
  key_cache_secret_id = kept k.key_cache_secret_ref k.key_cache_secret_id;
}

cleared : ReplicationInstanceSpec → ReplicationInstanceSpec
cleared s = record s {
  kms_key_id = kept s.kms_key_ref s.kms_key_id;
  kerberos_authentication_settings = Option.map cleared_settings s.kerberos_authentication_settings;
  security_group_ids =
      if is_nonempty (elements s.security_group_refs) then none else s.security_group_ids;
  subnet_group_id = kept s.subnet_group_ref s.subnet_group_id;
}

abbrev with_settings :
    Option KerberosAuthenticationSettings → ReplicationInstance → ReplicationInstance
with_settings o ko = record ko { spec = record (ko.spec) { kerberos_authentication_settings = o } }

erase-kms_key_id :
    (b : Bool) (ko : ReplicationInstance)
    → (if b then kms_key_id_field.erase ko else ko) ≡ record ko {
      spec = record (ko.spec) { kms_key_id = if b then none else ko.spec.kms_key_id };
    }
erase-kms_key_id true ko = refl
erase-kms_key_id false ko = refl

erase-security_group_ids :
    (b : Bool) (ko : ReplicationInstance)
    → (if b then security_group_ids_field.erase ko else ko) ≡ record ko {
      spec = record (ko.spec) {
        security_group_ids = if b then none else ko.spec.security_group_ids;
      };
    }
erase-security_group_ids true ko = refl
erase-security_group_ids false ko = refl

erase-subnet_group_id :
    (b : Bool) (ko : ReplicationInstance)
    → (if b then subnet_group_id_field.erase ko else ko) ≡ record ko {
      spec = record (ko.spec) { subnet_group_id = if b then none else ko.spec.subnet_group_id };
    }
erase-subnet_group_id true ko = refl
erase-subnet_group_id false ko = refl

erase-key_cache_secret_iam_arn :
    (b : Bool) (k : KerberosAuthenticationSettings) (ko : ReplicationInstance)
    → (if b
        then key_cache_secret_iam_arn_field.erase (with_settings (some k) ko)
        else (with_settings (some k) ko))
      ≡ with_settings
          (some (record k {
            key_cache_secret_iam_arn = if b then none else k.key_cache_secret_iam_arn;
          }))
          ko
erase-key_cache_secret_iam_arn true k ko = refl
erase-key_cache_secret_iam_arn false k ko = refl

erase-key_cache_secret_id :
    (b : Bool) (k : KerberosAuthenticationSettings) (ko : ReplicationInstance)
    → (if b
        then key_cache_secret_id_field.erase (with_settings (some k) ko)
        else (with_settings (some k) ko))
      ≡ with_settings
          (some (record k { key_cache_secret_id = if b then none else k.key_cache_secret_id }))
          ko
erase-key_cache_secret_id true k ko = refl
erase-key_cache_secret_id false k ko = refl

clear-last_fields :
    (ko : ReplicationInstance)
    → clear_resolved_references (security_group_ids_field ∷ subnet_group_id_field ∷ []) ko
      ≡ record ko {
        spec = record (ko.spec) {
          security_group_ids =
              if is_nonempty (elements ko.spec.security_group_refs)
              then none
              else ko.spec.security_group_ids;
          subnet_group_id = kept ko.spec.subnet_group_ref ko.spec.subnet_group_id;
        };
      }
unfolding clear_resolved_references
clear-last_fields ko =
    let s = ko.spec in
    let ko1 = record ko {
      spec = record s {
        security_group_ids =
            if is_nonempty (elements s.security_group_refs) then none else s.security_group_ids;
      };
    } in
    clear_resolved_references-cons security_group_ids_field (subnet_group_id_field ∷ []) ko ko1
      (erase-security_group_ids (is_nonempty (elements s.security_group_refs)) ko)
    ∙ clear_resolved_references-cons subnet_group_id_field [] ko1 _
        (erase-subnet_group_id (is_nonempty (at_most_one s.subnet_group_ref)) ko1)

clear-settings :
    (o : Option KerberosAuthenticationSettings) (ko : ReplicationInstance)
    → clear_resolved_references instance_reference_fields (with_settings o ko)
      ≡ record ko { spec = cleared (record (ko.spec) { kerberos_authentication_settings = o }) }
unfolding cleared cleared_settings
clear-settings none ko =
    let s = ko.spec in
    let ko0 = with_settings none ko in
    let ko1 = record ko0 {
      spec = record (ko0.spec) { kms_key_id = kept s.kms_key_ref s.kms_key_id };
    } in
    let last = security_group_ids_field ∷ subnet_group_id_field ∷ [] in
    clear_resolved_references-cons kms_key_id_field
      (key_cache_secret_iam_arn_field ∷ key_cache_secret_id_field ∷ last) ko0 ko1
      (erase-kms_key_id (is_nonempty (at_most_one s.kms_key_ref)) ko0)
    ∙ clear_resolved_references-cons key_cache_secret_iam_arn_field
        (key_cache_secret_id_field ∷ last) ko1 ko1 refl
    ∙ clear_resolved_references-cons key_cache_secret_id_field last ko1 ko1 refl
    ∙ clear-last_fields ko1
clear-settings (some k) ko =
    let s = ko.spec in
    let ko0 = with_settings (some k) ko in
    let ko1 = record ko0 {
      spec = record (ko0.spec) { kms_key_id = kept s.kms_key_ref s.kms_key_id };
    } in
    let k1 = record k {
      key_cache_secret_iam_arn = kept k.key_cache_secret_iam_ref k.key_cache_secret_iam_arn;
    } in
    let last = security_group_ids_field ∷ subnet_group_id_field ∷ [] in
    clear_resolved_references-cons kms_key_id_field
      (key_cache_secret_iam_arn_field ∷ key_cache_secret_id_field ∷ last) ko0 ko1
      (erase-kms_key_id (is_nonempty (at_most_one s.kms_key_ref)) ko0)
    ∙ clear_resolved_references-cons key_cache_secret_iam_arn_field
        (key_cache_secret_id_field ∷ last) ko1 (with_settings (some k1) ko1)
        (erase-key_cache_secret_iam_arn (is_nonempty (at_most_one k.key_cache_secret_iam_ref)) k
          ko1)
    ∙ clear_resolved_references-cons key_cache_secret_id_field last (with_settings (some k1) ko1)
        (with_settings (some (cleared_settings k)) ko1)
        (erase-key_cache_secret_id (is_nonempty (at_most_one k.key_cache_secret_ref)) k1 ko1)
    ∙ clear-last_fields (with_settings (some (cleared_settings k)) ko1)

clear_instance_references-cleared :
    (ko : ReplicationInstance) → (clear_instance_references ko).spec ≡ cleared ko.spec
unfolding clear_instance_references
clear_instance_references-cleared ko =
    ap (λ k. k.spec) (clear-settings ko.spec.kerberos_authentication_settings ko)

fades-kms_key_id : Fades instance_kind (λ k. cleared k.spec) kms_key_id_field
unfolding cleared
fades-kms_key_id = record {
  refs_ack = λ s ko. refl;
  refs_put = λ v ko. refl;
  view_put = λ v ko h. rw (cleared, h) refl;
}

key_cache_secret_iam_arn-fades_in :
    (v : String) (o : Option KerberosAuthenticationSettings) (ko : ReplicationInstance)
    → is_nonempty (key_cache_secret_iam_arn_field.refs (with_settings o ko)) ≡ true
    → cleared (key_cache_secret_iam_arn_field.put_id v (with_settings o ko)).spec
      ≡ cleared (with_settings o ko).spec
unfolding cleared cleared_settings
key_cache_secret_iam_arn-fades_in v none ko h = refl
key_cache_secret_iam_arn-fades_in v (some k) ko h = rw (cleared_settings, h) refl

key_cache_secret_iam_arn-refs_in :
    (v : String) (o : Option KerberosAuthenticationSettings) (ko : ReplicationInstance)
    → key_cache_secret_iam_arn_field.refs
        (key_cache_secret_iam_arn_field.put_id v (with_settings o ko))
      ≡ key_cache_secret_iam_arn_field.refs (with_settings o ko)
key_cache_secret_iam_arn-refs_in v none ko = refl
key_cache_secret_iam_arn-refs_in v (some k) ko = refl

fades-key_cache_secret_iam_arn :
    Fades instance_kind (λ k. cleared k.spec) key_cache_secret_iam_arn_field
fades-key_cache_secret_iam_arn = record {
  refs_ack = λ s ko. refl;
  refs_put = λ v ko. key_cache_secret_iam_arn-refs_in v ko.spec.kerberos_authentication_settings ko;
  view_put =
      λ v ko. key_cache_secret_iam_arn-fades_in v ko.spec.kerberos_authentication_settings ko;
}

key_cache_secret_id-fades_in :
    (v : String) (o : Option KerberosAuthenticationSettings) (ko : ReplicationInstance)
    → is_nonempty (key_cache_secret_id_field.refs (with_settings o ko)) ≡ true
    → cleared (key_cache_secret_id_field.put_id v (with_settings o ko)).spec
      ≡ cleared (with_settings o ko).spec
unfolding cleared cleared_settings
key_cache_secret_id-fades_in v none ko h = refl
key_cache_secret_id-fades_in v (some k) ko h = rw (cleared_settings, h) refl

key_cache_secret_id-refs_in :
    (v : String) (o : Option KerberosAuthenticationSettings) (ko : ReplicationInstance)
    → key_cache_secret_id_field.refs (key_cache_secret_id_field.put_id v (with_settings o ko))
      ≡ key_cache_secret_id_field.refs (with_settings o ko)
key_cache_secret_id-refs_in v none ko = refl
key_cache_secret_id-refs_in v (some k) ko = refl

fades-key_cache_secret_id : Fades instance_kind (λ k. cleared k.spec) key_cache_secret_id_field
fades-key_cache_secret_id = record {
  refs_ack = λ s ko. refl;
  refs_put = λ v ko. key_cache_secret_id-refs_in v ko.spec.kerberos_authentication_settings ko;
  view_put = λ v ko. key_cache_secret_id-fades_in v ko.spec.kerberos_authentication_settings ko;
}

fades-security_group_ids : Fades instance_kind (λ k. cleared k.spec) security_group_ids_field
unfolding cleared
fades-security_group_ids = record {
  refs_ack = λ s ko. refl;
  refs_put = λ v ko. refl;
  view_put = λ v ko h. rw (cleared, h) refl;
}

fades-subnet_group_id : Fades instance_kind (λ k. cleared k.spec) subnet_group_id_field
unfolding cleared
fades-subnet_group_id = record {
  refs_ack = λ s ko. refl;
  refs_put = λ v ko. refl;
  view_put = λ v ko h. rw (cleared, h) refl;
}

-- Whatever ResolveReferences answers, ClearResolvedReferences takes away what it has written: the
-- resource that it returns has the same spec, cleared, as the resource that it was given.
pub clear-resolve_instance_references :
    {E : Type 0} (env : ReferenceEnv E) (ko : ReplicationInstance)
    → (clear_instance_references (resolve_instance_references env ko).0).spec
      ≡ (clear_instance_references ko).spec
unfolding resolve_instance_references
clear-resolve_instance_references env ko =
    clear_instance_references-cleared (resolve_instance_references env ko).0
    ∙ resolve_references-view instance_kind (λ k. cleared k.spec) env (λ k. k.namespace)
        (λ s k. refl) instance_reference_fields
        (
          fades-kms_key_id,
          (
            fades-key_cache_secret_iam_arn,
            (fades-key_cache_secret_id, (fades-security_group_ids, (fades-subnet_group_id, tt))),
          ),
        )
        ko
    ∙ sym (clear_instance_references-cleared ko)
