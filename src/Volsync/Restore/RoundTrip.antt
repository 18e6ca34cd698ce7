-- ===== src/Volsync/Restore/RoundTrip.antt =====
-- A claim that CreateTemporaryPVCFromTerminating copies and RestorePVCFromTemporary makes again.
use mathlib.Core.Bool.{true≢false, or-true, and-false}
use text.Mathlib.TextBridge.{IsPrefix}
use text.Mathlib.TextEquality.{starts_with_iff}
use mock_storage_operator.Prelude.{
  ◌≡◌, ◌≢◌, ◌⊎◌, sym, ap, false, ◌∙◌, refl, true, ◌&&◌, String, ◌==◌, Option, none, some, [],
  eq_iff, arith, Bool-cases, inl, inr, if◌then◌else◌,
}
use mock_storage_operator.Prelude.Dict.{
  Dict, lookup, insert, filter_keys, lookup-insert, lookup-filter_keys,
}
use mock_storage_operator.Objects.{Key, key_of, Pvc, Pv}
use mock_storage_operator.Volsync.{
  vgr_owner_label, vgr_owner_namespace_label, temporary_pvc_annotation,
}
use mock_storage_operator.Volsync.Temporary.{keeps_annotation, temporary_annotations, temporary_pvc}
use mock_storage_operator.Volsync.Restore.{
  restores_annotation, restores_label, copy_label, restored_labels, restored_pvc,
}

copied :
    (key j : String) (o : Option String) (to : Dict)
    → lookup key to ≡ none
    → lookup j (elim o [ none ↦ to | some val ↦ insert key val to ])
      ≡ (if key == j then o else lookup j to)
copied key j none to absent = ground (arith, eq_iff key j, absent)
copied key j (some val) to absent = lookup-insert key j val to

abbrev consistency_group_label : String
consistency_group_label = "ramendr.openshift.io/consistency-group"

abbrev temporary_text : String
temporary_text = "not reconcilable; used only to hold the main PVC info for restore"

lookup-copy_label :
    (key j : String) (from to : Dict)
    → lookup key to ≡ none
    → lookup j (copy_label key from to) ≡ (if key == j then lookup key from else lookup j to)
unfolding copy_label
lookup-copy_label key j from to absent = copied key j (lookup key from) to absent

lookup-restored_labels :
    (j : String) (labels : Dict)
    → lookup j (restored_labels labels) ≡ (if restores_label j then lookup j labels else none)
unfolding restored_labels restores_label lookup
lookup-restored_labels j labels =
    let owner = lookup-copy_label vgr_owner_label j labels [] refl in
    let namespace =
      lookup-copy_label vgr_owner_namespace_label j labels (copy_label vgr_owner_label labels [])
        (lookup-copy_label vgr_owner_label vgr_owner_namespace_label labels [] refl) in
    let group =
      lookup-copy_label consistency_group_label j labels
        (copy_label vgr_owner_namespace_label labels (copy_label vgr_owner_label labels []))
        (lookup-copy_label vgr_owner_namespace_label consistency_group_label labels _
            (lookup-copy_label vgr_owner_label vgr_owner_namespace_label labels [] refl)
          ∙ lookup-copy_label vgr_owner_label consistency_group_label labels [] refl) in
    ground (
      arith,
      owner,
      namespace,
      group,
      eq_iff vgr_owner_label j,
      eq_iff j vgr_owner_label,
      eq_iff vgr_owner_namespace_label j,
      eq_iff j vgr_owner_namespace_label,
      eq_iff consistency_group_label j,
      eq_iff j consistency_group_label,
    )

lookup-temporary_annotations :
    (j : String) (annotations : Dict)
    → restores_annotation j ≡ true
    → lookup j (temporary_annotations annotations)
      ≡ (if keeps_annotation j then lookup j annotations else none)
unfolding temporary_annotations restores_annotation
lookup-temporary_annotations j annotations kept = ground (
  arith,
  lookup-insert temporary_pvc_annotation j temporary_text
      (filter_keys keeps_annotation annotations),
  lookup-filter_keys keeps_annotation j annotations,
  eq_iff temporary_pvc_annotation j,
  eq_iff j temporary_pvc_annotation,
)

both_annotations :
    (j : String) (annotations : Dict)
    → lookup j (filter_keys restores_annotation (temporary_annotations annotations))
      ≡ (if restores_annotation j && keeps_annotation j then lookup j annotations else none)
both_annotations j annotations = elim (Bool-cases (restores_annotation j)) [
  | inl kept ↦
      lookup-filter_keys restores_annotation j _
      ∙ rw kept (lookup-temporary_annotations j annotations kept)
  | inr dropped ↦ lookup-filter_keys restores_annotation j _ ∙ rw dropped refl
]

-- the annotations that the application's placement and Ramen need
abbrev pub IsKept : String → Type 0
IsKept j =
    (j ≡ "volumereplicationgroups.ramendr.openshift.io/ramen-restore")
    ⊎ IsPrefix "apps.open-cluster-management.io" j

IsKept-keeps_annotation : (j : String) → keeps_annotation j ≡ true → IsKept j
unfolding keeps_annotation
IsKept-keeps_annotation j keeps =
    elim (Bool-cases (j == "volumereplicationgroups.ramendr.openshift.io/ramen-restore")) [
      | inl same ↦ inl ((eq_iff _ _).0 same)
      | inr other ↦ inr ((starts_with_iff j _).0 (rw other at keeps))
    ]

keeps_annotation-IsKept : (j : String) → IsKept j → keeps_annotation j ≡ true
unfolding keeps_annotation
keeps_annotation-IsKept j (inl same) = rw ((eq_iff _ _).1 same) refl
keeps_annotation-IsKept j (inr prefix) = rw ((starts_with_iff j _).1 prefix) (or-true _)

differs :
    (j other : String)
    → keeps_annotation j ≡ true
    → keeps_annotation other ≡ false
    → (j == other) ≡ false
differs j other keeps drops = elim (Bool-cases (j == other)) [
  | inl same ↦ absurd (true≢false (sym keeps ∙ ap keeps_annotation ((eq_iff _ _).0 same) ∙ drops))
  | inr apart ↦ apart
]

restores_annotation-keeps : (j : String) → keeps_annotation j ≡ true → restores_annotation j ≡ true
unfolding restores_annotation keeps_annotation
restores_annotation-keeps j keeps =
    rw
      (
        differs j temporary_pvc_annotation keeps refl,
        differs j "pv.kubernetes.io/bind-completed" keeps refl,
      )
      refl

-- what a claim that is made again has of another claim: the fields of the spec that are named, bound
-- to the volume, three labels, and the annotations that are kept
pub record Remade (k : Key) (pvc : Pvc) (pv : Pv) (made : Pvc) : Type 0 where
  pub named : key_of made.meta ≡ k
  pub access_modes : made.spec.access_modes ≡ pvc.spec.access_modes
  pub requests : made.spec.requests ≡ pvc.spec.requests
  pub limits : made.spec.limits ≡ pvc.spec.limits
  pub storage_class_name : made.spec.storage_class_name ≡ pvc.spec.storage_class_name
  pub volume_mode : made.spec.volume_mode ≡ pvc.spec.volume_mode
  pub volume_name : made.spec.volume_name ≡ pv.name
  pub selector : made.spec.selector ≡ none
  pub data_source : made.spec.data_source ≡ none
  pub data_source_ref : made.spec.data_source_ref ≡ none
  pub owner :
      lookup "volumegroupreplication-owner" made.labels
      ≡ lookup "volumegroupreplication-owner" pvc.labels
  pub owner_namespace :
      lookup "volumegroupreplication-owner-namespace" made.labels
      ≡ lookup "volumegroupreplication-owner-namespace" pvc.labels
  pub consistency_group :
      lookup "ramendr.openshift.io/consistency-group" made.labels
      ≡ lookup "ramendr.openshift.io/consistency-group" pvc.labels
  pub no_other_label :
      (j : String)
      → j ≢ "volumegroupreplication-owner"
      → j ≢ "volumegroupreplication-owner-namespace"
      → j ≢ "ramendr.openshift.io/consistency-group"
      → lookup j made.labels ≡ none
  pub annotation : (j : String) → IsKept j → lookup j made.annotations ≡ lookup j pvc.annotations
  pub no_other_annotation : (j : String) → ¬ IsKept j → lookup j made.annotations ≡ none
  pub no_finalizer : made.finalizers ≡ []

apart : (j other : String) → j ≢ other → (j == other) ≡ false
apart j other ne = elim (Bool-cases (j == other)) [
  | inl same ↦ absurd (ne ((eq_iff _ _).0 same))
  | inr differ ↦ differ
]

not_restored :
    (j : String)
    → j ≢ "volumegroupreplication-owner"
    → j ≢ "volumegroupreplication-owner-namespace"
    → j ≢ "ramendr.openshift.io/consistency-group"
    → restores_label j ≡ false
unfolding restores_label
not_restored j a b c = rw (apart j _ a, apart j _ b, apart j _ c) refl

annotation_kept :
    (j : String) (annotations : Dict)
    → IsKept j
    → lookup j (filter_keys restores_annotation (temporary_annotations annotations))
      ≡ lookup j annotations
annotation_kept j annotations kept =
    let keeps = keeps_annotation-IsKept j kept in
    both_annotations j annotations ∙ rw (restores_annotation-keeps j keeps) (rw keeps refl)

annotation_dropped :
    (j : String) (annotations : Dict)
    → ¬ IsKept j
    → lookup j (filter_keys restores_annotation (temporary_annotations annotations)) ≡ none
annotation_dropped j annotations dropped =
    both_annotations j annotations ∙ elim (Bool-cases (keeps_annotation j)) [
      | inl keeps ↦ absurd (dropped (IsKept-keeps_annotation j keeps))
      | inr drops ↦ rw drops (rw (and-false _) refl)
    ]

-- A claim that is made again from the temporary claim of another has the name that is asked for, no
-- finalizer, and of the other claim's spec the access modes, the requests and limits, the storage
-- class and the volume mode, bound to the volume, with no selector and no data source. Of the labels
-- it has the owner's two and the consistency group's, as the other claim has them, and no more. Of the
-- annotations it has Ramen's ramen-restore and those whose names start with
-- apps.open-cluster-management.io, as the other claim has them, and no more.
pub restored_pvc-Remade :
    (k old : Key) (pvc : Pvc) (pv pv' : Pv)
    → Remade k pvc pv' (restored_pvc k (temporary_pvc old pvc pv) pv')
unfolding restored_pvc temporary_pvc restores_label
restored_pvc-Remade k old pvc pv pv' = record {
  named = refl;
  access_modes = refl;
  requests = refl;
  limits = refl;
  storage_class_name = refl;
  volume_mode = refl;
  volume_name = refl;
  selector = refl;
  data_source = refl;
  data_source_ref = refl;
  owner = lookup-restored_labels "volumegroupreplication-owner" pvc.labels;
  owner_namespace = lookup-restored_labels "volumegroupreplication-owner-namespace" pvc.labels;
  consistency_group = lookup-restored_labels "ramendr.openshift.io/consistency-group" pvc.labels;
  no_other_label = λ j a b c. lookup-restored_labels j pvc.labels ∙ rw (not_restored j a b c) refl;
  annotation = λ j kept. annotation_kept j pvc.annotations kept;
  no_other_annotation = λ j dropped. annotation_dropped j pvc.annotations dropped;
  no_finalizer = refl;
}
