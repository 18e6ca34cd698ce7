-- ===== src/Volsync/Owners/Updating.antt =====
-- When an object is updated for its owner references.
use mock_storage_operator.Prelude.{
  not-false, ℕ, ◌≡◌, refl, ap, ◌∙◌, ◌↔◌, Bool, true, false, not, ◌&&◌, ◌||◌, String, ◌==◌, eq_iff,
  eq_refl, Option, none, some, List, [], ◌∷◌, eqb, arith, both_true,
}
use mock_storage_operator.Exec.{Exec, Outcome, ok, ◌>>=◌}
use mock_storage_operator.Volsync.Owners.{
  Owned, add_owner_reference, update_if_changed, add_owner_reference_and_update, OwnerReference,
  same_address, same_reference, length, any_changed, refs_changed,
}

neither : (a b : Bool) → (a || b) ≡ false → (a ≡ false) × (b ≡ false)
neither true b e = (e, ground (arith, e))
neither false b e = (refl, e)

eqb_refl : (n : ℕ) → eqb n n ≡ true
eqb_refl n = ground arith

same_address_sound : (a b : Option ℕ) → same_address a b ≡ true → a ≡ b
same_address_sound none none e = refl
same_address_sound none (some b) e = ground (arith, e)
same_address_sound (some a) none e = ground (arith, e)
same_address_sound (some a) (some b) e = ap some (ground (arith, e))

same_address_refl : (a : Option ℕ) → same_address a a ≡ true
same_address_refl none = refl
same_address_refl (some a) = ground arith

same_text : (a b : String) → (a == b) ≡ true → a ≡ b
same_text a b e = (eq_iff a b).0 e

same_reference_sound : (a b : OwnerReference) → same_reference a b ≡ true → a ≡ b
unfolding same_reference
same_reference_sound a b e =
    let version = a.api_version == b.api_version in
    let kind = a.kind == b.kind in
    let name = a.name == b.name in
    let uid = a.uid == b.uid in
    let controller = same_address a.controller b.controller in
    let block = same_address a.block_owner_deletion b.block_owner_deletion in
    let texts = both_true (version && kind && (name && uid)) (controller && block) e in
    let kinds = both_true (version && kind) (name && uid) texts.0 in
    let of_type = both_true version kind kinds.0 in
    let of_object = both_true name uid kinds.1 in
    let addresses = both_true controller block texts.1 in
    λ i. record {
      api_version = same_text a.api_version b.api_version of_type.0 i;
      kind = same_text a.kind b.kind of_type.1 i;
      name = same_text a.name b.name of_object.0 i;
      uid = same_text a.uid b.uid of_object.1 i;
      controller = same_address_sound a.controller b.controller addresses.0 i;
      block_owner_deletion =
          same_address_sound a.block_owner_deletion b.block_owner_deletion addresses.1 i;
    }

same_reference_refl : (a : OwnerReference) → same_reference a a ≡ true
unfolding same_reference
same_reference_refl a = simp (eq_refl, same_address_refl)

any_changed_refl : (refs : List OwnerReference) → any_changed refs refs ≡ false
unfolding any_changed
any_changed_refl [] = refl
any_changed_refl (r ∷ refs) = rw (same_reference_refl r) (any_changed_refl refs)

any_changed-same :
    (refs current : List OwnerReference)
    → eqb (length refs) (length current) ≡ true
    → any_changed refs current ≡ false
    → refs ≡ current
unfolding any_changed
any_changed-same [] [] e none_changed = refl
any_changed-same [] (c ∷ current) e none_changed = ground (arith, e)
any_changed-same (r ∷ refs) [] e none_changed = ground (arith, none_changed)
any_changed-same (r ∷ refs) (c ∷ current) e none_changed =
    let (first, others) = neither (not (same_reference r c)) _ none_changed in
    ap (λ x. x ∷ refs) (same_reference_sound r c (not-false _ first))
    ∙ ap (λ xs. c ∷ xs) (any_changed-same refs current (ground (arith, e)) others)

refs_changed-same :
    (refs current : List OwnerReference) → refs_changed refs current ≡ false → refs ≡ current
unfolding refs_changed
refs_changed-same refs current unchanged =
    let (lengths, others) = neither (not (eqb (length refs) (length current))) _ unchanged in
    any_changed-same refs current (not-false _ lengths) others

refs_changed_refl : (refs : List OwnerReference) → refs_changed refs refs ≡ false
unfolding refs_changed
refs_changed_refl refs = rw (eqb_refl (length refs)) (any_changed_refl refs)

module _ {W A O : Type 0} (owner_references : A → List OwnerReference) (name_of : A → String)
    (set_owner_reference : O → A → Outcome (Owned A)) (update : A → Exec W A) where
  -- addOwnerReference asks for an update just when the object's references differ, in number or at
  -- some place, from what the slice of its former references shows; pointers count as addresses.
  pub add_owner_reference-changed :
      (obj : A) (owner : O) (owned : Owned A) (w : W)
      → set_owner_reference owner obj ≡ ok owned
      → (needs_update : Bool) × (add_owner_reference owner_references name_of set_owner_reference
            update obj owner w
          ≡ (ok (owned.object, needs_update), w))
        × ((needs_update ≡ false) ↔ (owner_references owned.object ≡ owned.former))
  unfolding add_owner_reference ◌>>=◌
  add_owner_reference-changed obj owner owned w set = (
    refs_changed (owner_references owned.object) owned.former,
    rw set refl,
    (
      refs_changed-same (owner_references owned.object) owned.former,
      λ same. rw same (refs_changed_refl owned.former),
    ),
  )

  -- Where SetOwnerReference has written the new reference into the slice that the object had before,
  -- so that this slice shows the object's references, addOwnerReferenceAndUpdate returns normally and
  -- does not call the API server: the new reference is in memory alone.
  pub add_owner_reference_and_update-in_place :
      (obj : A) (owner : O) (owned : Owned A) (w : W)
      → set_owner_reference owner obj ≡ ok owned
      → owned.former ≡ owner_references owned.object
      → add_owner_reference_and_update owner_references name_of set_owner_reference update obj owner
          w
        ≡ (ok tt, w)
  unfolding add_owner_reference_and_update add_owner_reference update_if_changed ◌>>=◌
  add_owner_reference_and_update-in_place obj owner owned w set in_place =
      rw set (rw in_place (rw (refs_changed_refl (owner_references owned.object)) refl))
