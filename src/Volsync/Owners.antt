-- ===== src/Volsync/Owners.antt =====
-- internal/volsync/handler.go: addOwnerReference and addOwnerReferenceAndUpdate, on an object of any
-- kind. `SetOwnerReference` is a parameter. It may write into the very slice that the object had
-- before, so it answers what that slice then shows, beside the object.
pub mod Updating
use mock_storage_operator.Prelude.{
  ℕ, zero, suc, ◌+◌, Bool, true, false, not, ◌&&◌, ◌||◌, String, ◌<>◌, ◌==◌, Option, none, some,
  List, [], ◌∷◌, eqb, if◌then◌else◌,
}
use mock_storage_operator.Exec.{
  Exec, Outcome, Reply, value, error, enclose, pure, fail, lift, attempt, wrapping, ◌>>=◌,
}

-- `metav1.OwnerReference`; a pointer is the address of its cell
pub record OwnerReference : Type 0 where
  pub api_version : String
  pub kind : String
  pub name : String
  pub uid : String
  pub controller : Option ℕ
  pub block_owner_deletion : Option ℕ

abbrev pub same_address : Option ℕ → Option ℕ → Bool
same_address none none = true
same_address none (some b) = false
same_address (some a) none = false
same_address (some a) (some b) = eqb a b

-- `a == b` on the structs, where pointers are equal as addresses
unfoldable pub same_reference : OwnerReference → OwnerReference → Bool
same_reference a b =
    a.api_version == b.api_version
    && a.kind == b.kind
    && (a.name == b.name && a.uid == b.uid)
    && (same_address a.controller b.controller
        && same_address a.block_owner_deletion b.block_owner_deletion)

abbrev pub length : List OwnerReference → ℕ
length [] = 0
length (r ∷ refs) = 1 + length refs

-- the loop over the references that the object has now
unfoldable pub any_changed : List OwnerReference → List OwnerReference → Bool
unfolding same_reference
any_changed [] current = false
any_changed (r ∷ refs) [] = true
any_changed (r ∷ refs) (c ∷ current) = not (same_reference r c) || any_changed refs current

-- `needsUpdate`
unfoldable pub refs_changed : List OwnerReference → List OwnerReference → Bool
unfolding any_changed
refs_changed refs current = not (eqb (length refs) (length current)) || any_changed refs current

-- the object with its owner, and what the slice of its former references shows
pub record Owned (A : Type 0) : Type 0 where
  pub object : A
  pub former : List OwnerReference

module _ {W A O : Type 0} (owner_references : A → List OwnerReference) (name_of : A → String)
    (set_owner_reference : O → A → Outcome (Owned A)) (update : A → Exec W A) where
  -- addOwnerReference, with the object that it has changed
  unfoldable pub add_owner_reference : A → O → Exec W (A × Bool)
  add_owner_reference obj owner = do
    owned ← wrapping "" (lift (set_owner_reference owner obj))
    pure (owned.object, refs_changed (owner_references owned.object) owned.former)

  -- the error of the update
  unfoldable pub updated_or_fail : A → Reply A → Exec W (Unit {0})
  updated_or_fail obj (value stored) = pure tt
  updated_or_fail obj (error e) =
      fail (enclose ("failed to add owner reference to " <> (name_of obj <> " (")) e ")")

  -- `if needsUpdate`
  unfoldable pub update_if_changed : A × Bool → Exec W (Unit {0})
  update_if_changed (obj, needs_update) =
      if needs_update then (do reply ← attempt (update obj); updated_or_fail obj reply) else pure tt

  -- addOwnerReferenceAndUpdate
  unfoldable pub add_owner_reference_and_update : A → O → Exec W (Unit {0})
  add_owner_reference_and_update obj owner = do
    added ← add_owner_reference obj owner
    update_if_changed added
