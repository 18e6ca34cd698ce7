-- ===== src/Tests/Secrets.antt =====
-- The theorems on secrets and owner references, applied.
use mock_storage_operator.Prelude.{
  ℕ, zero, suc, ◌≡◌, refl, sym, ◌↔◌, Bool, false, String, ◌<>◌, List, [], ◌∷◌, arith, none,
}
use mock_storage_operator.Exec.{Exec, Outcome, ok, ◌>>=◌}
use mock_storage_operator.Volsync.Secrets.{
  Secret, encode_to_string, gen_tls_pre_shared_key, generate_volsync_replication_secret,
}
use mock_storage_operator.Volsync.Secrets.Readable.{
  AllBytes, length, Generated, generate_volsync_replication_secret-Generated,
}
use mock_storage_operator.Volsync.Owners.{
  OwnerReference, Owned, add_owner_reference, add_owner_reference_and_update,
}
use mock_storage_operator.Volsync.Owners.Updating.{
  add_owner_reference-changed, add_owner_reference_and_update-in_place,
}
use mock_storage_operator.Tests.Claims.{handler}

-- a source that is not very random: it gives sevens and counts the calls
abbrev sevens : ℕ → List ℕ
sevens zero = []
sevens (suc n) = 7 ∷ sevens n

abbrev read_sevens : ℕ → Exec ℕ (List ℕ)
read_sevens n w = (ok (sevens n), suc w)

sevens-AllBytes : (n : ℕ) → AllBytes (sevens n) × (length (sevens n) ≡ n)
sevens-AllBytes zero = (tt, refl)
sevens-AllBytes (suc n) =
    ((omega arith, (sevens-AllBytes n).0), ground (arith, (sevens-AllBytes n).1))

ok_same : {A : Type 0} {a b : A} {v w : ℕ} → Path (Outcome A × ℕ) (ok a, v) (ok b, w) → a ≡ b
ok_same e = cc

fills :
    (n w w' : ℕ) (bytes : List ℕ)
    → read_sevens n w ≡ (ok bytes, w')
    → AllBytes bytes × (length bytes ≡ n)
fills n w w' bytes e = rw (sym (ok_same e)) (sevens-AllBytes n)

abbrev seventh : Secret
seventh = record {
  namespace = "app";
  name = "psk";
  string_data = ("psk.txt", "volsyncmock:" <> encode_to_string (sevens 64)) ∷ [];
}

generate_volsync_replication_secret-Generated_example :
    Generated read_sevens handler "psk" 0 1 seventh
unfolding generate_volsync_replication_secret gen_tls_pre_shared_key ◌>>=◌
generate_volsync_replication_secret-Generated_example =
    generate_volsync_replication_secret-Generated read_sevens fills handler "psk" 0 1 seventh refl

-- an object that is its references; its owner's reference replaces the first in place
abbrev replace_first : OwnerReference → List OwnerReference → Outcome (Owned (List OwnerReference))
replace_first r [] = ok (record { object = r ∷ []; former = [] })
replace_first r (old ∷ refs) = ok (record { object = r ∷ refs; former = r ∷ refs })

abbrev reference : String → OwnerReference
reference uid = record {
  api_version = "v1";
  kind = "VolumeGroupReplication";
  name = "group";
  uid = uid;
  controller = none;
  block_owner_deletion = none;
}

abbrev store : List OwnerReference → Exec (List OwnerReference) (List OwnerReference)
store refs w = (ok refs, refs)

add_owner_reference-changed_example :
    (needs_update : Bool) × (add_owner_reference
        (λ refs. refs)
        (λ _. "claim")
        replace_first
        store
        []
        (reference "new")
        []
      ≡ (ok (reference "new" ∷ [], needs_update), []))
    × ((needs_update ≡ false) ↔ ◌≡◌ {A = List OwnerReference} (reference "new" ∷ []) [])
add_owner_reference-changed_example =
    add_owner_reference-changed (λ refs. refs) (λ _. "claim") replace_first store []
      (reference "new") (record { object = reference "new" ∷ []; former = [] }) [] refl

add_owner_reference_and_update-in_place_example :
    add_owner_reference_and_update
      (λ refs. refs)
      (λ _. "claim")
      replace_first
      store
      (reference "old" ∷ [])
      (reference "new")
      []
    ≡ (ok tt, [])
add_owner_reference_and_update-in_place_example =
    add_owner_reference_and_update-in_place (λ refs. refs) (λ _. "claim") replace_first store
      (reference "old" ∷ []) (reference "new")
      (record { object = reference "new" ∷ []; former = reference "new" ∷ [] }) [] refl refl
