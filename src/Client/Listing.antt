-- ===== src/Client/Listing.antt =====
-- What the operator relies on when it lists: a list changes nothing and leaves out no object that
-- is stored under the namespace and with the labels that were asked for.
use mock_storage_operator.Prelude.{
  ◌≡◌, Bool, true, false, ◌&&◌, ◌||◌, String, ◌==◌, Option, none, some, List, [], ◌∷◌,
}
use mock_storage_operator.Prelude.Dict.{Dict, lookup}
use mock_storage_operator.Exec.Ensures.{Ensures}
use mock_storage_operator.Objects.{Key, key_of, ObjectMeta, Pvc, Rs, Rd, ListOptions}
use mock_storage_operator.Client.{Client}
use mock_storage_operator.Client.Laws.{IsLawful, key_eq}

abbrev is_text : String → Option String → Bool
is_text text none = false
is_text text (some other) = other == text

abbrev pub has_labels : Dict → Dict → Bool
has_labels [] labels = true
has_labels ((label, text) ∷ wanted) labels =
    is_text text (lookup label labels) && has_labels wanted labels

abbrev pub in_namespace : Option String → ObjectMeta → Bool
in_namespace none m = true
in_namespace (some namespace) m = m.namespace == namespace

-- `client.InNamespace` and `client.MatchingLabels`
abbrev pub matches : ListOptions → ObjectMeta → Bool
matches o m = in_namespace o.in_namespace m && has_labels o.matching_labels m.labels

-- some item has the key
abbrev pub lists : {A : Type 0} → (A → ObjectMeta) → Key → List A → Bool
lists meta k [] = false
lists meta k (a ∷ items) = key_eq (key_of (meta a)) k || lists meta k items

-- every stored object that matches is among the items
pub record Complete {A : Type 0} (meta : A → ObjectMeta) (stored : Key → Option A) (o : ListOptions)
    (items : List A) : Type 0 where
  pub listed :
      (k : Key) (a : A) → stored k ≡ some a → matches o (meta a) ≡ true → lists meta k items ≡ true

pub record IsListing (C : Client) (L : IsLawful C) : Type 0 where
  pub list_pvcs :
      (o : ListOptions) (w : C.World)
      → o.selector ≡ []
      → Ensures (C.list_pvcs o) w (λ items w'.
        (L.view w' ≡ L.view w) × Complete (λ (x : Pvc). x.meta) (L.view w).pvc o items)
  pub list_rss :
      (o : ListOptions) (w : C.World)
      → o.selector ≡ []
      → Ensures
          (C.list_rss o)
          w
          (λ items w'. (L.view w' ≡ L.view w) × Complete (λ (x : Rs). x.meta) (L.view w).rs o items)
  pub list_rds :
      (o : ListOptions) (w : C.World)
      → o.selector ≡ []
      → Ensures
          (C.list_rds o)
          w
          (λ items w'. (L.view w' ≡ L.view w) × Complete (λ (x : Rd). x.meta) (L.view w).rd o items)
