-- ===== src/Controller/Conditions/Lookup.antt =====
-- The list of conditions as a map from types to conditions.
use mock_storage_operator.Prelude.{
  ℕ, suc, ◌≡◌, refl, ◌&&◌, eqb, String, ◌==◌, Option, none, some, List, [], ◌∷◌, eq_iff, arith,
  if◌then◌else◌,
}
use mock_storage_operator.Objects.{Condition}
use mock_storage_operator.Controller.Conditions.{set_condition}

-- the first condition of a type
unfoldable pub condition_of : String → List Condition → Option Condition
condition_of cond_type [] = none
condition_of cond_type (c ∷ cs) =
    if c.cond_type == cond_type then some c else condition_of cond_type cs

-- how many conditions of a type there are
unfoldable pub occurrences : String → List Condition → ℕ
occurrences cond_type [] = 0
occurrences cond_type (c ∷ cs) =
    if c.cond_type == cond_type then suc (occurrences cond_type cs) else occurrences cond_type cs

-- setCondition makes the given condition the one of its type, and leaves the condition of every
-- other type as it was.
pub condition_of-set_condition :
    (new : Condition) (cs : List Condition) (j : String)
    → condition_of j (set_condition new cs)
      ≡ (if new.cond_type == j then some new else condition_of j cs)
unfolding condition_of set_condition
condition_of-set_condition new [] j = refl
condition_of-set_condition new (c ∷ cs) j = ground (
  arith,
  eq_iff c.cond_type new.cond_type,
  eq_iff c.cond_type j,
  eq_iff new.cond_type j,
  condition_of-set_condition new cs j,
)

-- setCondition adds a condition where there was none of its type, and otherwise keeps, for every
-- type, the number of its conditions: a list without two conditions of one type stays such a list.
pub occurrences-set_condition :
    (new : Condition) (cs : List Condition) (j : String)
    → occurrences j (set_condition new cs)
      ≡ (if new.cond_type == j && eqb (occurrences j cs) 0 then 1 else occurrences j cs)
unfolding occurrences set_condition
occurrences-set_condition new [] j = ground arith
occurrences-set_condition new (c ∷ cs) j = ground (
  arith,
  eq_iff c.cond_type new.cond_type,
  eq_iff c.cond_type j,
  eq_iff new.cond_type j,
  occurrences-set_condition new cs j,
)
