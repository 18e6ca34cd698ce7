-- ===== src/Prelude/Dict.antt =====
-- Go's `map[string]string` as an association list. A nil map reads like an empty one, which is all
-- that the operator does with it, and no order of iteration is relied on.
use Prim.Native.String.{String}
use mathlib.Core.Path.{◌≡◌, refl}
use mathlib.Core.Bool.{Bool, true, false}
use mathlib.Core.Option.{Option, none, some}
use mathlib.Core.List.{List, [], ◌∷◌}
use native.Mathlib.Omega.{arith}
use text.Mathlib.Text.{◌==◌}
use text.Mathlib.TextEquality.{eq_iff}
use mock_storage_operator.Prelude.Branch.{if◌then◌else◌}

abbrev pub Dict : Type 0
Dict = List (String × String)

-- `v, ok := dict[key]`
unfoldable pub lookup : String → Dict → Option String
lookup key [] = none
lookup key (entry ∷ dict) = if entry.0 == key then some entry.1 else lookup key dict

abbrev or_empty : Option String → String
or_empty none = ""
or_empty (some v) = v

-- `m[k]`, which is the empty text where the key is missing
unfoldable pub index : String → Dict → String
index k m = or_empty (lookup k m)

abbrev pub contains : String → Dict → Bool
contains k m = elim (lookup k m) [ none ↦ false | some _ ↦ true ]

-- `dict[key] = text`; an entry that is there is replaced where it stands
unfoldable pub insert : String → String → Dict → Dict
insert key text [] = (key, text) ∷ []
insert key text (entry ∷ dict) =
    if entry.0 == key then (key, text) ∷ dict else entry ∷ insert key text dict

-- `for k, v := range m { if keep(k) { out[k] = v } }`
unfoldable pub filter_keys : (String → Bool) → Dict → Dict
filter_keys keep [] = []
filter_keys keep ((j, v) ∷ m) =
    let rest = filter_keys keep m in if keep j then (j, v) ∷ rest else rest

-- `delete(m, k)`
unfoldable pub delete : String → Dict → Dict
delete k [] = []
delete k ((j, v) ∷ m) = let rest = delete k m in if j == k then rest else (j, v) ∷ rest

-- an insertion is seen under its key, and under no other
pub lookup-insert :
    (key other text : String) (dict : Dict)
    → lookup other (insert key text dict) ≡ (if key == other then some text else lookup other dict)
unfolding insert lookup
lookup-insert key other text [] = refl
lookup-insert key other text (entry ∷ dict) =
    let later = lookup-insert key other text dict in
    ground (later, eq_iff entry.0 other, eq_iff entry.0 key, eq_iff key other, arith)

pub lookup-filter_keys :
    (keep : String → Bool) (j : String) (m : Dict)
    → lookup j (filter_keys keep m) ≡ (if keep j then lookup j m else none)
unfolding lookup filter_keys
lookup-filter_keys keep j [] = ground arith
lookup-filter_keys keep j ((i, w) ∷ m) = ground (arith, eq_iff i j, lookup-filter_keys keep j m)

pub index-insert :
    (k j v : String) (m : Dict) → index j (insert k v m) ≡ (if k == j then v else index j m)
unfolding index
index-insert k j v m = ground (arith, lookup-insert k j v m)
