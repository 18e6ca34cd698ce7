-- ===== src/Prelude/Text.antt =====
-- Go's `strings.HasSuffix`, `strings.TrimSuffix` and `+` on the native texts.
use Prim.Native.String.{String, [], ◌∷◌}
pub use Prim.Native.String.{◌++◌ as ◌<>◌}
pub use text.Mathlib.Text.{starts_with}
use mathlib.Core.Path.{◌≡◌, sym, ap, ◌∙◌}
use mathlib.Core.Logic.{inl, inr}
use mathlib.Core.Bool.{Bool, true, ◌||◌}
use text.Mathlib.Text.{◌==◌}
use text.Mathlib.TextEquality.{eq_iff}
use text.Mathlib.TextLemmas.{nil-append, cons-append}
use mock_storage_operator.Prelude.Branch.{if◌then◌else◌, Bool-cases}

unfoldable pub has_suffix : String → String → Bool
has_suffix [] suffix = [] == suffix
has_suffix (c ∷ s) suffix = (c ∷ s) == suffix || has_suffix s suffix

unfoldable pub trim_suffix : String → String → String
trim_suffix [] suffix = []
trim_suffix (c ∷ s) suffix = if (c ∷ s) == suffix then [] else c ∷ trim_suffix s suffix

pub trim_suffix-has_suffix :
    (s suffix : String) → has_suffix s suffix ≡ true → trim_suffix s suffix <> suffix ≡ s
unfolding has_suffix trim_suffix
trim_suffix-has_suffix [] suffix has = nil-append suffix ∙ sym ((eq_iff [] suffix).0 has)
trim_suffix-has_suffix (c ∷ s) suffix has = elim (Bool-cases ((c ∷ s) == suffix)) [
  | inl same ↦ rw same (nil-append suffix ∙ sym ((eq_iff (c ∷ s) suffix).0 same))
  | inr differ ↦ rw differ (
      cons-append c _ suffix ∙ ap (λ t. c ∷ t) (trim_suffix-has_suffix s suffix (rw differ at has)))
]
