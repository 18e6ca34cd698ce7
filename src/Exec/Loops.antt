-- ===== src/Exec/Loops.antt =====
-- What a loop over a list has done when it returns normally: each round does its part, and later
-- rounds keep what earlier ones have done.
use mock_storage_operator.Prelude.{List, [], ◌∷◌}
use mock_storage_operator.Exec.{Exec, for_each}
use mock_storage_operator.Exec.Ensures.{Ensures, Ensures-pure, Ensures-bind, Ensures-weaken}

-- of every element of a list
abbrev pub All : {A : Type 0} → (A → Type 0) → List A → Type 0
All P [] = Unit {0}
All P (a ∷ items) = P a × All P items

-- what relates the states before and after, round by round
pub record IsStep {S A : Type 0} (Done : A → S → Type 0) (Step : S → S → Type 0) : Type 0 where
  pub none_done : (s : S) → Step s s
  pub one_after_another : (s t u : S) → Step s t → Step t u → Step s u
  pub stays_done : (a : A) (s t : S) → Step s t → Done a s → Done a t

module _ {S A : Type 0} {Done : A → S → Type 0} {Step : S → S → Type 0} (I : IsStep Done Step)
    (body : A → Exec S (Unit {0}))
    (round : (a : A) (s : S) → Ensures (body a) s (λ _ t. Done a t × Step s t)) where
  pub for_each-All :
      (items : List A) (s : S)
      → Ensures (for_each items body) s (λ _ t. All (λ a. Done a t) items × Step s t)
  unfolding for_each
  for_each-All [] s = Ensures-pure tt (tt, I.none_done s)
  for_each-All (a ∷ items) s = Ensures-bind (round a s) λ _ t first.
      Ensures-weaken (for_each-All items t) λ _ u rest.
        ((I.stays_done a t u rest.1 first.0, rest.0), I.one_after_another s t u first.1 rest.1)
