-- ===== src/Exec/Preserves.antt =====
-- Invariants of the state: an action keeps `P` if `P` holds after it whenever it held before,
-- however the action ends. There is one rule for each way to build an action.
use mock_storage_operator.Prelude.{Bool, true, false, String, List, [], ◌∷◌, if◌then◌else◌}
use mock_storage_operator.Exec.{
  Exec, Outcome, ok, err, panic, Error, pure, fail, crash, attempt, wrapping, enclosing, ◌>>=◌,
  ◌>>◌, resume, for_each,
}

pub record Preserves {S A : Type 0} (P : S → Type 0) (m : Exec S A) : Type 0 where
  pub after : (s : S) → P s → P (m s).1

module _ {S A : Type 0} {P : S → Type 0} where
  pub Preserves-pure : (a : A) → Preserves P (pure a)
  unfolding ◌>>=◌
  Preserves-pure a = record { after = λ s h. h }

  pub Preserves-fail : (e : Error) → Preserves P (fail {A = A} e)
  unfolding ◌>>=◌
  Preserves-fail e = record { after = λ s h. h }

  pub Preserves-crash : Preserves P (crash {A = A})
  unfolding ◌>>=◌
  Preserves-crash = record { after = λ s h. h }

  pub Preserves-attempt : (m : Exec S A) → Preserves P m → Preserves P (attempt m)
  unfolding ◌>>=◌
  Preserves-attempt m k = record { after = k.after }

  pub Preserves-wrapping :
      (text : String) (m : Exec S A) → Preserves P m → Preserves P (wrapping text m)
  unfolding ◌>>=◌
  Preserves-wrapping text m k = record { after = k.after }

  pub Preserves-enclosing :
      (text later : String) (m : Exec S A) → Preserves P m → Preserves P (enclosing text m later)
  unfolding ◌>>=◌
  Preserves-enclosing text later m k = record { after = k.after }

  pub Preserves-if :
      (b : Bool) (m n : Exec S A) → Preserves P m → Preserves P n → Preserves P (if b then m else n)
  Preserves-if true m n then_m else_n = then_m
  Preserves-if false m n then_m else_n = else_n

module _ {S A B : Type 0} {P : S → Type 0} where
  Preserves-resume :
      (r : Outcome A) (f : A → Exec S B) (s : S)
      → P s
      → ((a : A) → Preserves P (f a))
      → P (resume r f s).1
  Preserves-resume (ok a) f s h rest = (rest a).after s h
  Preserves-resume (err e) f s h rest = h
  Preserves-resume panic f s h rest = h

  pub Preserves-bind :
      (m : Exec S A) (f : A → Exec S B)
      → Preserves P m
      → ((a : A) → Preserves P (f a))
      → Preserves P (m >>= f)
  unfolding ◌>>=◌
  Preserves-bind m f first rest = record {
    after = λ s h. let (r, s') = m s in Preserves-resume r f s' (first.after s h) rest;
  }

  pub Preserves-then :
      (m : Exec S A) (n : Exec S B) → Preserves P m → Preserves P n → Preserves P (m >> n)
  Preserves-then m n first next = Preserves-bind m _ first (λ _. next)

module _ {S A : Type 0} {P : S → Type 0} where
  pub Preserves-for_each :
      (items : List A) (body : A → Exec S (Unit {0}))
      → ((a : A) → Preserves P (body a))
      → Preserves P (for_each items body)
  unfolding for_each
  Preserves-for_each [] body each = Preserves-pure tt
  Preserves-for_each (a ∷ items) body each =
      Preserves-bind (body a) _ (each a) (λ _. Preserves-for_each items body each)

-- A split on a test, a reply or an option in the course of an action.
pub ruleset preserves_rules = (
  Preserves-pure, Preserves-fail, Preserves-crash, Preserves-attempt, Preserves-wrapping,
  Preserves-enclosing, Preserves-if, Preserves-bind, Preserves-for_each,
)
