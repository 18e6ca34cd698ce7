-- ===== src/Exec/Ensures.antt =====
-- What holds when an action returns normally: `Ensures m s Q` says that if `m` returns `a` from `s`
-- and leaves `s'`, then `Q a s'`. Laws of the API server are stated of `attempt m`, whose normal
-- returns include the errors that the caller looks at.
use mock_storage_operator.Prelude.{◌≡◌, refl, Bool, true, false, String, if◌then◌else◌}
use mock_storage_operator.Exec.{
  Exec, Outcome, ok, err, panic, Error, Reply, value, pure, fail, attempt, wrapping, enclosing,
  resume, reply_of, wrapped, enclosed, ◌>>=◌,
}

abbrev pub Post : {S A : Type 0} → (A → S → Type 0) → Outcome A × S → Type 0
Post Q (ok a, s) = Q a s
Post Q (err e, s) = Unit {0}
Post Q (panic, s) = Unit {0}

pub record Ensures {S A : Type 0} (m : Exec S A) (s : S) (Q : A → S → Type 0) : Type 0 where
  pub holds : Post Q (m s)

-- the postcondition of a run that returned
pub Ensures-at :
    {S A : Type 0} {m : Exec S A} {s s' : S} {a : A} {Q : A → S → Type 0}
    → Ensures m s Q
    → m s ≡ (ok a, s')
    → Q a s'
Ensures-at {Q} h e = rw e at h.holds

module _ {S A : Type 0} where
  Post-weaken :
      (R Q : A → S → Type 0) (r : Outcome A) (t : S)
      → Post R (r, t)
      → ((a : A) (s' : S) → R a s' → Q a s')
      → Post Q (r, t)
  Post-weaken R Q (ok a) t h imp = imp a t h
  Post-weaken R Q (err e) t h imp = tt
  Post-weaken R Q panic t h imp = tt

  Post-wrapped :
      (Q : A → S → Type 0) (text : String) (r : Outcome A) (t : S)
      → Post Q (r, t)
      → Post Q (wrapped text r, t)
  Post-wrapped Q text (ok a) t h = h
  Post-wrapped Q text (err e) t h = tt
  Post-wrapped Q text panic t h = tt

  Post-enclosed :
      (Q : A → S → Type 0) (text : String) (r : Outcome A) (later : String) (t : S)
      → Post Q (r, t)
      → Post Q (enclosed text r later, t)
  Post-enclosed Q text (ok a) later t h = h
  Post-enclosed Q text (err e) later t h = tt
  Post-enclosed Q text panic later t h = tt

  -- what is known of a reply is known of a return
  Post-value :
      (R : Reply A → S → Type 0) (Q : A → S → Type 0) (r : Outcome A) (t : S)
      → Post R (reply_of r, t)
      → ((a : A) (s' : S) → R (value a) s' → Q a s')
      → Post Q (r, t)
  Post-value R Q (ok a) t h imp = imp a t h
  Post-value R Q (err e) t h imp = tt
  Post-value R Q panic t h imp = tt

  Post-true : (r : Outcome A) (t : S) → Post (λ _ _. Unit {0}) (r, t)
  Post-true (ok a) t = tt
  Post-true (err e) t = tt
  Post-true panic t = tt

  Post-self :
      (m : Exec S A) (s : S) (r : Outcome A) (t : S)
      → m s ≡ (r, t)
      → Post (λ a s'. m s ≡ (ok a, s')) (r, t)
  Post-self m s (ok a) t e = e
  Post-self m s (err x) t e = tt
  Post-self m s panic t e = tt

  -- the run itself
  pub Ensures-self : (m : Exec S A) (s : S) → Ensures m s (λ a s'. m s ≡ (ok a, s'))
  Ensures-self m s = record { holds = Post-self m s (m s).0 (m s).1 refl }

  pub Ensures-true : (m : Exec S A) (s : S) → Ensures m s (λ _ _. Unit {0})
  Ensures-true m s = record { holds = Post-true (m s).0 (m s).1 }

module _ {S A : Type 0} {s : S} {Q : A → S → Type 0} where
  pub Ensures-pure : (a : A) → Q a s → Ensures (pure a) s Q
  unfolding ◌>>=◌
  Ensures-pure a q = record { holds = q }

  pub Ensures-fail : (e : Error) → Ensures (fail e) s Q
  unfolding ◌>>=◌
  Ensures-fail e = record { holds = tt }

  pub Ensures-if :
      (b : Bool) (m n : Exec S A)
      → (b ≡ true → Ensures m s Q)
      → (b ≡ false → Ensures n s Q)
      → Ensures (if b then m else n) s Q
  Ensures-if true m n then_m else_n = then_m refl
  Ensures-if false m n then_m else_n = else_n refl

  pub Ensures-weaken :
      {m : Exec S A} {R : A → S → Type 0}
      → Ensures m s R
      → ((a : A) (s' : S) → R a s' → Q a s')
      → Ensures m s Q
  Ensures-weaken {m} h imp = record { holds = Post-weaken _ _ (m s).0 (m s).1 h.holds imp }

  pub Ensures-wrapping :
      (text : String) {m : Exec S A} → Ensures m s Q → Ensures (wrapping text m) s Q
  unfolding ◌>>=◌
  Ensures-wrapping text {m} h = record { holds = Post-wrapped _ text (m s).0 (m s).1 h.holds }

  pub Ensures-enclosing :
      (text later : String) {m : Exec S A} → Ensures m s Q → Ensures (enclosing text m later) s Q
  unfolding ◌>>=◌
  Ensures-enclosing text later {m} h = record {
    holds = Post-enclosed _ text (m s).0 later (m s).1 h.holds;
  }

  pub Ensures-value :
      {m : Exec S A} {R : Reply A → S → Type 0}
      → Ensures (attempt m) s R
      → ((a : A) (s' : S) → R (value a) s' → Q a s')
      → Ensures m s Q
  unfolding ◌>>=◌
  Ensures-value {m} h imp = record { holds = Post-value _ _ (m s).0 (m s).1 h.holds imp }

module _ {S A B : Type 0} where
  Post-resume :
      {R : A → S → Type 0} {Q : B → S → Type 0} (r : Outcome A) (t : S) (f : A → Exec S B)
      → Post R (r, t)
      → ((a : A) (s' : S) → R a s' → Ensures (f a) s' Q)
      → Post Q (resume r f t)
  Post-resume (ok a) t f h rest = (rest a t h).holds
  Post-resume (err x) t f h rest = tt
  Post-resume panic t f h rest = tt

  pub Ensures-bind :
      {m : Exec S A} {f : A → Exec S B} {s : S} {R : A → S → Type 0} {Q : B → S → Type 0}
      → Ensures m s R
      → ((a : A) (s' : S) → R a s' → Ensures (f a) s' Q)
      → Ensures (m >>= f) s Q
  unfolding ◌>>=◌
  Ensures-bind {m} {f} {s} h rest = record { holds = Post-resume (m s).0 (m s).1 f h.holds rest }
