-- ===== src/Exec/Ends.antt =====
-- What holds however an action ends: `Ends m s R Q` says that if `m` returns `a` from `s` and leaves
-- `s'`, then `R a s'`, and that if it returns an error or panics and leaves `s'`, then `Q s'`.
use mock_storage_operator.Prelude.{◌≡◌, refl, Bool, true, false, String, if◌then◌else◌}
use mock_storage_operator.Exec.{
  Exec, Outcome, ok, err, panic, Error, pure, fail, wrapping, resume, wrapped, ◌>>=◌,
}
use mock_storage_operator.Exec.Ensures.{Post, Ensures}
use mock_storage_operator.Exec.Preserves.{Preserves}

abbrev pub Ended : {S A : Type 0} → (A → S → Type 0) → (S → Type 0) → Outcome A × S → Type 0
Ended R Q (ok a, s) = R a s
Ended R Q (err e, s) = Q s
Ended R Q (panic, s) = Q s

pub record Ends {S A : Type 0} (m : Exec S A) (s : S) (R : A → S → Type 0) (Q : S → Type 0)
    : Type 0 where
  pub ended : Ended R Q (m s)

module _ {S A : Type 0} where
  Ended-Post :
      (R : A → S → Type 0) (P Q : S → Type 0) (r : Outcome A) (t : S)
      → Post R (r, t)
      → P t
      → ((s' : S) → P s' → Q s')
      → Ended (λ a s'. R a s' × P s') Q (r, t)
  Ended-Post R P Q (ok a) t post always imp = (post, always)
  Ended-Post R P Q (err e) t post always imp = imp t always
  Ended-Post R P Q panic t post always imp = imp t always

  Ended-true :
      (P Q : S → Type 0) (r : Outcome A) (t : S)
      → P t
      → ((s' : S) → P s' → Q s')
      → Ended (λ _ s'. P s') Q (r, t)
  Ended-true P Q (ok a) t h imp = h
  Ended-true P Q (err e) t h imp = imp t h
  Ended-true P Q panic t h imp = imp t h

  Ended-wrapped :
      (R : A → S → Type 0) (Q : S → Type 0) (text : String) (r : Outcome A) (t : S)
      → Ended R Q (r, t)
      → Ended R Q (wrapped text r, t)
  Ended-wrapped R Q text (ok a) t h = h
  Ended-wrapped R Q text (err e) t h = h
  Ended-wrapped R Q text panic t h = h

  Ended-always : (Q : S → Type 0) (r : Outcome A) (t : S) → Ended (λ _ s'. Q s') Q (r, t) → Q t
  Ended-always Q (ok a) t h = h
  Ended-always Q (err e) t h = h
  Ended-always Q panic t h = h

  -- the state that a run leaves
  pub Ends-always : {m : Exec S A} {s : S} {Q : S → Type 0} → Ends m s (λ _ s'. Q s') Q → Q (m s).1
  Ends-always {m} {s} {Q} h = Ended-always Q (m s).0 (m s).1 h.ended

module _ {S A : Type 0} {s : S} {R : A → S → Type 0} {Q : S → Type 0} where
  -- what holds of a normal return, and of the state that is left in any case
  pub Ends-Ensures :
      {m : Exec S A} {P : S → Type 0}
      → Ensures m s R
      → P (m s).1
      → ((s' : S) → P s' → Q s')
      → Ends m s (λ a s'. R a s' × P s') Q
  Ends-Ensures {m} {P} h always imp = record {
    ended = Ended-Post R P Q (m s).0 (m s).1 h.holds always imp;
  }

  pub Ends-pure : (a : A) → R a s → Ends (pure a) s R Q
  unfolding ◌>>=◌
  Ends-pure a r = record { ended = r }

  pub Ends-fail : (e : Error) → Q s → Ends (fail e) s R Q
  unfolding ◌>>=◌
  Ends-fail e q = record { ended = q }

  pub Ends-if :
      (b : Bool) (m n : Exec S A)
      → (b ≡ true → Ends m s R Q)
      → (b ≡ false → Ends n s R Q)
      → Ends (if b then m else n) s R Q
  Ends-if true m n then_m else_n = then_m refl
  Ends-if false m n then_m else_n = else_n refl

  pub Ends-wrapping : (text : String) {m : Exec S A} → Ends m s R Q → Ends (wrapping text m) s R Q
  unfolding ◌>>=◌
  Ends-wrapping text {m} h = record { ended = Ended-wrapped R Q text (m s).0 (m s).1 h.ended }

module _ {S A : Type 0} {s : S} {P Q : S → Type 0} where
  -- an invariant that is kept
  pub Ends-keeps :
      {m : Exec S A} → Preserves P m → P s → ((s' : S) → P s' → Q s') → Ends m s (λ _ s'. P s') Q
  Ends-keeps {m} keeps h imp = record {
    ended = Ended-true P Q (m s).0 (m s).1 (keeps.after s h) imp;
  }

  pub Ends-Preserves :
      {m : Exec S A} → Preserves P m → P s → ((s' : S) → P s' → Q s') → Ends m s (λ _ s'. Q s') Q
  Ends-Preserves {m} keeps h imp = record {
    ended = Ended-true Q Q (m s).0 (m s).1 (imp (m s).1 (keeps.after s h)) (λ _ q. q);
  }

module _ {S A : Type 0} where
  Post-Preserves : (P : S → Type 0) (r : Outcome A) (t : S) → P t → Post (λ _ s'. P s') (r, t)
  Post-Preserves P (ok a) t h = h
  Post-Preserves P (err e) t h = tt
  Post-Preserves P panic t h = tt

  -- an invariant, after a normal return
  pub Ensures-Preserves :
      {P : S → Type 0} {m : Exec S A} {s : S} → Preserves P m → P s → Ensures m s (λ _ s'. P s')
  Ensures-Preserves {P} {m} {s} keeps h = record {
    holds = Post-Preserves P (m s).0 (m s).1 (keeps.after s h);
  }

module _ {S A B : Type 0} where
  Ended-resume :
      {R : A → S → Type 0} {R' : B → S → Type 0} {Q : S → Type 0} (r : Outcome A) (t : S)
      (f : A → Exec S B)
      → Ended R Q (r, t)
      → ((a : A) (s' : S) → R a s' → Ends (f a) s' R' Q)
      → Ended R' Q (resume r f t)
  Ended-resume (ok a) t f h rest = (rest a t h).ended
  Ended-resume (err e) t f h rest = h
  Ended-resume panic t f h rest = h

  pub Ends-bind :
      {m : Exec S A} {f : A → Exec S B} {s : S} {R : A → S → Type 0} {R' : B → S → Type 0}
      {Q : S → Type 0}
      → Ends m s R Q
      → ((a : A) (s' : S) → R a s' → Ends (f a) s' R' Q)
      → Ends (m >>= f) s R' Q
  unfolding ◌>>=◌
  Ends-bind {m} {f} {s} h rest = record { ended = Ended-resume (m s).0 (m s).1 f h.ended rest }
