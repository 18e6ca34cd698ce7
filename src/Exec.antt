-- ===== src/Exec.antt =====
-- Go functions that talk to the API server: they change the state that they are given, and return
-- normally, return an error, or panic. What was written before an error stays written.
pub mod Preserves
pub mod Ensures
pub mod Ends
pub mod Loops
use mock_storage_operator.Prelude.{Bool, true, false, String, ◌<>◌, List, [], ◌∷◌}

-- `metav1.StatusReason` as far as the operator asks for it (`IsNotFound`, `IsAlreadyExists`).
pub data Reason : Type 0 where
  not_found already_exists other : Reason

-- An `error`: a reply of the API server, `fmt.Errorf` on a text, or one that wraps another by `%w`,
-- with a text before it or one on each side.
pub data Error : Type 0 where
  api : Reason → String → Error
  errorf : String → Error
  wrap : String → Error → Error
  enclose : String → Error → String → Error

-- `kerrors.ReasonForError`, which looks through `%w`
unfoldable pub reason : Error → Reason
reason (api r text) = r
reason (errorf text) = other
reason (wrap text e) = reason e
reason (enclose text e later) = reason e

-- `kerrors.IsNotFound`
unfoldable pub is_not_found : Error → Bool
unfolding reason
is_not_found e = elim (reason e) [ not_found ↦ true | _ ↦ false ]

-- `kerrors.IsAlreadyExists`
unfoldable pub is_already_exists : Error → Bool
unfolding reason
is_already_exists e = elim (reason e) [ already_exists ↦ true | _ ↦ false ]

-- `err.Error()`
unfoldable pub error_text : Error → String
error_text (api r text) = text
error_text (errorf text) = text
error_text (wrap text e) = text <> error_text e
error_text (enclose text e later) = text <> (error_text e <> later)

pub data Outcome {ℓ} (A : Type ℓ) : Type ℓ where
  ok : A → Outcome A
  err : Error → Outcome A
  panic : Outcome A

-- `(value, err)` in the hands of the caller
pub data Reply {ℓ} (A : Type ℓ) : Type ℓ where
  value : A → Reply A
  error : Error → Reply A

abbrev pub Exec {ℓ} : Type ℓ → Type ℓ → Type ℓ
Exec S A = S → Outcome A × S

module _ {ℓ} {A : Type ℓ} where
  abbrev pub reply_of : Outcome A → Outcome (Reply A)
  reply_of (ok a) = ok (value a)
  reply_of (err e) = ok (error e)
  reply_of panic = panic

  abbrev pub wrapped : String → Outcome A → Outcome A
  wrapped text (ok a) = ok a
  wrapped text (err e) = err (wrap text e)
  wrapped text panic = panic

  abbrev pub enclosed : String → Outcome A → String → Outcome A
  enclosed text (ok a) later = ok a
  enclosed text (err e) later = err (enclose text e later)
  enclosed text panic later = panic

module _ {ℓ} {S A : Type ℓ} where
  pub pure : A → Exec S A
  pure a s = (ok a, s)

  -- `return err`
  pub fail : Error → Exec S A
  fail e s = (err e, s)

  -- a nil pointer that is dereferenced
  pub crash : Exec S A
  crash s = (panic, s)

  pub lift : Outcome A → Exec S A
  lift r s = (r, s)

  pub gets : (S → A) → Exec S A
  gets f s = (ok (f s), s)

  -- a call whose error the caller looks at
  pub attempt : Exec S A → Exec S (Reply A)
  attempt m s = let (r, s') = m s in (reply_of r, s')

  -- `if err != nil { return fmt.Errorf("text: %w", err) }`
  pub wrapping : String → Exec S A → Exec S A
  wrapping text m s = let (r, s') = m s in (wrapped text r, s')

  -- `if err != nil { return fmt.Errorf("text(%w)", err) }`
  pub enclosing : String → Exec S A → String → Exec S A
  enclosing text m later s = let (r, s') = m s in (enclosed text r later, s')

module _ {ℓ} {S A B : Type ℓ} where
  abbrev pub resume : Outcome A → (A → Exec S B) → Exec S B
  resume (ok a) f s = f a s
  resume (err e) f s = (err e, s)
  resume panic f s = (panic, s)

  infixl 10 ◌>>=◌ ◌>>◌
  -- the line lets a proof that opens this see through the other ways to build an action
  unfoldable pub ◌>>=◌ : Exec S A → (A → Exec S B) → Exec S B
  unfolding pure fail crash lift gets attempt wrapping enclosing
  ◌>>=◌ m f s = let (r, s') = m s in resume r f s'

  abbrev pub ◌>>◌ : Exec S A → Exec S B → Exec S B
  m >> n = m >>= λ _. n

-- a call whose result is not used
abbrev pub discard : {S A : Type 0} → Exec S A → Exec S (Unit {0})
discard m = m >>= λ _. pure tt

-- `for _, x := range xs { body(x) }`, left at the first error
module _ {S A : Type 0} where
  unfoldable pub for_each : List A → (A → Exec S (Unit {0})) → Exec S (Unit {0})
  for_each [] body = pure tt
  for_each (x ∷ xs) body = body x >> for_each xs body
