-- ===== src/Run.antt =====
-- Methods that mutate their object and may fault. `none` is a failed assertion, or behaviour that the
-- language leaves undefined, such as a read out of a vector's bounds.
use abys.Prelude.{Bool, true, false, Option, none, some, List, [], ◌∷◌, ◌≡◌}

abbrev pub Run : Type 0 → Type 0 → Type 0
Run S A = S → Option (A × S)

module _ {S A : Type 0} where
  abbrev pub pure : A → Run S A
  pure a s = some (a, s)

  abbrev pub fault : Run S A
  fault s = none

  abbrev pub gets : (S → A) → Run S A
  gets f s = some (f s, s)

  -- a read that faults where there is nothing
  abbrev pub found : Option A → Run S A
  found none s = none
  found (some a) s = some (a, s)

module _ {S : Type 0} where
  abbrev pub modify : (S → S) → Run S (Unit {0})
  modify f s = some (tt, f s)

  abbrev pub check : Bool → Run S (Unit {0})
  check true s = some (tt, s)
  check false s = none

module _ {S A B : Type 0} where
  abbrev continue : Option (A × S) → (A → Run S B) → Option (B × S)
  continue none f = none
  continue (some (a, s)) f = f a s

  infixl 5 ◌>>=◌
  abbrev pub ◌>>=◌ : Run S A → (A → Run S B) → Run S B
  ◌>>=◌ m f s = continue (m s) f

infixl 5 ◌>>◌
abbrev pub ◌>>◌ : {S B : Type 0} → Run S (Unit {0}) → Run S B → Run S B
m >> k = m >>= λ _. k

-- `for (x : xs) body x`
module _ {S A : Type 0} where
  unfoldable pub for_each : List A → (A → Run S (Unit {0})) → Run S (Unit {0})
  for_each [] body = pure tt
  for_each (x ∷ xs) body = do body x; for_each xs body

-- What a run yields, if it yields: a fault satisfies nothing.
module _ {S A : Type 0} where
  abbrev pub Returns : (A → S → Type 0) → Option (A × S) → Type 0
  Returns P none = ⊥
  Returns P (some (a, s)) = P a s

module _ {S A B : Type 0} where
  continue-Returns :
      (P : B → S → Type 0) (Q : A → S → Type 0) (o : Option (A × S)) (f : A → Run S B)
      → Returns Q o
      → ((a : A) (t : S) → Q a t → Returns P (f a t))
      → Returns P (continue o f)
  continue-Returns P Q none f h k = absurd h
  continue-Returns P Q (some (a, t)) f h k = k a t h

  -- The rule for a sequence of two runs.
  pub bind-Returns :
      (P : B → S → Type 0) (Q : A → S → Type 0) (m : Run S A) (f : A → Run S B) (s : S)
      → Returns Q (m s)
      → ((a : A) (t : S) → Q a t → Returns P (f a t))
      → Returns P ((m >>= f) s)
  bind-Returns P Q m f s h k = continue-Returns P Q (m s) f h k

module _ {S A : Type 0} where
  pub Returns-of_eq :
      (P : A → S → Type 0) (o : Option (A × S)) (a : A) (s : S)
      → o ≡ some (a, s)
      → P a s
      → Returns P o
  Returns-of_eq P o a s e h = rw e h

  pub Returns-map :
      (P Q : A → S → Type 0) (o : Option (A × S))
      → ((a : A) (s : S) → Q a s → P a s)
      → Returns Q o
      → Returns P o
  Returns-map P Q none k h = absurd h
  Returns-map P Q (some (a, s)) k h = k a s h

module _ {S A : Type 0} where
  -- Two facts on one run.
  pub Returns-both :
      (P Q : A → S → Type 0) (o : Option (A × S))
      → Returns P o
      → Returns Q o
      → Returns (λ a s. P a s × Q a s) o
  Returns-both P Q none h k = h
  Returns-both P Q (some (a, s)) h k = (h, k)

-- What a run yields where it yields something: a fault satisfies it.
module _ {S A : Type 0} where
  abbrev pub Whenever : (A → S → Type 0) → Option (A × S) → Type 0
  Whenever P none = Unit
  Whenever P (some (a, s)) = P a s

  pub Whenever-map :
      (P Q : A → S → Type 0) (o : Option (A × S))
      → ((a : A) (s : S) → Q a s → P a s)
      → Whenever Q o
      → Whenever P o
  Whenever-map P Q none k h = tt
  Whenever-map P Q (some (a, s)) k h = k a s h

module _ {S A B : Type 0} where
  continue-Whenever :
      (P : B → S → Type 0) (Q : A → S → Type 0) (o : Option (A × S)) (f : A → Run S B)
      → Whenever Q o
      → ((a : A) (t : S) → Q a t → Whenever P (f a t))
      → Whenever P (continue o f)
  continue-Whenever P Q none f h k = tt
  continue-Whenever P Q (some (a, t)) f h k = k a t h

  pub bind-Whenever :
      (P : B → S → Type 0) (Q : A → S → Type 0) (m : Run S A) (f : A → Run S B) (s : S)
      → Whenever Q (m s)
      → ((a : A) (t : S) → Q a t → Whenever P (f a t))
      → Whenever P ((m >>= f) s)
  bind-Whenever P Q m f s h k = continue-Whenever P Q (m s) f h k

module _ {S A : Type 0} where
  -- A run that yields, and what it yields where it does.
  pub Returns-Whenever :
      (P Q : A → S → Type 0) (o : Option (A × S))
      → Returns P o
      → Whenever Q o
      → Returns (λ a s. P a s × Q a s) o
  Returns-Whenever P Q none h k = h
  Returns-Whenever P Q (some (a, s)) h k = (h, k)
