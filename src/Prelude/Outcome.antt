-- ===== src/Prelude/Outcome.antt =====
-- What a Go call can do: return a value, or panic at run time (an index out of range, a nil
-- dereference). `stuck` is the model's own: the fuel of a loop ran out.

pub data Outcome {ℓ} (A : Type ℓ) : Type ℓ where
  ok : A → Outcome A
  panic : Outcome A
  stuck : Outcome A

infixl 5 ◌>>=◌
abbrev pub ◌>>=◌ {ℓ κ} : {A : Type ℓ} {B : Type κ} → Outcome A → (A → Outcome B) → Outcome B
ok a >>= f = f a
panic >>= f = panic
stuck >>= f = stuck

-- The call returns, and what it returns satisfies `P`.
pub data Returns {A : Type 0} (P : A → Type 0) : Outcome A → Type 0 where
  returns : {a : A} → P a → Returns P (ok a)

module _ {A : Type 0} {P : A → Type 0} where
  pub Returns-bind :
      {B : Type 0} {Q : B → Type 0} {r : Outcome A} {k : A → Outcome B}
      → Returns P r
      → ((a : A) → P a → Returns Q (k a))
      → Returns Q (r >>= k)
  Returns-bind (returns p) next = next _ p

  pub Returns-mono :
      {Q : A → Type 0} {r : Outcome A} → Returns P r → ((a : A) → P a → Q a) → Returns Q r
  Returns-mono (returns p) weaken = returns (weaken _ p)

-- The call returns something that satisfies `P`, or panics.
pub data Safely {A : Type 0} (P : A → Type 0) : Outcome A → Type 0 where
  returned : {a : A} → P a → Safely P (ok a)
  panicked : Safely P panic

module _ {A : Type 0} {P : A → Type 0} where
  pub Safely-bind :
      {B : Type 0} {Q : B → Type 0} {r : Outcome A} {k : A → Outcome B}
      → Safely P r
      → ((a : A) → P a → Safely Q (k a))
      → Safely Q (r >>= k)
  Safely-bind (returned p) next = next _ p
  Safely-bind panicked next = panicked

  pub Safely-mono :
      {Q : A → Type 0} {r : Outcome A} → Safely P r → ((a : A) → P a → Q a) → Safely Q r
  Safely-mono (returned p) weaken = returned (weaken _ p)
  Safely-mono panicked weaken = panicked

  -- A call that returns satisfies what it satisfies unless it panics.
  pub Returns-and :
      {Q : A → Type 0} {r : Outcome A} → Returns P r → Safely Q r → Returns (λ a. P a × Q a) r
  Returns-and (returns p) (returned q) = returns (p, q)
