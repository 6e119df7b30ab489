-- ===== src/Go.antt =====
-- A Go call that acts on outside state: it returns, or it panics on a nil pointer. An `error` is a
-- value, and nil is `none`.
use presto_on_k8s_operator.Prelude.{◌≡◌, refl, ◌⊎◌, inl, inr, Option, none, some}

pub data Outcome (S A : Type 0) : Type 0 where
  returns : A → S → Outcome S A
  panics : S → Outcome S A

abbrev pub Action : Type 0 → Type 0 → Type 0
Action S A = S → Outcome S A

module _ {S A : Type 0} where
  abbrev pub pure : A → Action S A
  pure a s = returns a s

  -- `*p` for a pointer that may be nil.
  abbrev pub deref : Option A → Action S A
  deref none s = panics s
  deref (some a) s = returns a s

  -- A call of a library: it returns, with a new state.
  abbrev pub call : (S → A × S) → Action S A
  call f s = let (a, s') = f s in returns a s'

infixl 5 ◌>>=◌ ◌>>◌
abbrev pub ◌>>=◌ : {S A B : Type 0} → Action S A → (A → Action S B) → Action S B
◌>>=◌ m f s = elim (m s) [ returns a s' ↦ f a s' | panics s' ↦ panics s' ]

abbrev pub ◌>>◌ : {S A B : Type 0} → Action S A → Action S B → Action S B
m >> k = m >>= λ _. k

pub Outcome-cases :
    {S A : Type 0} (o : Outcome S A)
    → ((a : A) × (s : S) × (o ≡ returns a s)) ⊎ ((s : S) × (o ≡ panics s))
Outcome-cases (returns a s) = inl (a, s, refl)
Outcome-cases (panics s) = inr (s, refl)

-- The state that a call leaves behind.
abbrev pub final : {S A : Type 0} → Outcome S A → S
final (returns _ s) = s
final (panics s) = s
