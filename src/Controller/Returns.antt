-- ===== src/Controller/Returns.antt =====
-- When a request returns, rather than panics on a nil pointer, and with what: laws of the actions.
pub mod Inspection
pub mod Parts
pub mod Request
use presto_on_k8s_operator.Go.{Outcome, Action, returns, panics, call, deref, pure, ◌>>=◌}
use presto_on_k8s_operator.Prelude.{◌≡◌, refl, Bool, true, false, Option, none, some, if◌then◌else◌}

module _ (S : Type 0) where
  abbrev pub ReturnsWith : {A : Type 0} → (A → Type 0) → Outcome S A → Type 0
  ReturnsWith P (returns a _) = P a
  ReturnsWith P (panics _) = ⊥

  -- From every state the action returns, with a value of which `P` holds.
  unfoldable pub Ends : {A : Type 0} → (A → Type 0) → Action S A → Type 0
  Ends P m = (s : S) → ReturnsWith P (m s)

  pub pure-Ends : {A : Type 0} (P : A → Type 0) (a : A) → P a → Ends P (pure a)
  unfolding Ends
  pure-Ends P a h s = h

  pub call-Ends : {A : Type 0} (f : S → A × S) → Ends (λ _. Unit {0}) (call f)
  unfolding Ends
  call-Ends f s = tt

  pub deref_then-Ends :
      {A B : Type 0} (P : B → Type 0) (o : Option A) (f : A → Action S B) (a : A)
      → o ≡ some a
      → Ends P (f a)
      → Ends P (deref o >>= f)
  unfolding Ends
  deref_then-Ends P o f a there h s = rw (there, deref, ◌>>=◌) (h s)

  pub bind-Ends :
      {A B : Type 0} (P : A → Type 0) (Q : B → Type 0) (m : Action S A) (f : A → Action S B)
      → Ends P m
      → ((a : A) → P a → Ends Q (f a))
      → Ends Q (m >>= f)
  unfolding Ends
  bind-Ends {A} {B} P Q m f h g s = then_ends (m s) (h s)
    where
      then_ends :
          (o : Outcome S A)
          → ReturnsWith P o
          → ReturnsWith {A = B} Q (elim o [ returns a t ↦ f a t | panics t ↦ panics t ])
      then_ends (returns a t) k = g a k t
      then_ends (panics t) k = absurd k

  pub if-Ends :
      {A : Type 0} (P : A → Type 0) (b : Bool) (x y : Action S A)
      → (b ≡ true → Ends P x)
      → (b ≡ false → Ends P y)
      → Ends P (if b then x else y)
  if-Ends P true x y h g = h refl
  if-Ends P false x y h g = g refl
