-- ===== src/Controller/Calls/Emits.antt =====
-- How many calls an action makes at most, all of them permitted.
use presto_on_k8s_operator.Controller.Calls.{Call, is_permitted}
use presto_on_k8s_operator.Go.{Outcome, Action, returns, panics, final, call, deref, pure, ◌>>=◌}
use presto_on_k8s_operator.Prelude.{
  ℕ, ◌+◌, ◌≤◌, ◌≡◌, refl, sym, ◌∙◌, ap, Bool, true, false, Option, none, some, List, [], ◌∷◌, ◌++◌,
  append_assoc, All, All-append, length, length-append, if◌then◌else◌, arith,
}

-- What was noted between two logs: at most `k` calls, each permitted.
pub record Between (k : ℕ) (log log' : List Call) : Type 0 where
  pub new : List Call
  pub added : log' ≡ new ++ log
  pub permitted : All (λ c. is_permitted c ≡ true) new
  pub few : length new ≤ k

Between-trans : (j k : ℕ) (a b c : List Call) → Between j a b → Between k b c → Between (j + k) a c
Between-trans j k a b c h g = record {
  new = g.new ++ h.new;
  added = g.added ∙ ap (λ l. g.new ++ l) h.added ∙ sym (append_assoc g.new h.new a);
  permitted = All-append _ g.new h.new g.permitted h.permitted;
  few = omega (arith, length-append g.new h.new, h.few, g.few);
}

Between-weaken : (j k : ℕ) (a b : List Call) → j ≤ k → Between j a b → Between k a b
Between-weaken j k a b le h = record {
  new = h.new;
  added = h.added;
  permitted = h.permitted;
  few = omega (arith, h.few, le);
}

Between-none : (k : ℕ) (a : List Call) → Between k a a
Between-none k a = record { new = []; added = refl; permitted = tt; few = omega arith }

module _ (S : Type 0) where
  unfoldable pub Emits : {A : Type 0} → ℕ → Action (S × List Call) A → Type 0
  Emits k m = (s : S × List Call) → Between k s.1 (final (m s)).1

  pub Emits-weaken :
      {A : Type 0} (j k : ℕ) (m : Action (S × List Call) A) → j ≤ k → Emits j m → Emits k m
  unfolding Emits
  Emits-weaken j k m le h s = Between-weaken j k s.1 _ le (h s)

  pub pure-Emits : {A : Type 0} (k : ℕ) (a : A) → Emits k (pure a)
  unfolding Emits
  pure-Emits k a s = Between-none k s.1

  pub call-Emits :
      {A : Type 0} (f : S × List Call → A × (S × List Call)) (c : Call)
      → ((s : S × List Call) → (f s).1.1 ≡ c ∷ s.1)
      → is_permitted c ≡ true
      → Emits 1 (call f)
  unfolding Emits
  call-Emits f c noted allowed s = record {
    new = c ∷ [];
    added = noted s;
    permitted = (allowed, tt);
    few = omega arith;
  }

  pub bind-Emits :
      {A B : Type 0} (j k : ℕ) (m : Action (S × List Call) A) (f : A → Action (S × List Call) B)
      → Emits j m
      → ((a : A) → Emits k (f a))
      → Emits (j + k) (m >>= f)
  unfolding Emits
  bind-Emits {A} {B} j k m f h g s = go (m s) (h s)
    where
      go :
          (o : Outcome (S × List Call) A)
          → Between j s.1 (final o).1
          → Between
              (j + k)
              s.1
              (final {S = S × List Call} {A = B}
                (elim o [ returns a t ↦ f a t | panics t ↦ panics t ])).1
      go (returns a t) b = Between-trans j k s.1 t.1 _ b (g a t)
      go (panics t) b = Between-weaken j (j + k) s.1 t.1 (omega arith) b

  pub deref_then-Emits :
      {A B : Type 0} (k : ℕ) (o : Option A) (f : A → Action (S × List Call) B)
      → ((a : A) → Emits k (f a))
      → Emits k (deref o >>= f)
  unfolding Emits
  deref_then-Emits k none f g s = Between-none k s.1
  deref_then-Emits k (some a) f g s = g a s

  pub if-Emits :
      {A : Type 0} (k : ℕ) (b : Bool) (x y : Action (S × List Call) A)
      → Emits k x
      → Emits k y
      → Emits k (if b then x else y)
  unfolding Emits
  if-Emits k true x y h g = h
  if-Emits k false x y h g = g
