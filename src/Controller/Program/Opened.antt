-- ===== src/Controller/Program/Opened.antt =====
-- How actions are laid open, construct by construct.
use presto_on_k8s_operator.Api.{PrestoCluster}
use presto_on_k8s_operator.Controller.Program.{
  ApiCall, Answer, perform, Program, done, faults, asks, run, then_do, IsFor, IsKeyed, Keeps,
}
use presto_on_k8s_operator.Go.{Action, Outcome, returns, panics, call, deref, pure, ◌>>=◌}
use presto_on_k8s_operator.Kube.Client.{Client, Kind, Object}
use presto_on_k8s_operator.Kube.Meta.{NamespacedName}
use presto_on_k8s_operator.Prelude.{
  ◌≡◌, refl, sym, ◌∙◌, Bool, true, false, Option, none, some, if◌then◌else◌,
}
use presto_on_k8s_operator.Text.{Text}

-- What a client does, without what its errors are.
pub record Operations (E : Type 0) : Type 1 where
  pub State : Type 0
  pub get : (k : Kind) → NamespacedName → Object k → State → (Option E × Object k) × State
  pub create : (k : Kind) → Object k → State → Option E × State
  pub update : (k : Kind) → Object k → State → Option E × State
  pub delete : (k : Kind) → Object k → State → Option E × State
  pub update_status : PrestoCluster → State → Option E × State
  pub event : PrestoCluster → Text → Text → Text → State → State

run-then_do :
    {A B : Type 0} (client : Client) (p : Program client.Error A) (f : A → Program client.Error B)
    (s : client.State)
    → run client (then_do client.Error p f) s ≡ (run client p >>= λ a. run client (f a)) s
unfolding run then_do
run-then_do client (done a) f s = refl
run-then_do client faults f s = refl
run-then_do client (asks c rest) f s =
    run-then_do client (rest (perform client c s).0) f (perform client c s).1

bind-same :
    {S A B : Type 0} (o o' : Outcome S A) (f f' : A → Action S B)
    → o ≡ o'
    → ((a : A) (s : S) → f a s ≡ f' a s)
    → ◌≡◌ {A = Outcome S B}
        (elim o [ returns a t ↦ f a t | panics t ↦ panics t ])
        (elim o' [ returns a t ↦ f' a t | panics t ↦ panics t ])
bind-same (returns a t) o' f f' e g = rw (sym e) (g a t)
bind-same (panics t) o' f f' e g = rw (sym e) refl

then_do-Keeps :
    {E A B : Type 0} (owner : NamespacedName) (P : A → Type 0) (Q : B → Type 0) (p : Program E A)
    (f : A → Program E B)
    → Keeps E owner P p
    → ((a : A) → P a → Keeps E owner Q (f a))
    → Keeps E owner Q (then_do E p f)
unfolding Keeps then_do
then_do-Keeps owner P Q (done a) f h g = g a h
then_do-Keeps owner P Q faults f h g = tt
then_do-Keeps owner P Q (asks c rest) f h g =
    (h.0, λ a keyed. then_do-Keeps owner P Q (rest a) f (h.1 a keyed) g)

abbrev pub operations_of : (client : Client) → Operations client.Error
operations_of client = record {
  State = client.State;
  get = client.get;
  create = client.create;
  update = client.update;
  delete = client.delete;
  update_status = client.update_status;
  event = client.event;
}

module _ (E : Type 0) (ignore : Option E → Option E) (owner : NamespacedName) where
  abbrev pub client_of : Operations E → Client
  client_of o = record {
    State = o.State;
    Error = E;
    ignore_not_found = ignore;
    get = o.get;
    create = o.create;
    update = o.update;
    delete = o.delete;
    update_status = o.update_status;
    event = o.event;
  }

  -- An action of every client.
  abbrev pub Acts : Type 0 → Type 1
  Acts A = (o : Operations E) → Action o.State A

  -- The program of an action: it runs as the action does, and if something is given, its calls are
  -- for the cluster and what it returns has a property.
  pub record Opened {A : Type 0} (Given : Type 0) (P : A → Type 0) (m : Acts A) : Type 1 where
    pub program : Program E A
    pub runs : (o : Operations E) (s : o.State) → run (client_of o) program s ≡ m o s
    pub keeps : Given → Keeps E owner P program

  pub pure-Opened :
      {A : Type 0} (Given : Type 0) (P : A → Type 0) (a : A)
      → (Given → P a)
      → Opened Given P (λ o. pure a)
  pure-Opened Given P a p = record {
    program = done a;
    runs = λ o s. unfold run in refl;
    keeps = λ g. unfold Keeps in p g;
  }

  pub bind-Opened :
      {A B : Type 0} (Given : Type 0) (P : A → Type 0) (Q : B → Type 0) (m : Acts A)
      (f : (o : Operations E) → A → Action o.State B)
      → Opened Given P m
      → ((a : A) → Opened (P a) Q (λ o. f o a))
      → Opened Given Q (λ o. m o >>= f o)
  bind-Opened Given P Q m f h g = record {
    program = then_do E h.program (λ a. (g a).program);
    runs = λ o s.
        run-then_do (client_of o) h.program (λ a. (g a).program) s
        ∙ bind-same (run (client_of o) h.program s) (m o s) (λ a. run (client_of o) (g a).program)
            (f o) (h.runs o s) (λ a t. (g a).runs o t);
    keeps = λ given.
        then_do-Keeps owner P Q h.program (λ a. (g a).program) (h.keeps given)
          (λ a p. (g a).keeps p);
  }

  pub deref_then-Opened :
      {A B : Type 0} (Given : Type 0) (Q : B → Type 0) (p : Option A)
      (f : (o : Operations E) → A → Action o.State B)
      → ((a : A) → Opened Given Q (λ o. f o a))
      → Opened Given Q (λ o. deref p >>= f o)
  deref_then-Opened Given Q none f g = record {
    program = faults;
    runs = λ o s. unfold run in refl;
    keeps = λ given. unfold Keeps in tt;
  }
  deref_then-Opened Given Q (some a) f g = g a

  pub if-Opened :
      {A : Type 0} (Given : Type 0) (P : A → Type 0) (b : Bool) (x y : Acts A)
      → ((b ≡ true) → Opened Given P x)
      → ((b ≡ false) → Opened Given P y)
      → Opened Given P (λ o. if b then x o else y o)
  if-Opened Given P true x y h g = h refl
  if-Opened Given P false x y h g = g refl

  -- What is given implies what is asked for.
  pub given-Opened :
      {A : Type 0} (Given Asked : Type 0) (P : A → Type 0) (m : Acts A)
      → (Given → Asked)
      → Opened Asked P m
      → Opened Given P m
  given-Opened Given Asked P m imply h = record {
    program = h.program;
    runs = h.runs;
    keeps = λ given. h.keeps (imply given);
  }

  pub call-Opened :
      (Given : Type 0) (c : ApiCall) (P : Answer E c → Type 0)
      → (Given → IsFor owner c)
      → (Given → (a : Answer E c) → IsKeyed E c a → P a)
      → Opened Given P (λ o. call (perform (client_of o) c))
  call-Opened Given c P owned p = record {
    program = asks c (λ a. done a);
    runs = λ o s. unfold run in refl;
    keeps = λ given. unfold Keeps in (owned given, p given);
  }
