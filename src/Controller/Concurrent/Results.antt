-- ===== src/Controller/Concurrent/Results.antt =====
-- What requests that are served at the same time come to.
use native.Mathlib.Decide.{ℕ_discrete}
use presto_on_k8s_operator.Controller.{reconcile}
use presto_on_k8s_operator.Controller.Among.{SameFor}
use presto_on_k8s_operator.Controller.Program.{ApiCall, Answer, perform, asks, run, Keeps}
use presto_on_k8s_operator.Controller.Concurrent.Alone.{
  Serial, first, Alone, Alone-calls, Alone-kept, Alone-begins, Alone-again,
}
use presto_on_k8s_operator.Controller.Program.Local.{IsFor-Behaves}
use presto_on_k8s_operator.Controller.Concurrent.System.{
  set, System, Remaining, Step, calls, again, meddles, Reach, start, later, beginning,
}
use presto_on_k8s_operator.Controller.Isolated.{BelongsTo-apart}
use presto_on_k8s_operator.Kube.Client.{Client}
use presto_on_k8s_operator.Kube.Client.Local.{View, IsLocal}
use presto_on_k8s_operator.Kube.Machinery.{Machinery, IsDocumented}
use presto_on_k8s_operator.Kube.Meta.{NamespacedName}
use presto_on_k8s_operator.Prelude.{ℕ, ◌≡◌, refl, sym, ◌≢◌, ◌⊎◌, inl, inr, arith, subst}

equal_or_not : (i j : ℕ) → (i ≡ j) ⊎ (i ≢ j)
equal_or_not i j = elim (ℕ_discrete i j) [ yes e ↦ inl e | no h ↦ inr h ]

pub set_same : {A : Type 0} (f : ℕ → A) (i : ℕ) (a : A) → set f i a i ≡ a
set_same f i a = ground arith

set_other : {A : Type 0} (f : ℕ → A) (i j : ℕ) (a : A) → i ≢ j → set f i a j ≡ f j
set_other f i j a h = ground (arith, h)

module _ (lib : Machinery) (doc : IsDocumented lib) (client : Client) (view : View client)
    (loc : IsLocal client view) (requests : ℕ → NamespacedName)
    (distinct : (i j : ℕ) → i ≢ j → requests i ≢ requests j) where
  abbrev Reached : client.State → System client → Type 0
  Reached s0 = Reach client lib doc view requests (beginning client lib doc view requests s0)

  -- Every request goes on as it does alone.
  abbrev AllAlone : client.State → System client → Type 0
  AllAlone s0 s = (j : ℕ) → Alone lib doc client view loc requests j s0 s.state (s.workers j)

  -- One request goes on, and the others stay as they are.
  one_moves :
      (s0 : client.State) (s : System client) (t : client.State) (i : ℕ) (p : Remaining client)
      → ((j : ℕ) → i ≢ j → SameFor client view (requests j) t s.state)
      → Alone lib doc client view loc requests i s0 t p
      → AllAlone s0 s
      → AllAlone s0 (record { state = t; workers = set s.workers i p })
  one_moves s0 s t i p others mine all j = elim (equal_or_not i j) [
    | inl same ↦
        subst (λ l. Alone lib doc client view loc requests l s0 t (set s.workers i p l)) same
          (rw (set_same s.workers i p) mine)
    | inr apart ↦ rw (set_other s.workers i j p apart) (
        Alone-kept lib doc client view loc requests j s0 s.state t (s.workers j) (others j apart)
          (all j))
  ]

  calls-AllAlone :
      (s0 : client.State) (s : System client) (i : ℕ) (c : ApiCall)
      (rest : Answer client.Error c → Remaining client)
      → s.workers i ≡ asks c rest
      → AllAlone s0 s
      → AllAlone s0 (record {
        state = (perform client c s.state).1;
        workers = set s.workers i (rest (perform client c s.state).0);
      })
  unfolding Keeps
  calls-AllAlone s0 s i c rest e all =
      let mine = rw e at (all i) in
      one_moves s0 s _ i _
        (λ j apart k n own.
          (IsFor-Behaves client view loc (requests i) c mine.keeps.0).elsewhere_kept s.state k n
            (λ k' n' own'. BelongsTo-apart (distinct j i (λ x. apart (sym x))) own' own))
        (Alone-calls lib doc client view loc requests i s0 s.state c rest mine) all

  Step-AllAlone :
      (s0 : client.State) (s t : System client)
      → Step client lib doc view requests s t
      → AllAlone s0 s
      → AllAlone s0 t
  Step-AllAlone s0 s t (calls i c rest e) all = calls-AllAlone s0 s i c rest e all
  Step-AllAlone s0 s t (again i over) all =
      one_moves s0 s s.state i _ (λ j apart k n own. refl)
        (Alone-again lib doc client view loc requests i s0 s.state (s.workers i) over (all i)) all
  Step-AllAlone s0 s t (meddles u kept) all =
      λ j. Alone-kept lib doc client view loc requests j s0 s.state u (s.workers j) (kept j) (all j)

  Reach-AllAlone : (s0 : client.State) (s : System client) → Reached s0 s → AllAlone s0 s
  Reach-AllAlone s0 s start =
      λ j. Alone-begins lib doc client view loc requests j s0 s0 s0 (λ k n own. refl) first
  Reach-AllAlone s0 t (later {t = s} run step) = Step-AllAlone s0 s t step (Reach-AllAlone s0 s run)

  -- Some requests for the cluster that are served alone, one after the other, lead to a state from
  -- which the next one, served alone, ends as what is left of the cluster's request does if it is run
  -- from a state with the same of the cluster. If nothing is left, that one has ended so.
  abbrev pub AsAlone : client.State → System client → ℕ → Type 0
  AsAlone s0 s i =
      (from : client.State) × Serial lib client (requests i) s0 from
      × ((t : client.State) × SameFor client view (requests i) s.state t
          × (run client (s.workers i) t ≡ reconcile lib client (requests i) from))

  -- Given documented libraries, let a client's calls each concern one object; they may fail. Let
  -- different clusters be served at the same time, each by one request after the other, and one
  -- call of one of them at a time in any order, while others write to what belongs to none of them.
  -- At any time, each cluster is as if its requests were served alone: what is left of the current
  -- one ends with the result, the error or the nil dereference that it has alone after the earlier
  -- ones, and the server holds the same of the cluster and of the five children.
  pub concurrent-AsAlone :
      (s0 : client.State) (s : System client) (i : ℕ) → Reached s0 s → AsAlone s0 s i
  concurrent-AsAlone s0 s i reached =
      let h = Reach-AllAlone s0 s reached i in (h.from, h.before, (h.state, h.same, h.ends))
