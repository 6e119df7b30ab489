-- ===== src/Controller/Among.antt =====
-- A request among others: before each of its calls the server may change, as it does when requests
-- for other clusters are served at the same time, or when people and other controllers write.
pub mod Agrees
pub mod Results
use presto_on_k8s_operator.Controller.Isolated.{BelongsTo}
use presto_on_k8s_operator.Kube.Client.{Client, Kind}
use presto_on_k8s_operator.Kube.Client.Local.{View, Concerns}
use presto_on_k8s_operator.Kube.Client.Quiet.{Differ}
use presto_on_k8s_operator.Kube.Meta.{NamespacedName}
use presto_on_k8s_operator.Prelude.{ℕ, suc, ◌≡◌, sym, ◌∙◌, subst, inl, inr}
use presto_on_k8s_operator.Reconciler.Alike.{same_or_apart}

module _ (client : Client) (view : View client) (owner : NamespacedName) where
  -- The two states hold the same of a cluster and of what belongs to it.
  abbrev pub SameFor : client.State → client.State → Type 0
  SameFor s t = (k : Kind) (n : NamespacedName) → BelongsTo owner k n → view s k n ≡ view t k n

  -- What belongs to no part of the cluster.
  abbrev pub IsElsewhere : Kind → NamespacedName → Type 0
  IsElsewhere k n = (j : Kind) (m : NamespacedName) → BelongsTo owner j m → Differ j m k n

  -- What others do before the call of a number. They leave alone the cluster and what belongs to it.
  pub record Others : Type 0 where
    pub act : ℕ → client.State → client.State
    pub owner_kept : (i : ℕ) (s : client.State) → SameFor (act i s) s

  -- A property of all that is elsewhere, which the others keep.
  pub record Elsewhere (others : Others) : Type 1 where
    pub Holds : client.State → Type 0
    pub is_elsewhere :
        (s t : client.State)
        → ((k : Kind) (n : NamespacedName) → IsElsewhere k n → view s k n ≡ view t k n)
        → Holds s
        → Holds t
    pub kept : (i : ℕ) (s : client.State) → Holds s → Holds (others.act i s)

  -- A call that concerns an object of the cluster leaves the same of the cluster in both states.
  pub Concerns-SameFor :
      {A : Type 0} (k : Kind) (n : NamespacedName) (f : client.State → A × client.State)
      → BelongsTo owner k n
      → Concerns client view k n f
      → (s t : client.State) → SameFor s t
      → SameFor (f s).1 (f t).1
  Concerns-SameFor k n f owned c s t same j m own = elim (same_or_apart k n j m) [
    | inr differ ↦ c.others_kept s j m differ ∙ same j m own ∙ sym (c.others_kept t j m differ)
    | inl (kinds, keys) ↦
        subst (λ x. view (f s).1 x m ≡ view (f t).1 x m) kinds
          (subst (λ x. view (f s).1 k x ≡ view (f t).1 k x) keys
            (c.same_object s t (same k n owned)))
  ]

module _ (client : Client) (act : ℕ → client.State → client.State) where
  -- A call, with what others do before it. The second part of the state counts the calls.
  abbrev pub preceded :
      {A : Type 0} → (client.State → A × client.State) → client.State × ℕ → A × (client.State × ℕ)
  preceded f (s, i) = let (a, t) = f (act i s) in (a, (t, suc i))

  -- The client among others.
  abbrev pub among : Client
  among = record {
    State = client.State × ℕ;
    Error = client.Error;
    ignore_not_found = client.ignore_not_found;
    get = λ k n z. preceded (client.get k n z);
    create = λ k o. preceded (client.create k o);
    update = λ k o. preceded (client.update k o);
    delete = λ k o. preceded (client.delete k o);
    update_status = λ c. preceded (client.update_status c);
    event = λ c t r m (s, i). (client.event c t r m (act i s), suc i);
  }
