-- ===== src/Controller/Concurrent/Alone.antt =====
-- Each of the requests that are served at the same time goes as it does alone, after the requests
-- for the same cluster that came before it.
use presto_on_k8s_operator.Controller.{reconcile}
use presto_on_k8s_operator.Controller.Among.{SameFor}
use presto_on_k8s_operator.Controller.Program.{ApiCall, Answer, perform, asks, run, Keeps}
use presto_on_k8s_operator.Controller.Program.Local.{IsFor-Behaves, perform-IsKeyed}
use presto_on_k8s_operator.Controller.Program.Opened.{operations_of}
use presto_on_k8s_operator.Controller.Program.Request.{reconcile-Opened}
use presto_on_k8s_operator.Controller.Concurrent.System.{Remaining, IsOver, whole}
use presto_on_k8s_operator.Go.{returns, panics}
use presto_on_k8s_operator.Kube.Client.{Client}
use presto_on_k8s_operator.Kube.Client.Local.{View, IsLocal}
use presto_on_k8s_operator.Kube.Machinery.{Machinery, IsDocumented}
use presto_on_k8s_operator.Kube.Meta.{NamespacedName}
use presto_on_k8s_operator.Prelude.{ℕ, ◌≡◌, sym, ◌∙◌, inl, inr, Option}
use presto_on_k8s_operator.Reconciler.{ReconcileResult}

module _ (lib : Machinery) (client : Client) (owner : NamespacedName) where
  -- The states after requests for one cluster that are served one after the other, and alone.
  pub data Serial (s : client.State) : client.State → Type 0 where
    first : Serial s s
    returned :
        {t u : client.State} (r : ReconcileResult × Option client.Error)
        → Serial s t
        → reconcile lib client owner t ≡ returns r u
        → Serial s u
    died : {t u : client.State} → Serial s t → reconcile lib client owner t ≡ panics u → Serial s u

module _ (lib : Machinery) (doc : IsDocumented lib) (client : Client) (view : View client)
    (loc : IsLocal client view) (requests : ℕ → NamespacedName) (i : ℕ) (s0 : client.State) where
  -- What is left of a request goes on, from a state with the same of its cluster, to the end that the
  -- request has alone, after other requests for its cluster that were served alone.
  pub record Alone (s : client.State) (p : Remaining client) : Type 0 where
    pub state : client.State
    pub same : SameFor client view (requests i) s state
    pub keeps : Keeps client.Error (requests i) (λ _. Unit) p
    pub from : client.State
    pub before : Serial lib client (requests i) s0 from
    pub ends : run client p state ≡ reconcile lib client (requests i) from

  -- Its own call.
  pub Alone-calls :
      (s : client.State) (c : ApiCall) (rest : Answer client.Error c → Remaining client)
      → Alone s (asks c rest)
      → Alone (perform client c s).1 (rest (perform client c s).0)
  unfolding Keeps run
  Alone-calls s c rest h =
      let b = IsFor-Behaves client view loc (requests i) c h.keeps.0 in
      record {
        state = (perform client c h.state).1;
        same = b.same_for s h.state h.same;
        keeps = h.keeps.1 _ (perform-IsKeyed client view loc c s);
        from = h.from;
        before = h.before;
        ends = rw (b.same_answer s h.state h.same) h.ends;
      }

  -- What others write, as long as the cluster is as it was.
  pub Alone-kept :
      (s t : client.State) (p : Remaining client)
      → SameFor client view (requests i) t s
      → Alone s p
      → Alone t p
  Alone-kept s t p kept h = record {
    state = h.state;
    same = λ k n own. kept k n own ∙ h.same k n own;
    keeps = h.keeps;
    from = h.from;
    before = h.before;
    ends = h.ends;
  }

  -- A request that begins.
  pub Alone-begins :
      (s t : client.State)
      → SameFor client view (requests i) s t
      → Serial lib client (requests i) s0 t
      → Alone s (whole client lib doc view requests i)
  Alone-begins s t same before =
      let opened = reconcile-Opened lib doc client.Error client.ignore_not_found (requests i) in
      record {
        state = t;
        same = same;
        keeps = opened.keeps tt;
        from = t;
        before = before;
        ends = opened.runs (operations_of client) t;
      }

  -- The next request for the cluster.
  pub Alone-again :
      (s : client.State) (p : Remaining client)
      → IsOver client p
      → Alone s p
      → Alone s (whole client lib doc view requests i)
  unfolding run
  Alone-again s p (inl (r, e)) h =
      Alone-begins s h.state h.same (returned r h.before (sym (rw e at h.ends)))
  Alone-again s p (inr e) h = Alone-begins s h.state h.same (died h.before (sym (rw e at h.ends)))
