-- ===== src/Controller/Concurrent/System.antt =====
-- Requests that are served at the same time, one call of one of them at a time, in any order.
use presto_on_k8s_operator.Controller.Among.{SameFor}
use presto_on_k8s_operator.Controller.Program.{
  ApiCall, Answer, perform, Program, done, faults, asks,
}
use presto_on_k8s_operator.Controller.Program.Request.{reconcile-Opened}
use presto_on_k8s_operator.Kube.Client.{Client}
use presto_on_k8s_operator.Kube.Client.Local.{View}
use presto_on_k8s_operator.Kube.Machinery.{Machinery, IsDocumented}
use presto_on_k8s_operator.Kube.Meta.{NamespacedName}
use presto_on_k8s_operator.Prelude.{ℕ, ◌≡◌, ◌⊎◌, Option, ◌==◌, if◌then◌else◌}
use presto_on_k8s_operator.Reconciler.{ReconcileResult}

abbrev pub set : {A : Type 0} → (ℕ → A) → ℕ → A → ℕ → A
set f i a j = if i == j then a else f j

module _ (client : Client) where
  abbrev pub Remaining : Type 0
  Remaining = Program client.Error (ReconcileResult × Option client.Error)

  -- The server, and what is left of each request.
  pub record System : Type 0 where
    pub state : client.State
    pub workers : ℕ → Remaining

  -- Nothing is left of a request.
  abbrev pub IsOver : Remaining → Type 0
  IsOver p = ((r : ReconcileResult × Option client.Error) × (p ≡ done r)) ⊎ (p ≡ faults)

  module _ (lib : Machinery) (doc : IsDocumented lib) (view : View client)
      (requests : ℕ → NamespacedName) where
    -- All that a request for a cluster does.
    abbrev pub whole : ℕ → Remaining
    whole i = (reconcile-Opened lib doc client.Error client.ignore_not_found (requests i)).program

    pub data Step (s : System) : System → Type 0 where
      -- The next call of a request
      calls :
          (i : ℕ) (c : ApiCall) (rest : Answer client.Error c → Remaining)
          → s.workers i ≡ asks c rest
          → Step s (record {
            state = (perform client c s.state).1;
            workers = set s.workers i (rest (perform client c s.state).0);
          })
      -- A cluster whose request is over is requested again.
      again :
          (i : ℕ)
          → IsOver (s.workers i)
          → Step s (record { state = s.state; workers = set s.workers i (whole i) })
      -- Others write to what belongs to none of the clusters.
      meddles :
          (t : client.State)
          → ((i : ℕ) → SameFor client view (requests i) t s.state)
          → Step s (record { state = t; workers = s.workers })

    pub data Reach (s : System) : System → Type 0 where
      start : Reach s s
      later : {t u : System} → Reach s t → Step t u → Reach s u

    pub Reach-trans : {s t u : System} → Reach s t → Reach t u → Reach s u
    Reach-trans run start = run
    Reach-trans run (later more step) = later (Reach-trans run more) step

    -- A request goes on by calls of its own.
    pub data OwnCalls (i : ℕ) : System → System → Type 0 where
      stays : {s : System} → OwnCalls i s s
      goes_on :
          {s u : System} (c : ApiCall) (rest : Answer client.Error c → Remaining)
          → s.workers i ≡ asks c rest
          → OwnCalls i
              (record {
                state = (perform client c s.state).1;
                workers = set s.workers i (rest (perform client c s.state).0);
              })
              u
          → OwnCalls i s u

    pub OwnCalls-Reach : {i : ℕ} {s u : System} → OwnCalls i s u → Reach s u
    OwnCalls-Reach stays = start
    OwnCalls-Reach {i} (goes_on c rest e more) =
        Reach-trans (later start (calls i c rest e)) (OwnCalls-Reach more)

    -- The first request for each cluster is at its beginning.
    abbrev pub beginning : client.State → System
    beginning s = record { state = s; workers = whole }
