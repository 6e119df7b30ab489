-- ===== src/Tests/Rollouts.antt =====
-- Workers that start one at a time on the server in memory.
use presto_on_k8s_operator.Controller.{reconcile}
use presto_on_k8s_operator.Controller.Calls.{tracing}
use presto_on_k8s_operator.Controller.Calls.Emits.{Between}
use presto_on_k8s_operator.Controller.Calls.Request.{reconcile_calls}
use presto_on_k8s_operator.Controller.Requeues
use presto_on_k8s_operator.Controller.Returns.Inspection.{ReadsCounts}
use presto_on_k8s_operator.Controller.Returns.Parts.{IsPaced}
use presto_on_k8s_operator.Controller.Returns.Request.{reconcile_returns}
use presto_on_k8s_operator.Controller.Rollout.{IsRollout}
use presto_on_k8s_operator.Desired.Keys.{worker_deployment_key}
use presto_on_k8s_operator.Go.{returns, final}
use presto_on_k8s_operator.Kube.Apps.{Deployment}
use presto_on_k8s_operator.Kube.Client.{Client, Kind, Object}
use presto_on_k8s_operator.Kube.Client.Quiet.{Differ}
use presto_on_k8s_operator.Kube.Meta.{NamespacedName}
use presto_on_k8s_operator.Prelude.{
  ℕ, suc, ◌-◌, ◌≤◌, ◌<◌, ◌≡◌, refl, ◌≢◌, inl, inr, none, some, [], ltb, if◌then◌else◌, arith,
  Option, Option-cases, subst,
}
use presto_on_k8s_operator.Prelude.Distance.{distance, distance_self}
use presto_on_k8s_operator.Prelude.Int.{ℤ, pos, negsuc}
use presto_on_k8s_operator.Reconciler.{ReconcileResult}
use presto_on_k8s_operator.Status.Quiet.{available}
use presto_on_k8s_operator.Tests.Data.{
  plain, plain-IsDocumented, request, demo, demo_maps, server, demo_found,
}
use presto_on_k8s_operator.Tests.Memory.{ApiError, Server, memory, view, put, defaulted}
use presto_on_k8s_operator.Tests.Memory.Laws.{
  memory_quiet, view_key, view-put_self, view-put_other, default_replicas-some,
}

abbrev toward : ℤ → ℤ → ℤ
toward (pos a) (pos r) = pos (if ltb a r then suc a else (if ltb r a then a - 1 else a))
toward a r = r

toward-closer : (a r : ℤ) → a ≢ r → distance (toward a r) r < distance a r
unfolding distance
toward-closer (pos a) (pos r) h = ground (arith, h)
toward-closer (pos a) (negsuc r) h = omega (arith, distance_self (negsuc r))
toward-closer (negsuc a) (pos r) h = omega (arith, distance_self (pos r))
toward-closer (negsuc a) (negsuc r) h = ground (arith, h)

-- One more replica is there, or one less.
abbrev moved : Deployment → Deployment
moved d = record d {
  status = record {
    available_replicas = elim d.spec.replicas [
      | none ↦ d.status.available_replicas
      | some r ↦ toward d.status.available_replicas r
    ];
  };
}

abbrev rollout_of : NamespacedName → Option Deployment → Server → Server
rollout_of n none s = s
rollout_of n (some d) s = put Kind.deployment (moved d) s

abbrev rollout : Server → Server
rollout s = rollout_of request (view s Kind.deployment (worker_deployment_key request)) s

rollout_others :
    (s : Server) (j : Kind) (n : NamespacedName)
    → Differ Kind.deployment (worker_deployment_key request) j n
    → view (rollout s) j n ≡ view s j n
rollout_others s j n h =
    elim (Option-cases (view s Kind.deployment (worker_deployment_key request))) [
      | inl e ↦ rw e refl
      | inr (d, e) ↦ rw e (
          view-put_other Kind.deployment j (moved d) s n
            (rw (view_key s Kind.deployment (worker_deployment_key request) d e) h))
    ]

rollout_closer :
    (s : Server) (d : Deployment) (r : ℤ)
    → view s Kind.deployment (worker_deployment_key request) ≡ some d
    → d.spec.replicas ≡ some r
    → d.status.available_replicas ≢ r
    → (e : Deployment) × (view (rollout s) Kind.deployment (worker_deployment_key request) ≡ some e)
      × (e.spec.replicas ≡ some r)
      × (distance e.status.available_replicas r < distance d.status.available_replicas r)
rollout_closer s d r held asked short = (
  defaulted Kind.deployment (moved d),
  rw held (
      subst
        (λ n.
          view (put Kind.deployment (moved d) s) Kind.deployment n
          ≡ some (defaulted Kind.deployment (moved d)))
        (view_key s Kind.deployment (worker_deployment_key request) d held)
        (view-put_self Kind.deployment (moved d) s)),
  default_replicas-some d.spec.replicas r asked,
  rw asked (toward-closer d.status.available_replicas r short),
)

abbrev rollout-IsRollout : IsRollout memory memory_quiet request rollout
rollout-IsRollout = record { others = rollout_others; closer = rollout_closer }

requeues_end_example :
    (n : ℕ) × (u : Server) × (n
      ≤ distance
          (available memory memory_quiet request (final (reconcile plain memory request server)))
          (pos 2))
    × Requeues.Served plain plain-IsDocumented memory memory_quiet request rollout rollout-IsRollout
        server n u
    × Requeues.IsDone plain plain-IsDocumented memory memory_quiet request rollout rollout-IsRollout
        (pos 2)
        demo
        refl
        demo_maps
        u
requeues_end_example =
    Requeues.requeues_end plain plain-IsDocumented memory memory_quiet request rollout
      rollout-IsRollout (pos 2) demo refl demo_maps server demo_found

reconcile_calls_example :
    Between 14 [] (final (reconcile plain (tracing memory) request (server, []))).1
reconcile_calls_example = reconcile_calls plain memory request server

-- A client that finds the cluster and none of its children, and fails to create them.
abbrev refusing_get :
    (k : Kind) → NamespacedName → Object k → Server → (Option ApiError × Object k) × Server
refusing_get Kind.presto_cluster n z s = ((none, demo), s)
refusing_get k n z s = ((some ApiError.missing, z), s)

abbrev refusing : Client
refusing = record memory { get = refusing_get; create = λ k o s. (some ApiError.unavailable, s) }

some-ne-none : some ApiError.missing ≢ none
some-ne-none e = cc

refusing-ReadsCounts : ReadsCounts refusing
refusing-ReadsCounts = record {
  workers = λ n z s ok. (pos 2, refl);
  replicas = λ n z s ok. absurd (some-ne-none ok);
}

reconcile_returns_example :
    (r : ReconcileResult × Option ApiError) × (t : Server) × (reconcile plain refusing request
        server
      ≡ returns r t)
    × IsPaced r
reconcile_returns_example = reconcile_returns plain refusing refusing-ReadsCounts request server
