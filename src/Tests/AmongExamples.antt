-- ===== src/Tests/AmongExamples.antt =====
-- Requests while others write to the same server.
use presto_on_k8s_operator.Controller.{reconcile}
use presto_on_k8s_operator.Controller.Among.{Others, Elsewhere, among}
use presto_on_k8s_operator.Controller.Among.Agrees.{Matches}
use presto_on_k8s_operator.Controller.Among.Results.{
  reconcile-among, reconcile_leaves_others, reconcile_converges_among, serving,
}
use presto_on_k8s_operator.Controller.Isolated.{BelongsTo-apart, itself, coordinator}
use presto_on_k8s_operator.Desired.Keys.{coordinator_deployment_key}
use presto_on_k8s_operator.Go.{returns, final}
use presto_on_k8s_operator.Kube.Client.{Kind}
use presto_on_k8s_operator.Kube.Meta.{NamespacedName}
use presto_on_k8s_operator.Prelude.{ℕ, ◌≡◌, refl, sym, ◌∙◌, ◌≢◌, ap, none, some, arith}
use presto_on_k8s_operator.Prelude.Int.{pos}
use presto_on_k8s_operator.Reconciler.Settled.{IsSettled}
use presto_on_k8s_operator.Status.Quiet.{result_for, available, with_status}
use presto_on_k8s_operator.Tests.Data.{
  plain, plain-IsDocumented, request, other_request, other_differs, demo, demo_maps, demo_found,
  server,
}
use presto_on_k8s_operator.Tests.Memory.{Server, memory, view, find, same_key}
use presto_on_k8s_operator.Tests.Memory.Laws.{memory_quiet}
use presto_on_k8s_operator.Tests.Memory.Local.{memory-IsLocal}
use presto_on_k8s_operator.Text.{codes, ◌==◌}
use presto_on_k8s_operator.Utils.Names.{point_at}

-- A request for the other cluster is served before each call.
abbrev busy : Others memory view request
busy =
    serving plain plain-IsDocumented memory view memory-IsLocal request (λ i. other_request)
      (λ i. other_differs)

abbrev third : NamespacedName
third = record { namespace = codes "default"; name = codes "third" }

third_differs : third ≢ request
third_differs e = omega (arith, ap (λ n. point_at 0 n.name) e)

third_differs_other : third ≢ other_request
third_differs_other e = omega (arith, ap (λ n. point_at 0 n.name) e)

-- Nobody makes a third cluster.
abbrev no_third : Elsewhere memory view request busy
no_third = record {
  Holds = λ s. view s Kind.presto_cluster third ≡ none;
  is_elsewhere =
      λ s t same h. sym (same _ _ (λ j m own. BelongsTo-apart third_differs own itself)) ∙ h;
  kept = λ i s h.
      reconcile_leaves_others plain plain-IsDocumented memory view memory-IsLocal other_request
        third s _ _ third_differs_other itself
      ∙ h;
}

reconcile-among_example :
    Matches memory view request busy no_third
      (reconcile plain (among memory busy.act) request (server, 0))
      (reconcile plain memory request server)
unfolding view find same_key ◌==◌
reconcile-among_example =
    reconcile-among plain plain-IsDocumented memory view memory-IsLocal request busy no_third server
      refl

reconcile_leaves_others_example :
    view
      (final (reconcile plain memory request server))
      Kind.deployment
      (coordinator_deployment_key other_request)
    ≡ view server Kind.deployment (coordinator_deployment_key other_request)
reconcile_leaves_others_example =
    reconcile_leaves_others plain plain-IsDocumented memory view memory-IsLocal request
      other_request server Kind.deployment (coordinator_deployment_key other_request) other_differs
      coordinator

reconcile_converges_among_example :
    (t : Server × ℕ) × (reconcile plain (among memory busy.act) request (server, 0)
      ≡ returns (result_for (available memory memory_quiet request t.0) (pos 2), none) t)
    × IsSettled memory memory_quiet request (pos 2) t.0
    × (view t.0 Kind.presto_cluster request
        ≡ some (with_status demo (available memory memory_quiet request t.0)))
reconcile_converges_among_example =
    reconcile_converges_among plain plain-IsDocumented memory memory_quiet memory-IsLocal request
      (pos 2) demo busy server refl demo_found demo_maps
