-- ===== src/Tests/Examples.antt =====
-- The operator on a server in memory.
use presto_on_k8s_operator.Api.{new_presto_cluster}
use presto_on_k8s_operator.Controller.{reconcile}
use presto_on_k8s_operator.Controller.Converges
use presto_on_k8s_operator.Controller.Deletes
use presto_on_k8s_operator.Controller.Errors
use presto_on_k8s_operator.Controller.Runs
use presto_on_k8s_operator.Controller.Writes.{Recorded, recording}
use presto_on_k8s_operator.Controller.Writes.Request
use presto_on_k8s_operator.Go.{returns, final}
use presto_on_k8s_operator.Inspector.{inspect, inspect_part, inspect_cluster}
use presto_on_k8s_operator.Inspector.Quiet.{held, inspect-held}
use presto_on_k8s_operator.Kube.Client.{Kind}
use presto_on_k8s_operator.Prelude.{◌≡◌, refl, ◌≢◌, ◌⊎◌, none, some, []}
use presto_on_k8s_operator.Prelude.Int.{pos}
use presto_on_k8s_operator.Reconciler.{ReconcileResult, no_requeue}
use presto_on_k8s_operator.Reconciler.Settled.{IsSettled}
use presto_on_k8s_operator.Status.Quiet.{available, result_for, with_status}
use presto_on_k8s_operator.Tests.Data.{
  plain, plain-IsDocumented, request, other_request, demo, demo_maps, uncounted, uncounted_found,
  uncounted_server, server, demo_found, unreachable, empty_server,
}
use presto_on_k8s_operator.Tests.Memory.{ApiError, Server, memory, view, find}
use presto_on_k8s_operator.Tests.Memory.Laws.{memory_quiet}
use presto_on_k8s_operator.Tests.Memory.Local.{memory-IsLocal}

reconcile_converges_example :
    (t : Server) × (reconcile plain memory request server
      ≡ returns (result_for (available memory memory_quiet request t) (pos 2), none) t)
    × IsSettled memory memory_quiet request (pos 2) t
    × (view t Kind.presto_cluster request
        ≡ some (with_status demo (available memory memory_quiet request t)))
reconcile_converges_example =
    Converges.reconcile_converges plain plain-IsDocumented memory memory_quiet request (pos 2) demo
      refl server demo_found demo_maps

-- The state after the first request, and its result.
abbrev first_state : Server
first_state = reconcile_converges_example.0

abbrev first_result : ReconcileResult
first_result = result_for (available memory memory_quiet request first_state) (pos 2)

reconcile_twice_example :
    reconcile plain memory request first_state ≡ returns (first_result, none) first_state
reconcile_twice_example =
    Converges.reconcile_twice plain plain-IsDocumented memory memory_quiet request (pos 2) demo
      server first_state first_result refl demo_found demo_maps reconcile_converges_example.1

reconcile_settled_example :
    reconcile plain memory request first_state
    ≡ returns
        (result_for (available memory memory_quiet request first_state) (pos 2), none)
        first_state
reconcile_settled_example =
    let current = with_status demo (available memory memory_quiet request first_state) in
    Converges.reconcile_settled plain plain-IsDocumented memory memory_quiet request (pos 2) current
      refl first_state reconcile_converges_example.3
      (record {
        coordinator_etc = demo_maps.coordinator_etc;
        worker_etc = demo_maps.worker_etc;
        catalog = demo_maps.catalog;
        core_site = demo_maps.core_site;
      })
      reconcile_converges_example.2 refl

-- A server that cannot be reached: its error is passed on.
unreachable_fails :
    reconcile plain unreachable request server
    ≡ returns (no_requeue, some ApiError.unavailable) server
unfolding reconcile inspect inspect_part inspect_cluster
unreachable_fails = refl

reconcile_reports_example :
    (no_requeue ≡ no_requeue)
    × (Errors.OfInspection plain unreachable request server ApiError.unavailable
        ⊎ Errors.OfStatus plain unreachable request ApiError.unavailable)
reconcile_reports_example =
    Errors.reconcile_reports plain unreachable request no_requeue ApiError.unavailable server server
      unreachable_fails

reconcile_nil_workers_example :
    reconcile plain memory request uncounted_server ≢ returns (no_requeue, none) uncounted_server
reconcile_nil_workers_example =
    Errors.reconcile_nil_workers plain memory request
      (held memory memory_quiet request uncounted_server) uncounted no_requeue uncounted_server
      uncounted_server uncounted_server (inspect-held memory memory_quiet request uncounted_server)
      uncounted_found refl

reconcile_absent_example :
    reconcile plain memory request empty_server ≡ returns (no_requeue, none) empty_server
unfolding view find
reconcile_absent_example =
    Errors.reconcile_absent plain memory request memory_quiet empty_server refl

reconcile_deletes_nothing_example :
    reconcile plain (Deletes.deleting memory (λ k o s. (none, empty_server))) request server
    ≡ reconcile plain memory request server
reconcile_deletes_nothing_example =
    Deletes.reconcile_deletes_nothing memory (λ k o s. (none, empty_server)) plain request server

-- The first request, and then others for a cluster that is not there and for the same one.
reconcile-Runs-IsKept_example :
    Runs.IsKept plain plain-IsDocumented memory memory_quiet memory-IsLocal request
      (pos 2)
      demo.spec
      (final (
        reconcile plain memory request (
          final (
            reconcile plain memory other_request (final (reconcile plain memory request server))))))
reconcile-Runs-IsKept_example =
    Runs.reconcile-Runs-IsKept plain plain-IsDocumented memory memory_quiet memory-IsLocal request
      (pos 2) demo server _ demo_found refl demo_maps
      (Runs.serve (Runs.serve Runs.idle other_request) request)

reconcile_writes_example :
    Recorded plain memory
      (memory.get Kind.presto_cluster request new_presto_cluster server).0.1
      (final (reconcile plain (recording memory) request (server, [])))
reconcile_writes_example = Request.reconcile_writes plain memory request server
