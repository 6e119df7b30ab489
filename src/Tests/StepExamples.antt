-- ===== src/Tests/StepExamples.antt =====
-- Single steps of the reconciler on a server that holds a config map which nobody wants.
use presto_on_k8s_operator.Kube.Apps.{
  ConfigMap, Deployment, Service, new_config_map, new_deployment, new_service,
}
use presto_on_k8s_operator.Kube.Client.{Kind}
use presto_on_k8s_operator.Prelude.{refl, none, some, [], ◌∷◌}
use presto_on_k8s_operator.Prelude.Int.{pos}
use presto_on_k8s_operator.Reconciler.{
  reconcile_config_map, reconcile_deployment, reconcile_service,
}
use presto_on_k8s_operator.Reconciler.Follows.{Follows, reconcile_parts-Follows}
use presto_on_k8s_operator.Tests.Data.{demo, request, server}
use presto_on_k8s_operator.Tests.Memory.{Server, memory, view}
use presto_on_k8s_operator.Tests.Memory.Deletions.{memory_deleting}
use presto_on_k8s_operator.Tests.Memory.Laws.{memory_quiet}

abbrev old_config_map : ConfigMap
old_config_map = record new_config_map { metadata = demo.metadata }

abbrev wanted_service : Service
wanted_service = record new_service { metadata = demo.metadata }

abbrev wanted_deployment : Deployment
wanted_deployment = record new_deployment {
  metadata = demo.metadata;
  spec = record new_deployment.spec { replicas = some (pos 2) };
}

abbrev crowded : Server
crowded = record server { config_maps = old_config_map ∷ [] }

reconcile_parts-Follows_example :
    Follows memory memory_quiet Kind.config_map request none crowded
      (reconcile_config_map memory none (view crowded Kind.config_map request) crowded)
    × Follows memory memory_quiet Kind.service request
        (some wanted_service)
        crowded
        (reconcile_service memory (some wanted_service) (view crowded Kind.service request) crowded)
    × Follows memory memory_quiet Kind.deployment request (some wanted_deployment) crowded (
        reconcile_deployment memory
          (some wanted_deployment)
          (view crowded Kind.deployment request)
          crowded)
reconcile_parts-Follows_example =
    reconcile_parts-Follows memory memory_quiet memory_deleting request (pos 2) none
      (some wanted_service) (some wanted_deployment) crowded tt refl refl refl
