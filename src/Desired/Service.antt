-- ===== src/Desired/Service.antt =====
-- controllers/desired.go: the service of the coordinator.
use presto_on_k8s_operator.Api.{PrestoCluster, presto_cluster_kind}
use presto_on_k8s_operator.Kube.Apps.{Service, IntOrString}
use presto_on_k8s_operator.Kube.Machinery.{Machinery}
use presto_on_k8s_operator.Prelude.{[], ◌∷◌, some}
use presto_on_k8s_operator.Text.{codes}

unfoldable pub get_desired_coordinator_service : Machinery → PrestoCluster → Service
get_desired_coordinator_service lib presto_cluster = record {
  metadata = record {
    name = presto_cluster.metadata.name;
    namespace = presto_cluster.metadata.namespace;
    uid = [];
    owner_references = lib.new_controller_ref presto_cluster.metadata presto_cluster_kind ∷ [];
    labels = some (
        (codes "app", codes "presto-coordinator-service")
        ∷ (codes "controller", presto_cluster.metadata.name)
        ∷ []);
  };
  spec = record {
    selector = some (
        (codes "app", codes "presto-coordinator")
        ∷ (codes "controller", presto_cluster.metadata.name)
        ∷ []);
    ports =
        record { protocol = codes "TCP"; port = 8080; target_port = IntOrString.from_int 8080 }
        ∷ [];
  };
}
