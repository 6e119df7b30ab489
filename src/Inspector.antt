-- ===== src/Inspector.antt =====
-- controllers/inspector.go: reading the cluster and its children from the API server. Log lines are
-- left out.
pub mod Quiet
pub mod Errors
use presto_on_k8s_operator.Api.{PrestoCluster, new_presto_cluster}
use presto_on_k8s_operator.Go.{Action, pure, call, ◌>>=◌}
use presto_on_k8s_operator.Kube.Apps.{
  ConfigMap, Deployment, Service, new_config_map, new_deployment, new_service,
}
use presto_on_k8s_operator.Kube.Client.{Client, Kind}
use presto_on_k8s_operator.Kube.Meta.{NamespacedName}
use presto_on_k8s_operator.Prelude.{Option, none, some, ◌++◌, is_some, if◌then◌else◌}
use presto_on_k8s_operator.Text.{Text, codes}
use presto_on_k8s_operator.Utils.{
  get_coordinator_deployment_name, get_coordinator_service_name, get_worker_deployment_name,
}

pub record InspectedClusterState : Type 0 where
  pub cluster : Option PrestoCluster
  pub presto_config_map : Option ConfigMap
  pub catalog_config_map : Option ConfigMap
  pub coordinator_deployment : Option Deployment
  pub coordinator_service : Option Service
  pub worker_deployment : Option Deployment

-- `InspectedClusterState{}`
abbrev pub nothing_inspected : InspectedClusterState
nothing_inspected = record {
  cluster = none;
  presto_config_map = none;
  catalog_config_map = none;
  coordinator_deployment = none;
  coordinator_service = none;
  worker_deployment = none;
}

module _ (client : Client) where
  open client use {State, Error, ignore_not_found, get}

  -- The error of a `Get`, and what its pointer argument points to afterwards.
  abbrev pub Reading : Type 0 → Type 0
  Reading A = Action State (Option Error × A)

  unfoldable pub inspect_cluster : NamespacedName → PrestoCluster → Reading PrestoCluster
  inspect_cluster request cluster = call (get Kind.presto_cluster request cluster)

  unfoldable pub inspect_config_map : NamespacedName → ConfigMap → Text → Reading ConfigMap
  inspect_config_map request inspected_config_map configmap_name = call (
      get Kind.config_map
        (record { namespace = request.namespace; name = request.name ++ configmap_name })
        inspected_config_map)

  unfoldable pub inspect_deployment : Text → Text → Deployment → Reading Deployment
  inspect_deployment namespace name inspected_deployment =
      call
        (get Kind.deployment (record { namespace = namespace; name = name }) inspected_deployment)

  unfoldable pub inspect_coordiator_deployment : NamespacedName → Deployment → Reading Deployment
  unfolding inspect_deployment
  inspect_coordiator_deployment request =
      inspect_deployment request.namespace (get_coordinator_deployment_name request.name)

  unfoldable pub inspect_worker_deployment : NamespacedName → Deployment → Reading Deployment
  unfolding inspect_deployment
  inspect_worker_deployment request =
      inspect_deployment request.namespace (get_worker_deployment_name request.name)

  unfoldable pub inspect_coordinator_service : NamespacedName → Service → Reading Service
  inspect_coordinator_service request inspected_service = call (
      get Kind.service
        (record { namespace = request.namespace; name = get_coordinator_service_name request.name })
        inspected_service)

  -- The block that `inspect` has for each object: a NOT_FOUND error leaves the field nil, another
  -- error is returned at once, and what was found is kept.
  unfoldable pub inspect_part :
      {A : Type 0}
      → Reading A
      → (A → InspectedClusterState)
      → InspectedClusterState
      → (InspectedClusterState → Reading InspectedClusterState)
      → Reading InspectedClusterState
  inspect_part reading keep inspected rest = do
    (err, found) ← reading
    if is_some err
        then if is_some (ignore_not_found err) then pure (err, inspected) else rest inspected
        else rest (keep found)

  unfoldable pub inspect : NamespacedName → InspectedClusterState → Reading InspectedClusterState
  inspect request inspected =
      inspect_part (inspect_cluster request new_presto_cluster)
        (λ found. record inspected { cluster = some found }) inspected
        λ inspected.
          inspect_part (inspect_config_map request new_config_map (codes "-catalog-configmap"))
            (λ found. record inspected { catalog_config_map = some found }) inspected
            λ inspected.
              inspect_part (inspect_config_map request new_config_map (codes "-presto-configmap"))
                (λ found. record inspected { presto_config_map = some found }) inspected
                λ inspected.
                  inspect_part (inspect_coordiator_deployment request new_deployment)
                    (λ found. record inspected { coordinator_deployment = some found }) inspected
                    λ inspected.
                      inspect_part (inspect_coordinator_service request new_service)
                        (λ found. record inspected { coordinator_service = some found }) inspected
                        λ inspected.
                          inspect_part (inspect_worker_deployment request new_deployment)
                            (λ found. record inspected { worker_deployment = some found }) inspected
                            λ inspected. pure (none, inspected)
