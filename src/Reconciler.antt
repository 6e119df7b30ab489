-- ===== src/Reconciler.antt =====
-- controllers/reconciler.go: driving the inspected state towards the desired state. Log lines, and
-- the component names that only they use, are left out.
pub mod Follows
pub mod Alike
pub mod Plan
pub mod Children
pub mod Settled
pub mod Refines
use presto_on_k8s_operator.Desired.{DesiredClusterState}
use presto_on_k8s_operator.Go.{Action, pure, call, deref, ◌>>=◌}
use presto_on_k8s_operator.Inspector.{InspectedClusterState}
use presto_on_k8s_operator.Kube.Apps.{ConfigMap, Deployment, Ingress, Service}
use presto_on_k8s_operator.Kube.Client.{Client, Kind}
use presto_on_k8s_operator.Prelude.{
  ℕ, ◌*◌, Bool, true, false, Option, none, some, is_some, if◌then◌else◌,
}
use presto_on_k8s_operator.Prelude.Int.{◌==◌}

-- `ctrl.Result`, the delay in nanoseconds.
pub record ReconcileResult : Type 0 where
  pub requeue : Bool
  pub requeue_after : ℕ

-- `ctrl.Result{}`
abbrev pub no_requeue : ReconcileResult
no_requeue = record { requeue = false; requeue_after = 0 }

-- `time.Second`
abbrev pub second : ℕ
second = 1_000_000_000

-- A package variable that no function reads.
abbrev pub requeue_result : ReconcileResult
requeue_result = record { requeue = true; requeue_after = 10 * second }

module _ (client : Client) where
  open client use {State, Error, ignore_not_found, create, update, delete}

  abbrev pub Effect : Type 0
  Effect = Action State (Option Error)

  unfoldable pub create_deployment : Deployment → Effect
  create_deployment deployment = call (create Kind.deployment deployment)

  unfoldable pub update_deployment : Deployment → Effect
  update_deployment deployment = call (update Kind.deployment deployment)

  unfoldable pub delete_deployment : Deployment → Effect
  delete_deployment deployment = do
    err ← call (delete Kind.deployment deployment)
    pure (ignore_not_found err)

  unfoldable pub create_service : Service → Effect
  create_service service = call (create Kind.service service)

  unfoldable pub delete_service : Service → Effect
  delete_service service = do err ← call (delete Kind.service service); pure (ignore_not_found err)

  unfoldable pub create_ingress : Ingress → Effect
  create_ingress ingress = call (create Kind.ingress ingress)

  unfoldable pub delete_ingress : Ingress → Effect
  delete_ingress ingress = do err ← call (delete Kind.ingress ingress); pure (ignore_not_found err)

  unfoldable pub create_config_map : ConfigMap → Effect
  create_config_map cm = call (create Kind.config_map cm)

  unfoldable pub delete_config_map : ConfigMap → Effect
  delete_config_map cm = do err ← call (delete Kind.config_map cm); pure (ignore_not_found err)

  -- Both counts are read through their pointers.
  unfoldable pub reconcile_deployment : Option Deployment → Option Deployment → Effect
  reconcile_deployment (some desired) none = create_deployment desired
  reconcile_deployment (some desired) (some inspected) = do
    desired_replicas ← deref desired.spec.replicas
    inspected_replicas ← deref inspected.spec.replicas
    if desired_replicas == inspected_replicas then pure none else update_deployment desired
  reconcile_deployment none (some inspected) = delete_deployment inspected
  reconcile_deployment none none = pure none

  -- An object that exists is left as it is.
  unfoldable pub reconcile_service : Option Service → Option Service → Effect
  reconcile_service (some desired) none = create_service desired
  reconcile_service (some desired) (some inspected) = pure none
  reconcile_service none (some inspected) = delete_service inspected
  reconcile_service none none = pure none

  unfoldable pub reconcile_config_map : Option ConfigMap → Option ConfigMap → Effect
  reconcile_config_map (some desired) none = create_config_map desired
  reconcile_config_map (some desired) (some inspected) = pure none
  reconcile_config_map none (some inspected) = delete_config_map inspected
  reconcile_config_map none none = pure none

  module _ (inspected : InspectedClusterState) (desired : DesiredClusterState) where
    unfoldable pub reconcile_presto_config_map : Effect
    reconcile_presto_config_map =
        reconcile_config_map desired.presto_config_map inspected.presto_config_map

    unfoldable pub reconcile_catalog_config_map : Effect
    reconcile_catalog_config_map =
        reconcile_config_map desired.catalog_config_map inspected.catalog_config_map

    unfoldable pub reconcile_coordinator_deployment : Effect
    reconcile_coordinator_deployment =
        reconcile_deployment desired.coordinator_deployment inspected.coordinator_deployment

    unfoldable pub reconcile_coordinator_service : Effect
    reconcile_coordinator_service =
        reconcile_service desired.coordinator_service inspected.coordinator_service

    unfoldable pub reconcile_worker_deployment : Effect
    reconcile_worker_deployment =
        reconcile_deployment desired.worker_deployment inspected.worker_deployment

    -- `err = step(); if err != nil { return ctrl.Result{}, err }`
    unfoldable pub unless_failed :
        Effect
        → Action State (ReconcileResult × Option Error)
        → Action State (ReconcileResult × Option Error)
    unless_failed step rest = do err ← step; if is_some err then pure (no_requeue, err) else rest

    -- `ClusterReconciler.reconcile`
    unfoldable pub reconcile_children : Action State (ReconcileResult × Option Error)
    reconcile_children = elim inspected.cluster [
      | none ↦ pure (no_requeue, none)
      | some _ ↦ unless_failed reconcile_presto_config_map (
          unless_failed reconcile_catalog_config_map (
            unless_failed reconcile_coordinator_deployment (
              unless_failed reconcile_coordinator_service
                (unless_failed reconcile_worker_deployment (pure (no_requeue, none))))))
    ]
