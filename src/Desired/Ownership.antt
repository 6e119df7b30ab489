-- ===== src/Desired/Ownership.antt =====
-- The desired objects belong to the cluster, and the selectors pick the pods that they mean.
use presto_on_k8s_operator.Api.{PrestoCluster, presto_cluster_kind}
use presto_on_k8s_operator.Api.DeepCopy.{presto_cluster_deep_copy}
use presto_on_k8s_operator.Desired.ConfigMaps.{
  to_owner_reference, new_configmap, get_desired_presto_config_map, get_desired_catalog_config_map,
}
use presto_on_k8s_operator.Desired.Deployments.{
  coordinator_labels, worker_labels, get_desired_coordinator_deployment,
  get_desired_worker_deployment,
}
use presto_on_k8s_operator.Desired.Service.{get_desired_coordinator_service}
use presto_on_k8s_operator.Kube.Apps.{Deployment, Service}
use presto_on_k8s_operator.Kube.Machinery.{Machinery, IsDocumented}
use presto_on_k8s_operator.Kube.Meta.{ObjectMeta, OwnerReference}
use presto_on_k8s_operator.Maps.{StringMap, entries, lookup}
use presto_on_k8s_operator.Prelude.{
  ◌≡◌, refl, Bool, true, false, ◌&&◌, [], ◌∷◌, none, some, arith, ap,
}
use presto_on_k8s_operator.Text.{codes, ◌==◌, ==_refl}

-- An object has one owner, the given cluster, as its controller, and stands in its namespace. The
-- reference names the cluster by its kind, group and version, name and uid.
abbrev pub IsOwnedBy : PrestoCluster → ObjectMeta → Type 0
IsOwnedBy c m =
    (ref : OwnerReference) × (m.owner_references ≡ ref ∷ [])
    × (ref.api_version ≡ codes "prestooperator.k8s.io/v1alpha1")
    × (ref.kind ≡ codes "PrestoCluster")
    × (ref.name ≡ c.metadata.name)
    × (ref.uid ≡ c.metadata.uid)
    × (ref.controller ≡ some true)
    × (m.namespace ≡ c.metadata.namespace)

-- Given documented libraries, and a cluster whose own type meta says what it is, each of the five
-- desired objects has the cluster as its only owner and its controller: the reference has the kind
-- `PrestoCluster`, the API version `prestooperator.k8s.io/v1alpha1`, and the name and the uid of the
-- cluster. The object stands in the cluster's namespace.
pub desired_objects-IsOwnedBy :
    (lib : Machinery) (c : PrestoCluster)
    → IsDocumented lib
    → c.type_meta.api_version ≡ codes "prestooperator.k8s.io/v1alpha1"
    → c.type_meta.kind ≡ codes "PrestoCluster"
    → IsOwnedBy c (get_desired_presto_config_map lib c).metadata
      × IsOwnedBy c (get_desired_catalog_config_map lib c).metadata
      × IsOwnedBy c (get_desired_coordinator_deployment lib c).metadata
      × IsOwnedBy c (get_desired_coordinator_service lib c).metadata
      × IsOwnedBy c (get_desired_worker_deployment lib c).metadata
unfolding get_desired_presto_config_map get_desired_catalog_config_map
    get_desired_coordinator_deployment get_desired_coordinator_service get_desired_worker_deployment
    new_configmap to_owner_reference presto_cluster_deep_copy
desired_objects-IsOwnedBy lib c doc same_version same_kind =
    let copied = doc.meta_copied c.metadata in
    let own = to_owner_reference (presto_cluster_deep_copy lib c) in
    let ref = lib.new_controller_ref c.metadata presto_cluster_kind in
    let versioned = doc.ref_api_version c.metadata presto_cluster_kind (λ e. cc) in
    let kinded = doc.ref_kind c.metadata presto_cluster_kind in
    let named = doc.ref_name c.metadata presto_cluster_kind in
    let identified = doc.ref_uid c.metadata presto_cluster_kind in
    let controls = doc.ref_controller c.metadata presto_cluster_kind in
    (
      (
        own,
        refl,
        same_version,
        same_kind,
        ap (λ m. m.name) copied,
        ap (λ m. m.uid) copied,
        refl,
        ap (λ m. m.namespace) copied,
      ),
      (
        own,
        refl,
        same_version,
        same_kind,
        ap (λ m. m.name) copied,
        ap (λ m. m.uid) copied,
        refl,
        ap (λ m. m.namespace) copied,
      ),
      (ref, refl, versioned, kinded, named, identified, controls, refl),
      (ref, refl, versioned, kinded, named, identified, controls, refl),
      (ref, refl, versioned, kinded, named, identified, controls, refl),
    )

-- A selector's entries are all among the labels.
unfoldable pub selects : StringMap → StringMap → Bool
selects [] labels = true
selects ((k, v) ∷ rest) labels = elim (lookup k labels) [
  | none ↦ false
  | some w ↦ (v == w) && selects rest labels
]

abbrev pub pod_labels : Deployment → StringMap
pod_labels d = entries d.spec.template.labels

-- The entries that a deployment's selector asks for.
abbrev pub selector_of : Deployment → StringMap
selector_of d = elim d.spec.selector [ none ↦ [] | some s ↦ entries s.match_labels ]

-- A service picks the pods of a deployment: they stand in the service's namespace, and its selector
-- asks for labels that they have. A deployment's pods stand in its own namespace.
unfoldable pub picks : Service → Deployment → Bool
picks service d =
    (service.metadata.namespace == d.metadata.namespace)
    && selects (entries service.spec.selector) (pod_labels d)

-- The service of a cluster picks the pods of a coordinator exactly if that coordinator's cluster has
-- the same namespace and the same name, and never pods of workers.
pub service-selects :
    (lib : Machinery) (c other : PrestoCluster)
    → let service = get_desired_coordinator_service lib c in
      (picks service (get_desired_coordinator_deployment lib other) ≡ (
        (c.metadata.namespace == other.metadata.namespace)
        && (c.metadata.name == other.metadata.name)))
      × (picks service (get_desired_worker_deployment lib other) ≡ false)
unfolding picks get_desired_coordinator_service get_desired_coordinator_deployment
    get_desired_worker_deployment coordinator_labels worker_labels selects lookup ◌==◌
service-selects lib c other = (ground arith, ground arith)

-- Each deployment selects the pods of its own template, and not those of the other deployment.
pub deployment-selects :
    (lib : Machinery) (c other : PrestoCluster)
    → let coordinator = get_desired_coordinator_deployment lib c in
      let worker = get_desired_worker_deployment lib c in
      (selects (selector_of coordinator) (pod_labels coordinator) ≡ true)
      × (selects (selector_of worker) (pod_labels worker) ≡ true)
      × (selects (selector_of coordinator) (pod_labels (get_desired_worker_deployment lib other))
          ≡ false)
      × (selects (selector_of worker) (pod_labels (get_desired_coordinator_deployment lib other))
          ≡ false)
unfolding get_desired_coordinator_deployment get_desired_worker_deployment coordinator_labels
    worker_labels selects lookup ◌==◌
deployment-selects lib c other =
    (rw (==_refl c.metadata.name), rw (==_refl c.metadata.name), refl, refl)
