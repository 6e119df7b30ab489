-- ===== src/Desired/Unordered.antt =====
-- controllers/desired.go on Go maps proper, which hold a value under a key and have no order.
use mathlib.Core.Quot
use mathlib.Core.Quot.{Quot, Quot-set}
use native.Mathlib.Nat.{ℕ_set}
use presto_on_k8s_operator.Api.{PrestoCluster, new_presto_cluster}
use presto_on_k8s_operator.Api.DeepCopy.{HasMaps}
use presto_on_k8s_operator.Desired.ConfigMaps.{presto_config_data, catalog_config_data}
use presto_on_k8s_operator.Desired.Deployments.{
  get_desired_coordinator_deployment, get_desired_worker_deployment,
}
use presto_on_k8s_operator.Desired.PreStop.{pre_stop_script}
use presto_on_k8s_operator.Desired.Reordered.{
  ClusterMaps, with_maps, SameMap, SameMaps, get_desired_deployments-SameMaps, config_data-SameMaps,
}
use presto_on_k8s_operator.Kube.Apps.{Deployment}
use presto_on_k8s_operator.Kube.Machinery.{Machinery}
use presto_on_k8s_operator.Maps.{StringMap, entries}
use presto_on_k8s_operator.Maps.Assigned.{Agree}
use presto_on_k8s_operator.Maps.Laws.{NodupKeys, insert-NodupKeys, assign_all-NodupKeys}
use presto_on_k8s_operator.Maps.Unordered.{GoMap, UniqueMap, Agree-Perm}
use presto_on_k8s_operator.Prelude.{◌≡◌, refl, Option, none, some, []}
use presto_on_k8s_operator.Text.{codes}

-- The four maps of a cluster, each as a list of entries without a repeated key.
abbrev pub ListedMaps : Type 0
ListedMaps = (m : ClusterMaps) × HasMaps (with_maps new_presto_cluster m)

-- Two maps that are both nil, or hold the same.
abbrev pub SameContent : Option StringMap → Option StringMap → Type 0
SameContent none none = Unit
SameContent (some m) (some n) = Agree m n
SameContent _ _ = ⊥

pub record SameContents (m n : ListedMaps) : Type 0 where
  pub coordinator_etc : SameContent m.0.coordinator_etc n.0.coordinator_etc
  pub worker_etc : SameContent m.0.worker_etc n.0.worker_etc
  pub catalog : SameContent m.0.catalog n.0.catalog
  pub core_site : SameContent m.0.core_site n.0.core_site

-- The four maps without the order of their entries.
abbrev pub GoMaps : Type 0
GoMaps = Quot SameContents

-- The two deployments, and the contents of the two config maps.
abbrev pub DesiredParts : Type 0
DesiredParts = (Deployment × Deployment) × (GoMap × GoMap)

DesiredParts_set : IsSet DesiredParts
DesiredParts_set = hlevel (ℕ_set, Quot-set)

pub presto_config_data-NodupKeys : (c : PrestoCluster) → NodupKeys (presto_config_data c)
unfolding presto_config_data
presto_config_data-NodupKeys c = insert-NodupKeys (codes "pre-stop.sh") pre_stop_script _ (
    assign_all-NodupKeys (codes "worker.") (entries c.spec.worker_config.etc_config) _ (
      assign_all-NodupKeys (codes "coordinator.") (entries c.spec.coordinator_config.etc_config) []
        tt))

pub catalog_config_data-NodupKeys : (c : PrestoCluster) → NodupKeys (catalog_config_data c)
unfolding catalog_config_data
catalog_config_data-NodupKeys c =
    assign_all-NodupKeys [] (entries c.spec.coresite) _
      (assign_all-NodupKeys [] (entries c.spec.catalog_config) [] tt)

-- What the code makes of the maps, visited in the order in which they are listed.
abbrev pub desired_parts : Machinery → PrestoCluster → ClusterMaps → DesiredParts
desired_parts lib cluster m =
    let c = with_maps cluster m in
    (
      (get_desired_coordinator_deployment lib c, get_desired_worker_deployment lib c),
      (
        Quot.mk (presto_config_data c, presto_config_data-NodupKeys c),
        Quot.mk (catalog_config_data c, catalog_config_data-NodupKeys c),
      ),
    )

SameContent-SameMap :
    (m n : Option StringMap)
    → NodupKeys (entries m)
    → NodupKeys (entries n)
    → SameContent m n
    → SameMap m n
SameContent-SameMap none none h g same = tt
SameContent-SameMap none (some n) h g same = same
SameContent-SameMap (some m) none h g same = same
SameContent-SameMap (some m) (some n) h g same = Agree-Perm m n h g same

contents_eq : (m n : UniqueMap) → Agree m.0 n.0 → ◌≡◌ {A = GoMap} (Quot.mk m) (Quot.mk n)
contents_eq m n same = Quot.sound same

parts_eq :
    (d d' e e' : Deployment) (a a' b b' : GoMap)
    → d ≡ d'
    → e ≡ e'
    → a ≡ a'
    → b ≡ b'
    → ◌≡◌ {A = DesiredParts} ((d, e), (a, b)) ((d', e'), (a', b'))
parts_eq d d' e e' a a' b b' p q r s = cc (p, q, r, s)

desired_parts-SameContents :
    (lib : Machinery) (cluster : PrestoCluster) (m n : ListedMaps)
    → SameContents m n
    → desired_parts lib cluster m.0 ≡ desired_parts lib cluster n.0
desired_parts-SameContents lib cluster (m, h) (n, g) same =
    let listed : SameMaps m n = record {
      coordinator_etc =
          SameContent-SameMap _ _ h.coordinator_etc g.coordinator_etc same.coordinator_etc;
      worker_etc = SameContent-SameMap _ _ h.worker_etc g.worker_etc same.worker_etc;
      catalog = SameContent-SameMap _ _ h.catalog g.catalog same.catalog;
      core_site = SameContent-SameMap _ _ h.core_site g.core_site same.core_site;
    } in
    let (coordinator, worker) = get_desired_deployments-SameMaps lib cluster m n listed in
    let (presto, catalog) = config_data-SameMaps cluster m n listed (record {
      coordinator_etc = h.coordinator_etc;
      worker_etc = h.worker_etc;
      catalog = h.catalog;
      core_site = h.core_site;
    }) in
    let c = with_maps cluster m in
    let d = with_maps cluster n in
    parts_eq _ _ _ _ _ _ _ _ coordinator worker
      (contents_eq (presto_config_data c, presto_config_data-NodupKeys c)
        (presto_config_data d, presto_config_data-NodupKeys d) presto)
      (contents_eq (catalog_config_data c, catalog_config_data-NodupKeys c)
        (catalog_config_data d, catalog_config_data-NodupKeys d) catalog)

-- The two deployments and the contents of the two config maps are functions of the maps of the
-- cluster as Go has them: there is one function on maps without order which the code computes,
-- whatever the order in which it visits their entries.
pub desired_parts-GoMaps :
    (lib : Machinery) (cluster : PrestoCluster)
    → (f : GoMaps → DesiredParts) × ((m : ListedMaps)
        → f (Quot.mk m) ≡ desired_parts lib cluster m.0)
desired_parts-GoMaps lib cluster = (
  Quot.lift DesiredParts_set (λ m. desired_parts lib cluster m.0)
      (desired_parts-SameContents lib cluster),
  λ m. refl,
)
