-- ===== src/Desired/MountedFiles.antt =====
-- Each file that a desired pod mounts is in the desired config map that backs its volume.
use presto_on_k8s_operator.Api.{PrestoCluster}
use presto_on_k8s_operator.Api.DeepCopy.{HasMaps, presto_cluster_deep_copy_lem}
use presto_on_k8s_operator.Desired.ConfigMaps.{
  new_configmap, presto_config_data, catalog_config_data, get_desired_presto_config_map,
  get_desired_catalog_config_map,
}
use presto_on_k8s_operator.Desired.Deployments.{
  config_volumes, get_desired_coordinator_deployment, get_desired_worker_deployment,
}
use presto_on_k8s_operator.Desired.MountsHeld.{IsHeld, volume_mounts-IsHeld}
use presto_on_k8s_operator.Kube.Apps.{
  ConfigMap, ConfigMapVolumeSource, Deployment, Volume, VolumeMount,
}
use presto_on_k8s_operator.Kube.Machinery.{Machinery, IsDocumented}
use presto_on_k8s_operator.Maps.{entries, lookup}
use presto_on_k8s_operator.Prelude.{
  ◌≡◌, refl, sym, ◌∙◌, ap, ◌≢◌, ◌⊎◌, inl, inr, Option, none, some, List, [], ◌∷◌, All,
  if◌then◌else◌,
}
use presto_on_k8s_operator.Text.{Text, codes, ◌==◌}
use presto_on_k8s_operator.Utils.{get_presto_config_map_name, get_catalog_config_map_name}

-- The volume of a pod that a mount names.
unfoldable pub volume_named : Text → List Volume → Option Volume
volume_named name [] = none
volume_named name (v ∷ vs) =
    let rest = volume_named name vs in if v.name == name then some v else rest

-- A mount has a file, if the operator keeps one of the two given config maps: the pod has the
-- mount's volume, its source names that config map in the deployment's namespace, and the sub path
-- is one of its keys.
pub record HasFile (presto catalog : ConfigMap) (d : Deployment) (m : VolumeMount) : Type 0 where
  pub volume : Volume
  pub named : volume_named m.name d.spec.template.spec.volumes ≡ some volume
  pub source : ConfigMapVolumeSource
  pub backed : volume.config_map ≡ some source
  pub config_map : ConfigMap
  pub desired : (config_map ≡ presto) ⊎ (config_map ≡ catalog)
  pub same_name : config_map.metadata.name ≡ source.name
  pub same_namespace : config_map.metadata.namespace ≡ d.metadata.namespace
  pub held : lookup m.sub_path (entries config_map.contents) ≢ none

-- All mounts of all containers of a deployment have files, in the two config maps desired for a
-- cluster.
abbrev pub HasFiles : Machinery → PrestoCluster → Deployment → Type 0
HasFiles lib c d =
    All
      (λ container.
        All (HasFile (get_desired_presto_config_map lib c) (get_desired_catalog_config_map lib c) d)
          container.volume_mounts)
      d.spec.template.spec.containers

All-imp :
    {A : Type 0} (P Q : A → Type 0) (xs : List A) → ((x : A) → P x → Q x) → All P xs → All Q xs
All-imp P Q [] f h = tt
All-imp P Q (x ∷ xs) f h = (f x h.0, All-imp P Q xs f h.1)

module _ (lib : Machinery) (c : PrestoCluster) (doc : IsDocumented lib) (maps : HasMaps c) where
  presto_config_map-eq :
      new_configmap c (get_presto_config_map_name c.metadata.name) (presto_config_data c)
      ≡ get_desired_presto_config_map lib c
  unfolding get_desired_presto_config_map
  presto_config_map-eq =
      ap (λ x. new_configmap x (get_presto_config_map_name x.metadata.name) (presto_config_data x))
        (sym (presto_cluster_deep_copy_lem lib c doc maps))

  catalog_config_map-eq :
      new_configmap c (get_catalog_config_map_name c.metadata.name) (catalog_config_data c)
      ≡ get_desired_catalog_config_map lib c
  unfolding get_desired_catalog_config_map
  catalog_config_map-eq =
      ap
        (λ x. new_configmap x (get_catalog_config_map_name x.metadata.name) (catalog_config_data x))
        (sym (presto_cluster_deep_copy_lem lib c doc maps))

  -- A mount whose sub path is a key of the data of its volume has that file.
  IsHeld-HasFile :
      (d : Deployment) (m : VolumeMount)
      → d.metadata.namespace ≡ c.metadata.namespace
      → d.spec.template.spec.volumes ≡ config_volumes c
      → IsHeld c m
      → HasFile (get_desired_presto_config_map lib c) (get_desired_catalog_config_map lib c) d m
  unfolding volume_named config_volumes new_configmap ◌==◌
  IsHeld-HasFile d m here volumes (inl (name, key)) = record {
    volume = record {
      name = codes "config";
      config_map = some (record { name = get_presto_config_map_name c.metadata.name });
    };
    named = ap (volume_named m.name) volumes ∙ ap (λ n. volume_named n (config_volumes c)) name;
    source = record { name = get_presto_config_map_name c.metadata.name };
    backed = refl;
    config_map =
        new_configmap c (get_presto_config_map_name c.metadata.name) (presto_config_data c);
    desired = inl presto_config_map-eq;
    same_name = refl;
    same_namespace = sym here;
    held = key;
  }
  IsHeld-HasFile d m here volumes (inr (name, key)) = record {
    volume = record {
      name = codes "catalog";
      config_map = some (record { name = get_catalog_config_map_name c.metadata.name });
    };
    named = ap (volume_named m.name) volumes ∙ ap (λ n. volume_named n (config_volumes c)) name;
    source = record { name = get_catalog_config_map_name c.metadata.name };
    backed = refl;
    config_map =
        new_configmap c (get_catalog_config_map_name c.metadata.name) (catalog_config_data c);
    desired = inr catalog_config_map-eq;
    same_name = refl;
    same_namespace = sym here;
    held = key;
  }

-- Given documented libraries and maps that list no key twice, every mount of every container of the
-- two desired deployments has its file: the pod has a volume of the mount's name, the volume's
-- source names one of the two desired config maps, which stands in the deployment's namespace, and
-- the mount's sub path is a key of that config map.
pub desired_deployments-HasFiles :
    (lib : Machinery) (c : PrestoCluster)
    → IsDocumented lib
    → HasMaps c
    → HasFiles lib c (get_desired_coordinator_deployment lib c)
      × HasFiles lib c (get_desired_worker_deployment lib c)
unfolding get_desired_coordinator_deployment get_desired_worker_deployment
desired_deployments-HasFiles lib c doc maps =
    let mounts = volume_mounts-IsHeld c in
    let coordinator = get_desired_coordinator_deployment lib c in
    let worker = get_desired_worker_deployment lib c in
    (
      (All-imp _ _ _ (λ m. IsHeld-HasFile lib c doc maps coordinator m refl refl) mounts.0, tt),
      (All-imp _ _ _ (λ m. IsHeld-HasFile lib c doc maps worker m refl refl) mounts.1, tt),
    )
