-- ===== src/Desired/Contents.antt =====
-- What the config maps hold, key by key.
use presto_on_k8s_operator.Api.{PrestoCluster}
use presto_on_k8s_operator.Api.DeepCopy.{HasMaps}
use presto_on_k8s_operator.Desired.ConfigMaps.{presto_config_data, catalog_config_data}
use presto_on_k8s_operator.Desired.PreStop.{pre_stop_script}
use presto_on_k8s_operator.Maps.{entries, lookup}
use presto_on_k8s_operator.Maps.Laws.{
  lookup-assign_all, lookup-assign_all_ne, lookup-insert_ne, lookup-insert_self,
  lookup-assign_all_fresh,
}
use presto_on_k8s_operator.Prelude.{◌≢◌, none, ◌≡◌, refl, ◌∙◌, ap, some, [], ◌++◌, arith, or_else}
use presto_on_k8s_operator.Text.{Text, codes, ne_of_first}

-- If no map lists a key twice, the config map `config` holds the coordinator's files under `coordinator.`, the workers' files
-- under `worker.`, and the script that runs before a stop.
pub lookup-presto_config_data :
    (c : PrestoCluster) (k : Text)
    → HasMaps c
    → (lookup (codes "coordinator." ++ k) (presto_config_data c)
        ≡ lookup k (entries c.spec.coordinator_config.etc_config))
      × (lookup (codes "worker." ++ k) (presto_config_data c)
          ≡ lookup k (entries c.spec.worker_config.etc_config))
      × (lookup (codes "pre-stop.sh") (presto_config_data c) ≡ some pre_stop_script)
unfolding presto_config_data lookup
lookup-presto_config_data c k maps = (
  lookup-insert_ne (codes "pre-stop.sh") _ _ _ (ne_of_first _ _ _ _ (omega arith))
      ∙ lookup-assign_all_ne (codes "worker.") _ _ _ (λ j. ne_of_first _ _ _ _ (omega arith))
      ∙ lookup-assign_all_fresh (codes "coordinator.") k _ [] maps.coordinator_etc refl,
  lookup-insert_ne (codes "pre-stop.sh") _ _ _ (ne_of_first _ _ _ _ (omega arith))
      ∙ lookup-assign_all_fresh (codes "worker.") k _ _ maps.worker_etc (
          lookup-assign_all_ne (codes "coordinator.") _ _ []
            (λ j. ne_of_first _ _ _ _ (omega arith))),
  lookup-insert_self (codes "pre-stop.sh") pre_stop_script _,
)

-- A key that is neither of the coordinator's, nor of the workers', nor the script, is not held.
pub lookup-presto_config_data_other :
    (c : PrestoCluster) (j : Text)
    → ((k : Text) → codes "coordinator." ++ k ≢ j)
    → ((k : Text) → codes "worker." ++ k ≢ j)
    → codes "pre-stop.sh" ≢ j
    → lookup j (presto_config_data c) ≡ none
unfolding presto_config_data lookup
lookup-presto_config_data_other c j coordinator worker script =
    lookup-insert_ne (codes "pre-stop.sh") j pre_stop_script _ script
    ∙ lookup-assign_all_ne (codes "worker.") j _ _ worker
    ∙ lookup-assign_all_ne (codes "coordinator.") j _ [] coordinator

-- If no map lists a key twice, the config map `catalog` holds the files of both maps. Where both have a key, the core site's file
-- is kept.
pub lookup-catalog_config_data :
    (c : PrestoCluster) (k : Text)
    → HasMaps c
    → lookup k (catalog_config_data c)
      ≡ or_else (lookup k (entries c.spec.coresite)) (lookup k (entries c.spec.catalog_config))
unfolding catalog_config_data
lookup-catalog_config_data c k maps =
    lookup-assign_all [] k _ _ maps.core_site
    ∙ ap (or_else (lookup k (entries c.spec.coresite)))
        (lookup-assign_all_fresh [] k _ [] maps.catalog (unfold lookup in refl))
