-- ===== src/Utils.antt =====
-- controllers/utils.go: the names of the child objects, properties as text, and the splitting of
-- dynamic arguments.
pub mod Names
pub mod Splitting
pub mod Properties
pub mod Readable
use presto_on_k8s_operator.Kube.Machinery.{Machinery}
use presto_on_k8s_operator.Maps.{StringMap, keys, lookup}
use presto_on_k8s_operator.Prelude.{true, List, [], ◌∷◌, ◌++◌, Option, none, some}
use presto_on_k8s_operator.Sorting.{sort_strings}
use presto_on_k8s_operator.Strings.{split, fields, write_lines}
use presto_on_k8s_operator.Text.{Text, codes}

unfoldable pub get_presto_config_map_name : Text → Text
get_presto_config_map_name cluster_name = cluster_name ++ codes "-presto-configmap"

unfoldable pub get_catalog_config_map_name : Text → Text
get_catalog_config_map_name cluster_name = cluster_name ++ codes "-catalog-configmap"

unfoldable pub get_coordinator_deployment_name : Text → Text
get_coordinator_deployment_name cluster_name = cluster_name ++ codes "-coordinator"

unfoldable pub get_coordinator_service_name : Text → Text
get_coordinator_service_name cluster_name = cluster_name

unfoldable pub get_worker_deployment_name : Text → Text
get_worker_deployment_name cluster_name = cluster_name ++ codes "-worker"

-- `properties[key]`, with Go's zero value for a missing key.
abbrev pub property : StringMap → Text → Text
property properties key = elim (lookup key properties) [ none ↦ [] | some value ↦ value ]

-- The loop over the sorted keys.
unfoldable pub write_properties : StringMap → List Text → Text
write_properties properties [] = []
write_properties properties (key ∷ rest) =
    (key ++ codes "=" ++ property properties key ++ codes "\n") ++ write_properties properties rest

unfoldable pub get_properties : StringMap → Text
get_properties properties = write_properties properties (sort_strings (keys properties))

unfoldable pub get_properties_fields : Text → Text
get_properties_fields properties = write_lines (fields properties)

unfoldable pub get_properties_strings : Text → Text
get_properties_strings properties = write_lines (split properties b'\n')

unfoldable pub get_pods_prefix : Machinery → Text → Text
get_pods_prefix lib controller_name =
    let prefix = controller_name ++ codes "-" in
    elim (lib.name_is_dns_subdomain prefix true) [ [] ↦ prefix | _ ∷ _ ↦ controller_name ]

-- The two parts, or empty texts and the error's message.
unfoldable pub two_parts : List Text → Text → Text × Text × Option Text
two_parts (key ∷ value ∷ []) message = (key, value, none)
two_parts _ message = ([], [], some message)

unfoldable pub split_dynamic_args : Text → Text × Text × Option Text
unfolding two_parts
split_dynamic_args args_key_values =
    two_parts (split args_key_values b'=') (codes "danamic args key values format error")

unfoldable pub split_dynamic_configs : Text → Text × Text × Option Text
unfolding two_parts
split_dynamic_configs args_key_values =
    two_parts (split args_key_values b':') (codes "danamic configs format error")

unfoldable pub split_dynamic_configs_args : Text → List Text
split_dynamic_configs_args args_key_values = split args_key_values b';'
