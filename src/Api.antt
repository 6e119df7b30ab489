-- ===== src/Api.antt =====
-- api/v1alpha1/prestocluster_types.go: the custom resource, and the group and version of
-- api/v1alpha1/groupversion_info.go.
use presto_on_k8s_operator.Kube.Meta.{
  GroupVersionKind, ListMeta, ObjectMeta, ResourceRequirements, TypeMeta, new_object_meta,
}
use presto_on_k8s_operator.Maps.{StringMap}
use presto_on_k8s_operator.Prelude.{List, [], Option, none}
use presto_on_k8s_operator.Prelude.Int.{ℤ, pos}
use presto_on_k8s_operator.Text.{Text, codes}
pub mod DeepCopy
pub mod Cells
pub mod Heap

pub record CoordinatorConfig : Type 0 where
  pub resources : ResourceRequirements
  pub etc_config : Option StringMap

pub record WorkerConfig : Type 0 where
  pub resources : ResourceRequirements
  pub etc_config : Option StringMap

-- `workers` is a pointer to an int32.
pub record PrestoClusterSpec : Type 0 where
  pub name : Text
  pub image : Text
  pub workers : Option ℤ
  pub coordinator_config : CoordinatorConfig
  pub worker_config : WorkerConfig
  pub catalog_config : Option StringMap
  pub coresite : Option StringMap

pub record PrestoClusterStatus : Type 0 where
  pub available_workers : ℤ

pub record PrestoCluster : Type 0 where
  pub type_meta : TypeMeta
  pub metadata : ObjectMeta
  pub spec : PrestoClusterSpec
  pub status : PrestoClusterStatus

pub record PrestoClusterList : Type 0 where
  pub type_meta : TypeMeta
  pub list_meta : ListMeta
  pub items : Option (List PrestoCluster)

-- `GroupVersion`, with the kind that the operator's own references name.
abbrev pub presto_cluster_kind : GroupVersionKind
presto_cluster_kind = record {
  group = codes "prestooperator.k8s.io";
  version = codes "v1alpha1";
  kind = codes "PrestoCluster";
}

-- `new(prestooperatorv1alpha1.PrestoCluster)`
abbrev pub new_presto_cluster : PrestoCluster
new_presto_cluster = record {
  type_meta = record { api_version = []; kind = [] };
  metadata = new_object_meta;
  spec = record {
    name = [];
    image = [];
    workers = none;
    coordinator_config = record {
      resources = record { limits = none; requests = none };
      etc_config = none;
    };
    worker_config = record {
      resources = record { limits = none; requests = none };
      etc_config = none;
    };
    catalog_config = none;
    coresite = none;
  };
  status = record { available_workers = pos 0 };
}
