-- ===== src/Kube/Meta.antt =====
-- The metadata of Kubernetes objects, with the fields that the operator reads or writes.
use presto_on_k8s_operator.Maps.{StringMap}
use presto_on_k8s_operator.Prelude.{Bool, List, [], Option, none}
use presto_on_k8s_operator.Prelude.Int.{ℤ}
use presto_on_k8s_operator.Text.{Text}

pub record TypeMeta : Type 0 where
  pub api_version : Text
  pub kind : Text

pub record GroupVersionKind : Type 0 where
  pub group : Text
  pub version : Text
  pub kind : Text

pub record OwnerReference : Type 0 where
  pub api_version : Text
  pub kind : Text
  pub name : Text
  pub uid : Text
  pub controller : Option Bool
  pub block_owner_deletion : Option Bool

pub record ObjectMeta : Type 0 where
  pub name : Text
  pub namespace : Text
  pub uid : Text
  pub owner_references : List OwnerReference
  pub labels : Option StringMap

pub record NamespacedName : Type 0 where
  pub namespace : Text
  pub name : Text

-- The key of an object.
abbrev pub key_of : ObjectMeta → NamespacedName
key_of m = record { namespace = m.namespace; name = m.name }

-- The zero value of Go.
abbrev pub new_object_meta : ObjectMeta
new_object_meta = record {
  name = [];
  namespace = [];
  uid = [];
  owner_references = [];
  labels = none;
}

-- `corev1.ResourceRequirements`, each quantity by its text: the operator only copies it.
pub record ResourceRequirements : Type 0 where
  pub limits : Option StringMap
  pub requests : Option StringMap

-- `metav1.ListMeta`
pub record ListMeta : Type 0 where
  pub resource_version : Text
  pub continue_token : Text
  pub remaining_item_count : Option ℤ
