-- ===== src/Kube/Machinery.antt =====
-- The functions of the Kubernetes libraries that build and copy objects: parameters, with what
-- their documentation says.
use presto_on_k8s_operator.Kube.Meta.{
  GroupVersionKind, ListMeta, ObjectMeta, OwnerReference, ResourceRequirements,
}
use presto_on_k8s_operator.Prelude.{◌≡◌, ◌≢◌, Bool, true, List, [], ◌∷◌, ◌++◌, some}
use presto_on_k8s_operator.Text.{Text}

pub record Machinery : Type 0 where
  -- `metav1.NewControllerRef`
  pub new_controller_ref : ObjectMeta → GroupVersionKind → OwnerReference
  -- `DeepCopyInto` of `ObjectMeta`, `ResourceRequirements` and `ListMeta`: what is written to `out`
  pub object_meta_deep_copy : ObjectMeta → ObjectMeta
  pub resources_deep_copy : ResourceRequirements → ResourceRequirements
  pub list_meta_deep_copy : ListMeta → ListMeta
  -- `validation.NameIsDNSSubdomain`: the list of violations
  pub name_is_dns_subdomain : Text → Bool → List Text

-- A controller reference names its owner, with the group, version and kind of its type, and a deep copy has the value of its source.
pub record IsDocumented (m : Machinery) : Type 0 where
  pub ref_name : (o : ObjectMeta) (g : GroupVersionKind) → (m.new_controller_ref o g).name ≡ o.name
  pub ref_uid : (o : ObjectMeta) (g : GroupVersionKind) → (m.new_controller_ref o g).uid ≡ o.uid
  pub ref_kind : (o : ObjectMeta) (g : GroupVersionKind) → (m.new_controller_ref o g).kind ≡ g.kind
  -- `GroupVersion.String`, of a group that is not the core group
  pub ref_api_version :
      (o : ObjectMeta) (g : GroupVersionKind)
      → g.group ≢ []
      → (m.new_controller_ref o g).api_version ≡ g.group ++ b'/' ∷ g.version
  pub ref_controller :
      (o : ObjectMeta) (g : GroupVersionKind) → (m.new_controller_ref o g).controller ≡ some true
  pub meta_copied : (o : ObjectMeta) → m.object_meta_deep_copy o ≡ o
  pub resources_copied : (r : ResourceRequirements) → m.resources_deep_copy r ≡ r
  pub list_meta_copied : (l : ListMeta) → m.list_meta_deep_copy l ≡ l
