-- ===== src/Kube/Client.antt =====
-- The client of the API server and the event recorder: parameters of the operator. Between two calls
-- the state may change by the hand of others, which a client's operations may include.
use presto_on_k8s_operator.Api.{PrestoCluster}
use presto_on_k8s_operator.Kube.Apps.{ConfigMap, Deployment, Ingress, Service}
use presto_on_k8s_operator.Kube.Meta.{NamespacedName, ObjectMeta, key_of}
use presto_on_k8s_operator.Prelude.{Option}
use presto_on_k8s_operator.Text.{Text}
pub mod Quiet
pub mod Local

-- The types of object that the operator gets, creates, updates or deletes.
pub data Kind : Type 0 where
  presto_cluster config_map deployment service ingress : Kind

abbrev pub Object : Kind → Type 0
Object Kind.presto_cluster = PrestoCluster
Object Kind.config_map = ConfigMap
Object Kind.deployment = Deployment
Object Kind.service = Service
Object Kind.ingress = Ingress

abbrev pub meta_of : (k : Kind) → Object k → ObjectMeta
meta_of Kind.presto_cluster o = o.metadata
meta_of Kind.config_map o = o.metadata
meta_of Kind.deployment o = o.metadata
meta_of Kind.service o = o.metadata
meta_of Kind.ingress o = o.metadata

abbrev pub key : (k : Kind) → Object k → NamespacedName
key k o = key_of (meta_of k o)

-- `get` is given what its pointer argument points to, and returns what it points to afterwards.
pub record Client : Type 1 where
  pub State : Type 0
  pub Error : Type 0
  -- `client.IgnoreNotFound`
  pub ignore_not_found : Option Error → Option Error
  pub get : (k : Kind) → NamespacedName → Object k → State → (Option Error × Object k) × State
  pub create : (k : Kind) → Object k → State → Option Error × State
  pub update : (k : Kind) → Object k → State → Option Error × State
  pub delete : (k : Kind) → Object k → State → Option Error × State
  -- `client.Status().Update`
  pub update_status : PrestoCluster → State → Option Error × State
  -- `recorder.Event`: the object, the type of the event, its reason and its message
  pub event : PrestoCluster → Text → Text → Text → State → State
