-- ===== src/Tests/Memory.antt =====
-- An API server in memory: the last object written under a key is the one that is kept.
pub mod Laws
pub mod Deletions
pub mod Local
use presto_on_k8s_operator.Api.{PrestoCluster}
use presto_on_k8s_operator.Kube.Apps.{ConfigMap, Deployment, Ingress, Service}
use presto_on_k8s_operator.Kube.Client.{Client, Kind, Object, key, meta_of}
use presto_on_k8s_operator.Kube.Client.Quiet.{IsQuiet, Differ}
use presto_on_k8s_operator.Kube.Meta.{NamespacedName, ObjectMeta, key_of}
use presto_on_k8s_operator.Prelude.{
  ◌≡◌, refl, ◌≢◌, ◌↔◌, inl, inr, Bool, true, false, ◌&&◌, List, [], ◌∷◌, Option, none, some, arith,
  subst, ap, if◌then◌else◌, Option-cases, Bool-cases,
}
use presto_on_k8s_operator.Prelude.Int.{ℤ, pos}
use presto_on_k8s_operator.Text.{Text, ◌==◌, ==_iff}

pub data ApiError : Type 0 where
  missing already_exists unavailable : ApiError

pub record Server : Type 0 where
  pub clusters : List PrestoCluster
  pub config_maps : List ConfigMap
  pub deployments : List Deployment
  pub services : List Service
  pub ingresses : List Ingress
  pub events : List Text

unfoldable pub same_key : NamespacedName → NamespacedName → Bool
same_key a b = (a.namespace == b.namespace) && (a.name == b.name)

module _ (k : Kind) where
  unfoldable pub find : NamespacedName → List (Object k) → Option (Object k)
  find n [] = none
  find n (o ∷ os) = if same_key (key k o) n then some o else find n os

  unfoldable pub remove : NamespacedName → List (Object k) → List (Object k)
  remove n [] = []
  remove n (o ∷ os) = if same_key (key k o) n then remove n os else o ∷ remove n os

abbrev pub objects : Server → (k : Kind) → List (Object k)
objects s Kind.presto_cluster = s.clusters
objects s Kind.config_map = s.config_maps
objects s Kind.deployment = s.deployments
objects s Kind.service = s.services
objects s Kind.ingress = s.ingresses

abbrev pub with_objects : (k : Kind) → List (Object k) → Server → Server
with_objects Kind.presto_cluster os s = record s { clusters = os }
with_objects Kind.config_map os s = record s { config_maps = os }
with_objects Kind.deployment os s = record s { deployments = os }
with_objects Kind.service os s = record s { services = os }
with_objects Kind.ingress os s = record s { ingresses = os }

-- A deployment that names no count of replicas is given one.
abbrev pub default_replicas : Option ℤ → Option ℤ
default_replicas none = some (pos 1)
default_replicas (some r) = some r

abbrev pub defaulted : (k : Kind) → Object k → Object k
defaulted Kind.presto_cluster o = o
defaulted Kind.config_map o = o
defaulted Kind.deployment o = record o {
  spec = record o.spec { replicas = default_replicas o.spec.replicas };
}
defaulted Kind.service o = o
defaulted Kind.ingress o = o

-- A new deployment has no replicas yet.
abbrev pub created : (k : Kind) → Object k → Object k
created Kind.presto_cluster o = o
created Kind.config_map o = o
created Kind.deployment o = record (defaulted Kind.deployment o) {
  status = record { available_replicas = pos 0 };
}
created Kind.service o = o
created Kind.ingress o = o

-- An update leaves the status alone.
abbrev pub updated : (k : Kind) → Object k → Object k → Object k
updated Kind.presto_cluster old o = record o { status = old.status }
updated Kind.config_map old o = o
updated Kind.deployment old o = record (defaulted Kind.deployment o) { status = old.status }
updated Kind.service old o = o
updated Kind.ingress old o = o

abbrev pub shown : (k : Kind) → Option (Object k) → Option (Object k)
shown k none = none
shown k (some o) = some (defaulted k o)

unfoldable pub view : Server → (k : Kind) → NamespacedName → Option (Object k)
unfolding find
view s k n = shown k (find k n (objects s k))

abbrev pub put : (k : Kind) → Object k → Server → Server
put k o s = with_objects k (o ∷ objects s k) s

abbrev pub answer_get :
    (k : Kind) → Option (Object k) → Object k → Server → (Option ApiError × Object k) × Server
answer_get k none z s = ((some missing, z), s)
answer_get k (some o) z s = ((none, o), s)

abbrev pub answer_create :
    (k : Kind) → Option (Object k) → Object k → Server → Option ApiError × Server
answer_create k none o s = (none, put k (created k o) s)
answer_create k (some old) o s = (some already_exists, s)

abbrev pub answer_update :
    (k : Kind) → Option (Object k) → Object k → Server → Option ApiError × Server
answer_update k none o s = (some missing, s)
answer_update k (some old) o s = (none, put k (updated k old o) s)

abbrev pub answer_delete :
    (k : Kind) → Option (Object k) → Object k → Server → Option ApiError × Server
answer_delete k none o s = (some missing, s)
answer_delete k (some old) o s = (none, with_objects k (remove k (key k o) (objects s k)) s)

abbrev pub answer_status : Option PrestoCluster → PrestoCluster → Server → Option ApiError × Server
answer_status none c s = (some missing, s)
answer_status (some old) c s = (none, put Kind.presto_cluster (record old { status = c.status }) s)

abbrev pub drop_missing : Option ApiError → Option ApiError
drop_missing none = none
drop_missing (some missing) = none
drop_missing (some e) = some e

abbrev pub memory : Client
memory = record {
  State = Server;
  Error = ApiError;
  ignore_not_found = drop_missing;
  get = λ k n z s. answer_get k (view s k n) z s;
  create = λ k o s. answer_create k (view s k (key k o)) o s;
  update = λ k o s. answer_update k (view s k (key k o)) o s;
  delete = λ k o s. answer_delete k (view s k (key k o)) o s;
  update_status = λ c s. answer_status (view s Kind.presto_cluster (key_of c.metadata)) c s;
  event = λ c t r m s. record s { events = m ∷ s.events };
}
