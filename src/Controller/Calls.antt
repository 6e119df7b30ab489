-- ===== src/Controller/Calls.antt =====
-- controllers/controller.go: the RBAC markers above `Reconcile`, from which the operator's role is
-- generated, and the calls that need their permission.
pub mod Emits
pub mod Parts
pub mod Permitted
pub mod Request
use presto_on_k8s_operator.Kube.Client.{Client, Kind, Object}
use presto_on_k8s_operator.Prelude.{Bool, true, false, ◌&&◌, ◌||◌, List, [], ◌∷◌}
use presto_on_k8s_operator.Text.{Text, codes, ◌==◌}

-- `+kubebuilder:rbac:groups=…,resources=…,verbs=…`
pub record RbacMarker : Type 0 where
  pub groups : Text
  pub resources : Text
  pub verbs : List Text

abbrev all_verbs : List Text
all_verbs =
    codes "get"
    ∷ codes "list"
    ∷ codes "watch"
    ∷ codes "create"
    ∷ codes "update"
    ∷ codes "patch"
    ∷ codes "delete"
    ∷ []

abbrev marker : Text → Text → List Text → RbacMarker
marker groups resources verbs = record { groups = groups; resources = resources; verbs = verbs }

abbrev get_only : List Text
get_only = codes "get" ∷ []

unfoldable pub rbac_markers : List RbacMarker
rbac_markers =
    marker (codes "prestooperator.k8s.io") (codes "prestoclusters") all_verbs
    ∷ marker (codes "prestooperator.k8s.io") (codes "prestoclusters/status")
        (codes "get" ∷ codes "update" ∷ codes "patch" ∷ [])
    ∷ marker (codes "apps") (codes "deployments") all_verbs
    ∷ marker (codes "apps") (codes "deployments/status") get_only
    ∷ marker (codes "core") (codes "pods") (codes "get" ∷ codes "list" ∷ codes "watch" ∷ [])
    ∷ marker (codes "core") (codes "pods/status") get_only
    ∷ marker (codes "core") (codes "services") all_verbs
    ∷ marker (codes "core") (codes "services/status") get_only
    ∷ marker (codes "core") (codes "events") all_verbs
    ∷ marker (codes "core") (codes "events/status") get_only
    ∷ marker (codes "core") (codes "configmaps") all_verbs
    ∷ marker (codes "extensions") (codes "ingresses") all_verbs
    ∷ marker (codes "extensions") (codes "ingresses/status") get_only
    ∷ []

-- A call of the API server, or of the event recorder.
pub data Call : Type 0 where
  getting : Kind → Call
  creating : Kind → Call
  updating : Kind → Call
  deleting : Kind → Call
  updating_status : Call
  recording_event : Call

abbrev pub group_of : Kind → Text
group_of Kind.presto_cluster = codes "prestooperator.k8s.io"
group_of Kind.config_map = codes "core"
group_of Kind.deployment = codes "apps"
group_of Kind.service = codes "core"
group_of Kind.ingress = codes "extensions"

abbrev pub resource_of : Kind → Text
resource_of Kind.presto_cluster = codes "prestoclusters"
resource_of Kind.config_map = codes "configmaps"
resource_of Kind.deployment = codes "deployments"
resource_of Kind.service = codes "services"
resource_of Kind.ingress = codes "ingresses"

unfoldable pub has_text : Text → List Text → Bool
has_text t [] = false
has_text t (u ∷ us) = let rest = has_text t us in (t == u) || rest

-- Some marker gives the verb on the resource.
unfoldable pub gives : List RbacMarker → Text → Text → Text → Bool
gives [] group resource verb = false
gives (m ∷ ms) group resource verb =
    let rest = gives ms group resource verb in
    (m.groups == group && m.resources == resource && has_text verb m.verbs) || rest

-- The recorder creates an event, and patches the one that is there when it recurs.
unfoldable pub is_permitted : Call → Bool
is_permitted (getting k) = gives rbac_markers (group_of k) (resource_of k) (codes "get")
is_permitted (creating k) = gives rbac_markers (group_of k) (resource_of k) (codes "create")
is_permitted (updating k) = gives rbac_markers (group_of k) (resource_of k) (codes "update")
is_permitted (deleting k) = gives rbac_markers (group_of k) (resource_of k) (codes "delete")
is_permitted updating_status =
    gives rbac_markers (codes "prestooperator.k8s.io") (codes "prestoclusters/status")
      (codes "update")
is_permitted recording_event =
    gives rbac_markers (codes "core") (codes "events") (codes "create")
    && gives rbac_markers (codes "core") (codes "events") (codes "patch")

-- The client that notes each call, the last one first.
abbrev pub tracing : Client → Client
tracing client = record {
  State = client.State × List Call;
  Error = client.Error;
  ignore_not_found = client.ignore_not_found;
  get = λ k n z (s, log). let (r, t) = client.get k n z s in (r, (t, getting k ∷ log));
  create = λ k o (s, log). let (r, t) = client.create k o s in (r, (t, creating k ∷ log));
  update = λ k o (s, log). let (r, t) = client.update k o s in (r, (t, updating k ∷ log));
  delete = λ k o (s, log). let (r, t) = client.delete k o s in (r, (t, deleting k ∷ log));
  update_status =
      λ c (s, log). let (r, t) = client.update_status c s in (r, (t, updating_status ∷ log));
  event = λ c t r m (s, log). (client.event c t r m s, recording_event ∷ log);
}
