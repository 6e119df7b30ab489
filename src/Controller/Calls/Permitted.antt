-- ===== src/Controller/Calls/Permitted.antt =====
-- The markers above `Reconcile` allow each of the operator's calls.
use presto_on_k8s_operator.Controller.Calls.{
  getting, creating, updating, deleting, updating_status, recording_event, is_permitted,
  rbac_markers, gives, has_text,
}
use presto_on_k8s_operator.Kube.Client.{Kind}
use presto_on_k8s_operator.Prelude.{◌≡◌, refl, true}
use presto_on_k8s_operator.Text.{◌==◌ as text_eq}

pub getting-permitted : (k : Kind) → is_permitted (getting k) ≡ true
unfolding is_permitted rbac_markers gives has_text text_eq
getting-permitted Kind.presto_cluster = refl
getting-permitted Kind.config_map = refl
getting-permitted Kind.deployment = refl
getting-permitted Kind.service = refl
getting-permitted Kind.ingress = refl

pub creating-permitted : (k : Kind) → is_permitted (creating k) ≡ true
unfolding is_permitted rbac_markers gives has_text text_eq
creating-permitted Kind.presto_cluster = refl
creating-permitted Kind.config_map = refl
creating-permitted Kind.deployment = refl
creating-permitted Kind.service = refl
creating-permitted Kind.ingress = refl

pub updating-permitted : (k : Kind) → is_permitted (updating k) ≡ true
unfolding is_permitted rbac_markers gives has_text text_eq
updating-permitted Kind.presto_cluster = refl
updating-permitted Kind.config_map = refl
updating-permitted Kind.deployment = refl
updating-permitted Kind.service = refl
updating-permitted Kind.ingress = refl

pub deleting-permitted : (k : Kind) → is_permitted (deleting k) ≡ true
unfolding is_permitted rbac_markers gives has_text text_eq
deleting-permitted Kind.presto_cluster = refl
deleting-permitted Kind.config_map = refl
deleting-permitted Kind.deployment = refl
deleting-permitted Kind.service = refl
deleting-permitted Kind.ingress = refl

pub updating_status-permitted : is_permitted updating_status ≡ true
unfolding is_permitted rbac_markers gives has_text text_eq
updating_status-permitted = refl

pub recording_event-permitted : is_permitted recording_event ≡ true
unfolding is_permitted rbac_markers gives has_text text_eq
recording_event-permitted = refl
