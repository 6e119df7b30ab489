-- ===== src/Kube/Client/Local.antt =====
-- A client whose calls each concern one object: what a call answers depends on what the server holds
-- under the object's own kind and key, and no other object is changed. Calls may fail.
use presto_on_k8s_operator.Api.{PrestoCluster}
use presto_on_k8s_operator.Kube.Client.{Client, Kind, Object, key}
use presto_on_k8s_operator.Kube.Client.Quiet.{Differ}
use presto_on_k8s_operator.Kube.Meta.{NamespacedName}
use presto_on_k8s_operator.Prelude.{◌≡◌, Option, none}
use presto_on_k8s_operator.Text.{Text}

-- What a state holds under a kind and a key.
abbrev pub View : Client → Type 0
View client = client.State → (k : Kind) → NamespacedName → Option (Object k)

-- A call that answers and writes by the object alone that it names.
pub record Concerns (client : Client) (view : View client) {A : Type 0} (k : Kind)
    (n : NamespacedName) (f : client.State → A × client.State) : Type 0 where
  pub same_answer : (s t : client.State) → view s k n ≡ view t k n → (f s).0 ≡ (f t).0
  pub same_object :
      (s t : client.State) → view s k n ≡ view t k n → view (f s).1 k n ≡ view (f t).1 k n
  pub others_kept :
      (s : client.State) (j : Kind) (m : NamespacedName)
      → Differ k n j m
      → view (f s).1 j m ≡ view s j m

pub record IsLocal (client : Client) (view : View client) : Type 0 where
  pub get_local :
      (k : Kind) (n : NamespacedName) (z : Object k) → Concerns client view k n (client.get k n z)
  pub create_local :
      (k : Kind) (o : Object k) → Concerns client view k (key k o) (client.create k o)
  pub update_local :
      (k : Kind) (o : Object k) → Concerns client view k (key k o) (client.update k o)
  pub update_status_local :
      (c : PrestoCluster)
      → Concerns client view Kind.presto_cluster
          (key Kind.presto_cluster c)
          (client.update_status c)
  -- Events are kept apart from the objects.
  pub event_apart :
      (c : PrestoCluster) (t r m : Text) (s : client.State) (j : Kind) (n : NamespacedName)
      → view (client.event c t r m s) j n ≡ view s j n
  -- A cluster that is read stands under the key that was asked for.
  pub get_key :
      (n : NamespacedName) (z : PrestoCluster) (s : client.State)
      → (client.get Kind.presto_cluster n z s).0.0 ≡ none
      → key Kind.presto_cluster (client.get Kind.presto_cluster n z s).0.1 ≡ n
