-- ===== src/Kube/Client/Quiet.antt =====
-- A client whose calls succeed while nobody else writes: what the documentation of the API server
-- says of such calls, over the objects that a state holds.
use presto_on_k8s_operator.Api.{PrestoCluster}
use presto_on_k8s_operator.Kube.Apps.{Deployment}
use presto_on_k8s_operator.Kube.Client.{Client, Kind, Object, key}
use presto_on_k8s_operator.Kube.Meta.{NamespacedName}
use presto_on_k8s_operator.Prelude.{◌≡◌, ◌≢◌, ◌⊎◌, Option, none, some}
use presto_on_k8s_operator.Prelude.Int.{ℤ}
use presto_on_k8s_operator.Text.{Text}

-- Two references that differ in their kind or in their key.
abbrev pub Differ : Kind → NamespacedName → Kind → NamespacedName → Type 0
Differ j m k n = (j ≢ k) ⊎ (m ≢ n)

pub record IsQuiet (client : Client) : Type 0 where
  pub view : client.State → (k : Kind) → NamespacedName → Option (Object k)
  pub not_found : client.Error
  pub ignore_nil : client.ignore_not_found none ≡ none
  pub ignore_missing : client.ignore_not_found (some not_found) ≡ none
  -- An object is kept under its own key.
  pub view_key :
      (s : client.State) (k : Kind) (n : NamespacedName) (o : Object k)
      → view s k n ≡ some o
      → key k o ≡ n
  -- Reading changes nothing. A read that fails leaves the pointer's target alone.
  pub get_found :
      (k : Kind) (n : NamespacedName) (z o : Object k) (s : client.State)
      → view s k n ≡ some o
      → client.get k n z s ≡ ((none, o), s)
  pub get_missing :
      (k : Kind) (n : NamespacedName) (z : Object k) (s : client.State)
      → view s k n ≡ none
      → client.get k n z s ≡ ((some not_found, z), s)
  -- What the server keeps of a created object, with its defaults filled in.
  pub stored : (k : Kind) → Object k → Object k
  pub create_ok :
      (k : Kind) (o : Object k) (s : client.State)
      → view s k (key k o) ≡ none
      → (client.create k o s).0 ≡ none
  pub view_created :
      (k : Kind) (o : Object k) (s : client.State)
      → view s k (key k o) ≡ none
      → view (client.create k o s).1 k (key k o) ≡ some (stored k o)
  pub view_create_other :
      (k : Kind) (o : Object k) (s : client.State) (j : Kind) (n : NamespacedName)
      → Differ k (key k o) j n
      → view (client.create k o s).1 j n ≡ view s j n
  -- What the server keeps of an updated object.
  pub merged : (k : Kind) → Object k → Object k → Object k
  pub update_ok :
      (k : Kind) (o old : Object k) (s : client.State)
      → view s k (key k o) ≡ some old
      → (client.update k o s).0 ≡ none
  pub view_updated :
      (k : Kind) (o old : Object k) (s : client.State)
      → view s k (key k o) ≡ some old
      → view (client.update k o s).1 k (key k o) ≡ some (merged k old o)
  pub view_update_other :
      (k : Kind) (o : Object k) (s : client.State) (j : Kind) (n : NamespacedName)
      → Differ k (key k o) j n
      → view (client.update k o s).1 j n ≡ view s j n
  -- The count of replicas that was asked for is kept, and a kept deployment always has one.
  pub stored_replicas :
      (d : Deployment) (r : ℤ)
      → d.spec.replicas ≡ some r
      → (stored Kind.deployment d).spec.replicas ≡ some r
  pub merged_replicas :
      (old d : Deployment) (r : ℤ)
      → d.spec.replicas ≡ some r
      → (merged Kind.deployment old d).spec.replicas ≡ some r
  pub kept_replicas :
      (s : client.State) (n : NamespacedName) (d : Deployment)
      → view s Kind.deployment n ≡ some d
      → d.spec.replicas ≢ none
  -- The status of a cluster is written by itself.
  pub update_status_ok :
      (c old : PrestoCluster) (s : client.State)
      → view s Kind.presto_cluster (key Kind.presto_cluster c) ≡ some old
      → (client.update_status c s).0 ≡ none
  pub view_status_updated :
      (c old : PrestoCluster) (s : client.State)
      → view s Kind.presto_cluster (key Kind.presto_cluster c) ≡ some old
      → view (client.update_status c s).1 Kind.presto_cluster (key Kind.presto_cluster c)
        ≡ some (record old { status = c.status })
  pub view_status_other :
      (c : PrestoCluster) (s : client.State) (j : Kind) (n : NamespacedName)
      → Differ Kind.presto_cluster (key Kind.presto_cluster c) j n
      → view (client.update_status c s).1 j n ≡ view s j n
  -- Events are kept apart from the objects.
  pub view_event :
      (c : PrestoCluster) (t r m : Text) (s : client.State) (j : Kind) (n : NamespacedName)
      → view (client.event c t r m s) j n ≡ view s j n
