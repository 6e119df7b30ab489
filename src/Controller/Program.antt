-- ===== src/Controller/Program.antt =====
-- A request laid open as the calls that it makes, one at a time.
pub mod Opened
pub mod Inspection
pub mod Children
pub mod Status
pub mod Request
pub mod Local
use presto_on_k8s_operator.Api.{PrestoCluster}
use presto_on_k8s_operator.Controller.Isolated.{BelongsTo}
use presto_on_k8s_operator.Go.{Action, returns, panics}
use presto_on_k8s_operator.Kube.Client.{Client, Kind, Object, key}
use presto_on_k8s_operator.Kube.Meta.{NamespacedName}
use presto_on_k8s_operator.Prelude.{◌≡◌, Option, none}
use presto_on_k8s_operator.Text.{Text}

-- A call of the API server or of the event recorder, with its arguments.
pub data ApiCall : Type 0 where
  get_object : (k : Kind) → NamespacedName → Object k → ApiCall
  create_object : (k : Kind) → Object k → ApiCall
  update_object : (k : Kind) → Object k → ApiCall
  delete_object : (k : Kind) → Object k → ApiCall
  write_status : PrestoCluster → ApiCall
  record_event : PrestoCluster → Text → Text → Text → ApiCall

-- A call for a cluster or for one of its five children, which deletes nothing.
abbrev pub IsFor : NamespacedName → ApiCall → Type 0
IsFor owner (get_object k n z) = BelongsTo owner k n
IsFor owner (create_object k o) = BelongsTo owner k (key k o)
IsFor owner (update_object k o) = BelongsTo owner k (key k o)
IsFor owner (delete_object k o) = ⊥
IsFor owner (write_status c) = BelongsTo owner Kind.presto_cluster (key Kind.presto_cluster c)
IsFor owner (record_event c t r m) = Unit

module _ (E : Type 0) where
  abbrev pub Answer : ApiCall → Type 0
  Answer (get_object k n z) = Option E × Object k
  Answer (create_object k o) = Option E
  Answer (update_object k o) = Option E
  Answer (delete_object k o) = Option E
  Answer (write_status c) = Option E
  Answer (record_event c t r m) = Unit {0}

  -- A cluster that is read stands under the key that was asked for.
  abbrev pub IsKeyed : (c : ApiCall) → Answer c → Type 0
  IsKeyed (get_object Kind.presto_cluster n z) (err, o) =
      (err ≡ none) → key Kind.presto_cluster o ≡ n
  IsKeyed _ _ = Unit

  -- What is left of an action: its result, a nil dereference, or a call and what follows its answer.
  pub data Program (A : Type 0) : Type 0 where
    done : A → Program A
    faults : Program A
    asks : (c : ApiCall) → (Answer c → Program A) → Program A

  unfoldable pub then_do : {A B : Type 0} → Program A → (A → Program B) → Program B
  then_do (done a) f = f a
  then_do faults f = faults
  then_do (asks c rest) f = asks c (λ a. then_do (rest a) f)

  -- All calls are for the cluster, and what is returned has a property.
  unfoldable pub Keeps : {A : Type 0} → NamespacedName → (A → Type 0) → Program A → Type 0
  Keeps owner P (done a) = P a
  Keeps owner P faults = Unit
  Keeps owner P (asks c rest) =
      IsFor owner c × ((a : Answer c) → IsKeyed c a → Keeps owner P (rest a))

module _ (client : Client) where
  abbrev pub perform : (c : ApiCall) → client.State → Answer client.Error c × client.State
  perform (get_object k n z) s = client.get k n z s
  perform (create_object k o) s = client.create k o s
  perform (update_object k o) s = client.update k o s
  perform (delete_object k o) s = client.delete k o s
  perform (write_status c) s = client.update_status c s
  perform (record_event c t r m) s = (tt, client.event c t r m s)

  unfoldable pub run : {A : Type 0} → Program client.Error A → Action client.State A
  run (done a) s = returns a s
  run faults s = panics s
  run (asks c rest) s = let (a, t) = perform c s in run (rest a) t
