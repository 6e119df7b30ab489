-- ===== src/Controller/Program/Local.antt =====
-- What the calls of a request depend on and change, for a client whose calls each concern one object.
use presto_on_k8s_operator.Controller.Among.{SameFor, IsElsewhere, Concerns-SameFor}
use presto_on_k8s_operator.Controller.Isolated.{BelongsTo}
use presto_on_k8s_operator.Controller.Program.{
  ApiCall, get_object, create_object, update_object, delete_object, write_status, record_event,
  perform, IsFor, IsKeyed,
}
use presto_on_k8s_operator.Kube.Client.{Client, Kind}
use presto_on_k8s_operator.Kube.Client.Local.{View, Concerns, IsLocal}
use presto_on_k8s_operator.Kube.Meta.{NamespacedName}
use presto_on_k8s_operator.Prelude.{◌≡◌, refl, sym, ◌∙◌}

module _ (client : Client) (view : View client) (loc : IsLocal client view) where
  module _ (owner : NamespacedName) where
    -- What a call for the cluster depends on and changes.
    pub record Behaves (c : ApiCall) : Type 0 where
      pub same_answer :
          (s t : client.State)
          → SameFor client view owner s t
          → (perform client c s).0 ≡ (perform client c t).0
      pub same_for :
          (s t : client.State)
          → SameFor client view owner s t
          → SameFor client view owner (perform client c s).1 (perform client c t).1
      pub elsewhere_kept :
          (s : client.State) (k : Kind) (n : NamespacedName)
          → IsElsewhere client view owner k n
          → view (perform client c s).1 k n ≡ view s k n

    Concerns-Behaves :
        (c : ApiCall) (k : Kind) (n : NamespacedName)
        → BelongsTo owner k n
        → Concerns client view k n (perform client c)
        → Behaves c
    Concerns-Behaves c k n owned h = record {
      same_answer = λ s t same. h.same_answer s t (same k n owned);
      same_for = λ s t same. Concerns-SameFor client view owner k n _ owned h s t same;
      elsewhere_kept = λ s j m away. h.others_kept s j m (away k n owned);
    }

    pub IsFor-Behaves : (c : ApiCall) → IsFor owner c → Behaves c
    IsFor-Behaves (get_object k n z) h = Concerns-Behaves _ k n h (loc.get_local k n z)
    IsFor-Behaves (create_object k o) h = Concerns-Behaves _ k _ h (loc.create_local k o)
    IsFor-Behaves (update_object k o) h = Concerns-Behaves _ k _ h (loc.update_local k o)
    IsFor-Behaves (delete_object k o) h = absurd h
    IsFor-Behaves (write_status c) h =
        Concerns-Behaves _ Kind.presto_cluster _ h (loc.update_status_local c)
    IsFor-Behaves (record_event c t r m) h = record {
      same_answer = λ s u same. refl;
      same_for = λ s u same k n own.
          loc.event_apart c t r m s k n ∙ same k n own ∙ sym (loc.event_apart c t r m u k n);
      elsewhere_kept = λ s k n away. loc.event_apart c t r m s k n;
    }

  pub perform-IsKeyed :
      (c : ApiCall) (s : client.State) → IsKeyed client.Error c (perform client c s).0
  perform-IsKeyed (get_object Kind.presto_cluster n z) s = loc.get_key n z s
  perform-IsKeyed (get_object Kind.config_map n z) s = tt
  perform-IsKeyed (get_object Kind.deployment n z) s = tt
  perform-IsKeyed (get_object Kind.service n z) s = tt
  perform-IsKeyed (get_object Kind.ingress n z) s = tt
  perform-IsKeyed (create_object k o) s = tt
  perform-IsKeyed (update_object k o) s = tt
  perform-IsKeyed (delete_object k o) s = tt
  perform-IsKeyed (write_status c) s = tt
  perform-IsKeyed (record_event c t r m) s = tt
