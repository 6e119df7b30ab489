-- ===== src/Tests/Memory/Local.antt =====
-- Each call of the server in memory concerns one object.
use presto_on_k8s_operator.Api.{PrestoCluster}
use presto_on_k8s_operator.Kube.Client.{Kind, Object, key}
use presto_on_k8s_operator.Kube.Client.Local.{Concerns, IsLocal}
use presto_on_k8s_operator.Kube.Meta.{NamespacedName}
use presto_on_k8s_operator.Prelude.{
  ◌≡◌, refl, sym, ◌∙◌, ap, inl, inr, Option, none, some, Option-cases,
}
use presto_on_k8s_operator.Tests.Memory.{Server, view, answer_get, memory}
use presto_on_k8s_operator.Tests.Memory.Laws.{
  memory_view_created, memory_view_create_other, memory_view_updated, memory_view_update_other,
  memory_view_status_updated, memory_view_status_other, memory_view_event, view_key,
}

answer_get-keeps :
    (k : Kind) (o : Option (Object k)) (z : Object k) (s : Server) → (answer_get k o z s).1 ≡ s
answer_get-keeps k none z s = refl
answer_get-keeps k (some o) z s = refl

answer_get_same :
    (k : Kind) (o p : Option (Object k)) (z : Object k) (s t : Server)
    → o ≡ p
    → (answer_get k o z s).0 ≡ (answer_get k p z t).0
answer_get_same k none none z s t e = refl
answer_get_same k (some o) (some p) z s t e = cc
answer_get_same k none (some p) z s t e = absurd cc
answer_get_same k (some o) none z s t e = absurd cc

memory_get_local :
    (k : Kind) (n : NamespacedName) (z : Object k) → Concerns memory view k n (memory.get k n z)
memory_get_local k n z = record {
  same_answer = λ s t e. answer_get_same k (view s k n) (view t k n) z s t e;
  same_object = λ s t e.
      ap (λ u. view u k n) (answer_get-keeps k (view s k n) z s)
      ∙ e
      ∙ sym (ap (λ u. view u k n) (answer_get-keeps k (view t k n) z t));
  others_kept = λ s j m d. ap (λ u. view u j m) (answer_get-keeps k (view s k n) z s);
}

memory_create_local :
    (k : Kind) (o : Object k) → Concerns memory view k (key k o) (memory.create k o)
memory_create_local k o = record {
  same_answer = λ s t e. elim (Option-cases (view t k (key k o))) [
    | inl absent ↦ rw (e, absent, memory)
    | inr (old, there) ↦ rw (e, there, memory)
  ];
  same_object = λ s t e. elim (Option-cases (view t k (key k o))) [
    | inl absent ↦ memory_view_created k o s (e ∙ absent) ∙ sym (memory_view_created k o t absent)
    | inr (old, there) ↦ rw (e, there, memory) (e ∙ refl)
  ];
  others_kept = memory_view_create_other k o;
}

memory_update_local :
    (k : Kind) (o : Object k) → Concerns memory view k (key k o) (memory.update k o)
memory_update_local k o = record {
  same_answer = λ s t e. elim (Option-cases (view t k (key k o))) [
    | inl absent ↦ rw (e, absent, memory)
    | inr (old, there) ↦ rw (e, there, memory)
  ];
  same_object = λ s t e. elim (Option-cases (view t k (key k o))) [
    | inl absent ↦ rw (e, absent, memory) (e ∙ refl)
    | inr (old, there) ↦
        memory_view_updated k o old s (e ∙ there) ∙ sym (memory_view_updated k o old t there)
  ];
  others_kept = memory_view_update_other k o;
}

memory_update_status_local :
    (c : PrestoCluster)
    → Concerns memory view Kind.presto_cluster (key Kind.presto_cluster c) (memory.update_status c)
memory_update_status_local c = record {
  same_answer = λ s t e.
      elim (Option-cases (view t Kind.presto_cluster (key Kind.presto_cluster c))) [
        | inl absent ↦ rw (e, absent, memory)
        | inr (old, there) ↦ rw (e, there, memory)
      ];
  same_object = λ s t e.
      elim (Option-cases (view t Kind.presto_cluster (key Kind.presto_cluster c))) [
        | inl absent ↦ rw (e, absent, memory) (e ∙ refl)
        | inr (old, there) ↦
            memory_view_status_updated c old s (e ∙ there)
            ∙ sym (memory_view_status_updated c old t there)
      ];
  others_kept = memory_view_status_other c;
}

answer_get-key :
    (o : Option PrestoCluster) (n : NamespacedName) (z : PrestoCluster) (s : Server)
    → ((c : PrestoCluster) → o ≡ some c → key Kind.presto_cluster c ≡ n)
    → (answer_get Kind.presto_cluster o z s).0.0 ≡ none
    → key Kind.presto_cluster (answer_get Kind.presto_cluster o z s).0.1 ≡ n
answer_get-key none n z s h e = absurd cc
answer_get-key (some c) n z s h e = h c refl

pub memory-IsLocal : IsLocal memory view
memory-IsLocal = record {
  get_local = memory_get_local;
  create_local = memory_create_local;
  update_local = memory_update_local;
  update_status_local = memory_update_status_local;
  event_apart = λ c t r m s j n. memory_view_event s m j n;
  get_key = λ n z s e.
      answer_get-key (view s Kind.presto_cluster n) n z s
        (λ c found. view_key s Kind.presto_cluster n c found) e;
}
