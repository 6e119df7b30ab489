-- ===== src/Reconciler/Follows.antt =====
-- The steps of the reconciler on every branch, the deletions included: what the server holds
-- follows what is desired.
use mathlib.Core.Option.{none-ne-some}
use presto_on_k8s_operator.Go.{Outcome, returns, call, pure, ◌>>=◌}
use presto_on_k8s_operator.Kube.Apps.{ConfigMap, Deployment, Service}
use presto_on_k8s_operator.Kube.Client.{Client, Kind, Object, key}
use presto_on_k8s_operator.Kube.Client.Quiet.{IsQuiet, Differ}
use presto_on_k8s_operator.Kube.Meta.{NamespacedName}
use presto_on_k8s_operator.Prelude.{
  ◌≡◌, refl, sym, ◌∙◌, subst, ◌≢◌, inl, inr, Option, none, some, Option-cases,
}
use presto_on_k8s_operator.Prelude.Int.{ℤ}
use presto_on_k8s_operator.Reconciler.{
  reconcile_config_map, reconcile_deployment, reconcile_service, delete_config_map,
  delete_deployment, delete_service,
}
use presto_on_k8s_operator.Reconciler.Plan.{
  ensure, scale, view-ensure, view-scale, view-ensure_other, view-scale_other,
  reconcile_config_map-ensure, reconcile_service-ensure, reconcile_deployment-scale,
}

-- What the documentation says of deletions, on a client that is quiet.
pub record IsDeleting (client : Client) (q : IsQuiet client) : Type 0 where
  pub delete_ok :
      (k : Kind) (o old : Object k) (s : client.State)
      → q.view s k (key k o) ≡ some old
      → (client.delete k o s).0 ≡ none
  pub view_deleted :
      (k : Kind) (o old : Object k) (s : client.State)
      → q.view s k (key k o) ≡ some old
      → q.view (client.delete k o s).1 k (key k o) ≡ none
  pub view_delete_other :
      (k : Kind) (o : Object k) (s : client.State) (j : Kind) (n : NamespacedName)
      → Differ k (key k o) j n
      → q.view (client.delete k o s).1 j n ≡ q.view s j n

module _ (k : Kind) where
  -- An object that stands under the key, if there is one.
  abbrev pub At : NamespacedName → Option (Object k) → Type 0
  At n none = Unit
  At n (some o) = key k o ≡ n

  -- An object is held exactly if one is desired.
  abbrev pub Agrees : Option (Object k) → Option (Object k) → Type 0
  Agrees none now = now ≡ none
  Agrees (some _) now = now ≢ none

abbrev pub Counts : ℤ → Option Deployment → Type 0
Counts r none = Unit
Counts r (some d) = d.spec.replicas ≡ some r

module _ (client : Client) (q : IsQuiet client) where
  -- The step succeeds. Afterwards an object is held under the key exactly if one is desired, and
  -- all else is as it was.
  pub record Follows (k : Kind) (n : NamespacedName) (desired : Option (Object k))
      (s : client.State) (ran : Outcome client.State (Option client.Error)) : Type 0 where
    pub after : client.State
    pub succeeded : ran ≡ returns none after
    pub agrees : Agrees k desired (q.view after k n)
    pub others : (j : Kind) (m : NamespacedName) → Differ k n j m → q.view after j m ≡ q.view s j m

  nothing-Follows :
      (k : Kind) (n : NamespacedName) (s : client.State)
      → q.view s k n ≡ none
      → Follows k n none s (returns none s)
  nothing-Follows k n s absent = record {
    after = s;
    succeeded = refl;
    agrees = absent;
    others = λ j m d. refl;
  }

  ensured-Follows :
      (k : Kind) (o : Object k) (s : client.State)
      (ran : Outcome client.State (Option client.Error))
      → ran ≡ returns none (ensure client q k o s)
      → Follows k (key k o) (some o) s ran
  ensured-Follows k o s ran e = record {
    after = ensure client q k o s;
    succeeded = e;
    agrees = view-ensure client q k o s;
    others = λ j m d. view-ensure_other client q k o s j m d;
  }

  module _ (deletes : IsDeleting client q) where
    deleted-Follows :
        (k : Kind) (n : NamespacedName) (i : Object k) (s : client.State)
        → q.view s k n ≡ some i
        → Follows k n none s
            ((do err ← call (client.delete k i); pure (client.ignore_not_found err)) s)
    deleted-Follows k n i s held =
        let own = q.view_key s k n i held in
        let here : q.view s k (key k i) ≡ some i = rw own held in
        record {
          after = (client.delete k i s).1;
          succeeded = rw (deletes.delete_ok k i i s here, q.ignore_nil) refl;
          agrees =
              subst (λ m. q.view (client.delete k i s).1 k m ≡ none) own
                (deletes.view_deleted k i i s here);
          others = λ j m d.
              deletes.view_delete_other k i s j m (subst (λ n. Differ k n j m) (sym own) d);
        }

    config_map-Follows :
        (n : NamespacedName) (d : Option ConfigMap) (s : client.State)
        → At Kind.config_map n d
        → Follows Kind.config_map n d s
            (reconcile_config_map client d (q.view s Kind.config_map n) s)
    unfolding reconcile_config_map delete_config_map
    config_map-Follows n (some d) s own =
        subst
          (λ m.
            Follows Kind.config_map m (some d) s
              (reconcile_config_map client (some d) (q.view s Kind.config_map m) s))
          own (ensured-Follows Kind.config_map d s _ (reconcile_config_map-ensure client q d s))
    config_map-Follows n none s own = elim (Option-cases (q.view s Kind.config_map n)) [
      | inl absent ↦ rw absent (nothing-Follows Kind.config_map n s absent)
      | inr (i, held) ↦ rw held (deleted-Follows Kind.config_map n i s held)
    ]

    service-Follows :
        (n : NamespacedName) (d : Option Service) (s : client.State)
        → At Kind.service n d
        → Follows Kind.service n d s (reconcile_service client d (q.view s Kind.service n) s)
    unfolding reconcile_service delete_service
    service-Follows n (some d) s own =
        subst
          (λ m.
            Follows Kind.service m (some d) s
              (reconcile_service client (some d) (q.view s Kind.service m) s))
          own (ensured-Follows Kind.service d s _ (reconcile_service-ensure client q d s))
    service-Follows n none s own = elim (Option-cases (q.view s Kind.service n)) [
      | inl absent ↦ rw absent (nothing-Follows Kind.service n s absent)
      | inr (i, held) ↦ rw held (deleted-Follows Kind.service n i s held)
    ]

    scaled-Follows :
        (d : Deployment) (r : ℤ) (s : client.State)
        → d.spec.replicas ≡ some r
        → Follows Kind.deployment (key Kind.deployment d) (some d) s (
            reconcile_deployment client
              (some d)
              (q.view s Kind.deployment (key Kind.deployment d))
              s)
    scaled-Follows d r s count = record {
      after = scale client q d r s;
      succeeded = reconcile_deployment-scale client q d r s count;
      agrees =
          let (now, held, _) = view-scale client q d r s count in
          λ e. none-ne-some now (sym e ∙ held);
      others = λ j m differ. view-scale_other client q d r s j m differ;
    }

    deployment-Follows :
        (n : NamespacedName) (r : ℤ) (d : Option Deployment) (s : client.State)
        → At Kind.deployment n d
        → Counts r d
        → Follows Kind.deployment n d s
            (reconcile_deployment client d (q.view s Kind.deployment n) s)
    unfolding reconcile_deployment delete_deployment
    deployment-Follows n r (some d) s own count =
        subst
          (λ m.
            Follows Kind.deployment m (some d) s
              (reconcile_deployment client (some d) (q.view s Kind.deployment m) s))
          own (scaled-Follows d r s count)
    deployment-Follows n r none s own count = elim (Option-cases (q.view s Kind.deployment n)) [
      | inl absent ↦ rw absent (nothing-Follows Kind.deployment n s absent)
      | inr (i, held) ↦ rw held (deleted-Follows Kind.deployment n i s held)
    ]

    -- For a quiet client, each step of the reconciler succeeds on each of its branches, given what
    -- the server holds under a key: afterwards an object is held there exactly if one is desired,
    -- so that one that is missing is created and one that is not desired is deleted, and nothing
    -- else is changed. A desired deployment must have a count of replicas.
    pub reconcile_parts-Follows :
        (n : NamespacedName) (r : ℤ) (c : Option ConfigMap) (v : Option Service)
        (d : Option Deployment) (s : client.State)
        → At Kind.config_map n c
        → At Kind.service n v
        → At Kind.deployment n d
        → Counts r d
        → Follows Kind.config_map n c s
            (reconcile_config_map client c (q.view s Kind.config_map n) s)
          × Follows Kind.service n v s (reconcile_service client v (q.view s Kind.service n) s)
          × Follows Kind.deployment n d s
              (reconcile_deployment client d (q.view s Kind.deployment n) s)
    reconcile_parts-Follows n r c v d s at_c at_v at_d count = (
      config_map-Follows n c s at_c,
      service-Follows n v s at_v,
      deployment-Follows n r d s at_d count,
    )
