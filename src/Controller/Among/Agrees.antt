-- ===== src/Controller/Among/Agrees.antt =====
-- When a request among others agrees with the same request alone: it has the same outcome, and it
-- leaves the same of the cluster, whatever others have made of the rest.
use presto_on_k8s_operator.Controller.Among.{SameFor, Others, Elsewhere, preceded, among}
use presto_on_k8s_operator.Controller.Program.{
  ApiCall, get_object, create_object, update_object, delete_object, write_status, record_event,
  perform, Program, done, faults, asks, run, Keeps,
}
use presto_on_k8s_operator.Controller.Program.Local.{IsFor-Behaves, perform-IsKeyed}
use presto_on_k8s_operator.Go.{Outcome, returns, panics, final}
use presto_on_k8s_operator.Kube.Client.{Client}
use presto_on_k8s_operator.Kube.Client.Local.{View, IsLocal}
use presto_on_k8s_operator.Kube.Meta.{NamespacedName}
use presto_on_k8s_operator.Prelude.{ℕ, suc, ◌≡◌, refl, sym, ◌∙◌, ap}

module _ (client : Client) (view : View client) (owner : NamespacedName)
    (others : Others client view owner) (e : Elsewhere client view owner others) where
  -- The state among others and the state alone.
  pub record Related (s : client.State × ℕ) (t : client.State) : Type 0 where
    pub same : SameFor client view owner s.0 t
    pub holds : e.Holds s.0
    pub holds_alone : e.Holds t

  -- The same result, or both dereference nil; and states that are related.
  abbrev pub Matches : {A : Type 0} → Outcome (client.State × ℕ) A → Outcome client.State A → Type 0
  Matches (returns a s) (returns b t) = (a ≡ b) × Related s t
  Matches (panics s) (panics t) = Related s t
  Matches _ _ = ⊥

  -- What holds elsewhere holds where the action alone ends.
  pub Matches-Holds :
      {A : Type 0} (o : Outcome (client.State × ℕ) A) (o' : Outcome client.State A)
      → Matches o o'
      → e.Holds (final o')
  Matches-Holds (returns a s) (returns b t) (same, r) = r.holds_alone
  Matches-Holds (panics s) (panics t) r = r.holds_alone
  Matches-Holds (returns a s) (panics t) r = absurd r
  Matches-Holds (panics s) (returns b t) r = absurd r

  -- If the action alone returns, so does the one among others.
  pub Matches-returns :
      {A : Type 0} (o : Outcome (client.State × ℕ) A) (a : A) (t : client.State)
      → Matches o (returns a t)
      → (s : client.State × ℕ) × (o ≡ returns a s) × Related s t
  Matches-returns (returns b s) a t (same, r) = (s, ap (λ x. returns x s) same, r)
  Matches-returns (panics s) a t r = absurd r

perform-among :
    (client : Client) (act : ℕ → client.State → client.State) (c : ApiCall) (s : client.State × ℕ)
    → perform (among client act) c s ≡ preceded client act (perform client c) s
perform-among client act (get_object k n z) s = refl
perform-among client act (create_object k o) s = refl
perform-among client act (update_object k o) s = refl
perform-among client act (delete_object k o) s = refl
perform-among client act (write_status c) s = refl
perform-among client act (record_event c t r m) s = refl

module _ (client : Client) (view : View client) (loc : IsLocal client view) (owner : NamespacedName)
    (others : Others client view owner) (e : Elsewhere client view owner others) where
  -- The calls of a program for the cluster.
  pub run-Matches :
      {A : Type 0} (P : A → Type 0) (p : Program client.Error A) (s : client.State × ℕ)
      (t : client.State)
      → Keeps client.Error owner P p
      → Related client view owner others e s t
      → Matches client view owner others e (run (among client others.act) p s) (run client p t)
  unfolding Keeps run
  run-Matches P (done a) s t h r = (refl, r)
  run-Matches P faults s t h r = r
  run-Matches P (asks c rest) (s, i) t h r =
      let s' = others.act i s in
      let before : SameFor client view owner s' t =
        λ j m own. others.owner_kept i s j m own ∙ r.same j m own in
      let b = IsFor-Behaves client view loc owner c h.0 in
      let after : Related client view owner others e ((perform client c s').1, suc i)
          (perform client c t).1 =
        record {
          same = b.same_for s' t before;
          holds =
              e.is_elsewhere s' (perform client c s').1
                (λ j m away. sym (b.elsewhere_kept s' j m away)) (e.kept i s r.holds);
          holds_alone =
              e.is_elsewhere t (perform client c t).1
                (λ j m away. sym (b.elsewhere_kept t j m away)) r.holds_alone;
        } in
      rw (perform-among client others.act c (s, i), b.same_answer s' t before)
        (run-Matches P (rest (perform client c t).0) ((perform client c s').1, suc i)
          (perform client c t).1 (h.1 _ (perform-IsKeyed client view loc c t)) after)
